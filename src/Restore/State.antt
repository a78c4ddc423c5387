-- ===== src/Restore/State.antt =====
-- crates/octa-cache/src/restore.rs and crates/octa-cache/src/restore/journal.rs: the durable state of
-- one restore transaction, its renames and its markers. An output root stands in up to three places:
-- live, in the staging directory and in the backup directory.
use octa.Common.{Bool, true, false, Option, none, some, List, if◌then◌else◌}
use octa.Restore.Exec.{
  io_error, Exec, pure, raise, ◌>>=◌, ◌>>◌, act, observe, step, with_state, each,
}

-- `JournalRoot` with the values of its paths. `bundled` is what the verified bundle holds for it.
pub record Root (V : Type 0) : Type 0 where
  pub had_original : Bool
  pub bundled : V
  pub live : Option V
  pub staged : Option V
  pub saved : Option V

-- The journal file with its three markers, the transaction directory, and the roots.
pub record Files (V : Type 0) : Type 0 where
  pub journal : Bool
  pub prepared : Bool
  pub committed : Bool
  pub rolled_back : Bool
  pub transaction : Bool
  pub roots : List (Root V)

pub data Place : Type 0 where
  live staged saved : Place

pub data Marker : Type 0 where
  prepared committed rolled_back : Marker

module _ {V : Type 0} where
  abbrev pub at : Place → Root V → Option V
  at live r = r.live
  at staged r = r.staged
  at saved r = r.saved

  abbrev pub put : Place → Option V → Root V → Root V
  put live v r = record r { live = v }
  put staged v r = record r { staged = v }
  put saved v r = record r { saved = v }

  abbrev pub is_some : Option V → Bool
  is_some none = false
  is_some (some v) = true

  unfoldable pub path_exists : Place → Exec (Root V) Bool
  path_exists p = observe λ r. is_some (at p r)

  -- The value that moves; without one the rename fails.
  abbrev pub moved : Option V → Place → Place → Exec (Root V) (Unit {0})
  moved none source target = raise io_error
  moved (some v) source target = act io_error λ r. put target (some v) (put source none r)

  unfoldable pub rename : Place → Place → Exec (Root V) (Unit {0})
  rename source target r = moved (at source r) source target r

  -- The two directories of a rename always differ here.
  unfoldable pub sync_rename_parents : Exec (Root V) (Unit {0})
  sync_rename_parents = do step; step

  abbrev pub has_marker : Marker → Files V → Bool
  has_marker prepared w = w.prepared
  has_marker committed w = w.committed
  has_marker rolled_back w = w.rolled_back

  abbrev pub set_marker : Marker → Bool → Files V → Files V
  set_marker prepared b w = record w { prepared = b }
  set_marker committed b w = record w { committed = b }
  set_marker rolled_back b w = record w { rolled_back = b }

  unfoldable pub marker_exists : Marker → Exec (Files V) Bool
  marker_exists m = observe (has_marker m)

  -- `create_new` refuses a file that is there; then the file and its directory are flushed.
  unfoldable pub write_marker : Marker → Exec (Files V) (Unit {0})
  write_marker m w =
      (if has_marker m w then raise io_error else do act io_error (set_marker m true); step; step) w

  unfoldable pub on_roots : {A : Type 0} → Exec (List (Root V)) A → Exec (Files V) A
  on_roots body w fs = with_state (λ rs. record w { roots = rs }) (body w.roots fs)

  -- Deletes the files of a transaction one after the other.
  unfoldable pub discard : Exec (Root V) (Unit {0})
  discard = do
    act io_error λ r. record r { staged = none }
    act io_error λ r. record r { saved = none }

  -- `fs::remove_dir_all(transaction)`, where an absent directory is fine, and the flush after it.
  unfoldable pub remove_transaction : Exec (Files V) (Unit {0})
  remove_transaction = do
    present ← observe λ w. w.transaction
    if present
        then (do on_roots (each discard); act io_error λ w. record w { transaction = false }; step)
        else pure tt

  unfoldable pub remove_transaction_state : Exec (Files V) (Unit {0})
  remove_transaction_state = do
    act io_error λ w. record w { prepared = false }
    step
    remove_transaction
    act io_error λ w. record w { committed = false }
    act io_error λ w. record w { rolled_back = false }
    act io_error λ w. record w { journal = false }
    step

  unfoldable pub remove_unprepared_transaction_state : Exec (Files V) (Unit {0})
  remove_unprepared_transaction_state = do
    remove_transaction
    present ← observe λ w. w.journal
    if present then (do act io_error λ w. record w { journal = false }; step) else pure tt

  -- The renamed temporary file makes the journal visible at once.
  unfoldable pub write_journal : Exec (Files V) (Unit {0})
  write_journal = do step; step; act io_error λ w. record w { journal = true }; step
