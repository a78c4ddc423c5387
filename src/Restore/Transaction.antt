-- ===== src/Restore/Transaction.antt =====
-- crates/octa-cache/src/restore.rs: a restore, its rollback, and the recovery of a journal that a
-- terminated process left.
use octa.Common.{Bool, true, false, not, ◌&&◌, some, List, [], ◌∷◌, if◌then◌else◌}
use octa.Restore.Exec.{
  io_error, metadata_error, Exec, pure, raise, ◌>>=◌, ◌>>◌, act, observe, step, check_cancelled,
  repeat, on_error, ignoring, each, each_rev,
}
use octa.Restore.State.{
  Root, Files, live, staged, saved, prepared, committed, rolled_back, path_exists, rename,
  sync_rename_parents, marker_exists, write_marker, on_roots, remove_transaction_state,
  remove_unprepared_transaction_state, write_journal,
}

pub data RestoreOutcome : Type 0 where
  already_materialized restored : RestoreOutcome

module _ {V : Type 0} where
  -- What rollback does with a root that had a value: the new one goes back into staging, if it was
  -- installed, and the old one comes back from the backup.
  unfoldable pub return_installed : Bool → Exec (Root V) (Unit {0})
  return_installed false = pure tt
  return_installed true = do
    is_staged ← path_exists staged
    if is_staged then raise metadata_error else do step; rename live staged; sync_rename_parents

  unfoldable pub revert_original : Exec (Root V) (Unit {0})
  revert_original = do
    is_saved ← path_exists saved
    if is_saved
        then (do
          is_live ← path_exists live
          return_installed is_live
          step
          rename saved live
          sync_rename_parents)
        else do is_staged ← path_exists staged; if is_staged then pure tt else raise metadata_error

  unfoldable pub revert_new : Exec (Root V) (Unit {0})
  revert_new = do
    is_staged ← path_exists staged
    is_live ← path_exists live
    if not is_staged
        then (if not is_live
            then raise metadata_error
            else do step; rename live staged; sync_rename_parents)
        else if is_live
        then raise metadata_error
        else pure tt

  unfoldable pub revert : Exec (Root V) (Unit {0})
  revert r = (if r.had_original then revert_original else revert_new) r

  -- `parents` has one element for each directory that the restore created.
  unfoldable pub rollback : List (Unit {0}) → Exec (Files V) (Unit {0})
  rollback parents = do
    on_roots (each_rev revert)
    repeat (do step; step) parents
    write_marker rolled_back
    remove_transaction_state

  unfoldable pub check_live : Exec (Root V) (Unit {0})
  check_live = do is_live ← path_exists live; if is_live then pure tt else raise metadata_error

  unfoldable pub cleanup_committed : Exec (Files V) (Unit {0})
  cleanup_committed = do on_roots (each check_live); remove_transaction_state

  unfoldable pub recover_one : List (Unit {0}) → Exec (Files V) (Unit {0})
  recover_one parents = do
    is_committed ← marker_exists committed
    is_rolled_back ← marker_exists rolled_back
    is_prepared ← marker_exists prepared
    if is_committed && is_rolled_back
        then raise metadata_error
        else if is_committed
        then cleanup_committed
        else if is_rolled_back
        then remove_transaction_state
        else if is_prepared
        then rollback parents
        else remove_unprepared_transaction_state

  -- What `recover` does for this transaction: nothing without a journal.
  unfoldable pub recover : List (Unit {0}) → Exec (Files V) (Unit {0})
  recover parents = do
    present ← observe λ w. w.journal
    if present then recover_one parents else pure tt

  -- `extract_bundle` writes the root's value into staging.
  unfoldable pub extract : Exec (Root V) (Unit {0})
  extract = act io_error λ r. record r { staged = some r.bundled }

  -- The backup directory of a root that has a value.
  unfoldable pub make_backup_parent : Exec (Root V) (Unit {0})
  make_backup_parent r = (if r.had_original then step else pure tt) r

  -- The steps after `transaction` is made: staging, backup, extraction, validation, flushes.
  unfoldable pub prepare : Exec (Files V) (Unit {0})
  prepare = do
    act io_error λ w. record w { transaction = true }
    step
    step
    on_roots (each extract)
    step
    on_roots (each make_backup_parent)
    step
    step
    write_marker prepared

  unfoldable pub back_up : Exec (Root V) (Unit {0})
  back_up r =
      (if not r.had_original then pure tt else do step; rename live saved; sync_rename_parents) r

  unfoldable pub replace : Exec (Root V) (Unit {0})
  replace = do check_cancelled; back_up; step; rename staged live; sync_rename_parents

  unfoldable pub mutate : List (Unit {0}) → Exec (Files V) (Unit {0})
  mutate parents = do
    repeat (do step; step) parents
    on_roots (each replace)
    write_marker committed

  -- The general path of `restore_with_callbacks`, from the staging on.
  unfoldable pub restore_roots : List (Unit {0}) → Exec (Files V) RestoreOutcome
  restore_roots parents = do
    (λ w fs. on_error (prepare w fs) remove_transaction_state)
    (λ w fs. on_error (mutate parents w fs) (rollback parents))
    cleanup_committed
    pure restored

  unfoldable pub prepare_new : Exec (Files V) (Unit {0})
  prepare_new = do
    act io_error λ w. record w { transaction = true }
    step
    on_roots (each extract)
    step
    step
    check_cancelled

  unfoldable pub install_new : Exec (Files V) (Unit {0})
  install_new = on_roots (each (rename staged live))

  -- One root, absent before: no backup and no markers.
  unfoldable pub restore_new_root : Exec (Files V) RestoreOutcome
  restore_new_root = do
    (λ w fs. on_error (prepare_new w fs) remove_unprepared_transaction_state)
    (λ w fs. on_error (install_new w fs) remove_unprepared_transaction_state)
    (λ w fs.
        on_error (on_roots (each sync_rename_parents) w fs)
          λ v gs. ignoring (remove_unprepared_transaction_state v gs))
    remove_unprepared_transaction_state
    pure restored

  abbrev pub is_single_new : List (Root V) → List (Unit {0}) → Bool
  is_single_new (r ∷ []) [] = not r.had_original
  is_single_new (r ∷ []) (_ ∷ parents) = false
  is_single_new [] parents = false
  is_single_new (r ∷ q ∷ rs) parents = false

  -- `restore_with_callbacks` after its checks; `matches` is the result of `outputs_match`.
  unfoldable pub restore : Bool → List (Unit {0}) → Exec (Files V) RestoreOutcome
  restore true parents = do check_cancelled; step; pure already_materialized
  restore false parents = do
    check_cancelled
    write_journal
    λ w. (if is_single_new w.roots parents then restore_new_root else restore_roots parents) w
