-- ===== src/Restore/Examples.antt =====
-- A restore of a root that had a value and of one that had none, and the theorems at it.
use octa.Common.{false, none, some, List, [], ◌∷◌, ◌≡◌, refl}
use octa.Restore.Exec.{
  Fault, happens, fails, stops, Outcome, returned, continue, act, observe, on_error, ignoring,
  with_state, each, each_rev,
}
use octa.Restore.State.{
  Files, path_exists, rename, sync_rename_parents, marker_exists, write_marker, on_roots, discard,
  remove_transaction, remove_transaction_state, remove_unprepared_transaction_state, write_journal,
}
use octa.Restore.Transaction.{
  restored, return_installed, revert_original, revert_new, revert, rollback, check_live,
  cleanup_committed, recover_one, recover, extract, make_backup_parent, prepare, back_up, replace,
  mutate, restore_roots, prepare_new, install_new, restore_new_root, restore,
}
use octa.Restore.Roots.{Target, absent, present, root_of, unstaged}
use octa.Restore.Whole.{state_after, recoveries, Fresh, lives}
use octa.Restore.AllOrNothing.{Recovers, all_or_nothing, restore_completes, commit_marker_decides}
use Prim.Native.Nat.{ℕ, zero, suc}

program : Unit {0}
unfolding continue act observe on_error ignoring with_state each each_rev path_exists rename
    sync_rename_parents marker_exists write_marker on_roots discard remove_transaction
    remove_transaction_state remove_unprepared_transaction_state write_journal return_installed
    revert_original revert_new revert rollback check_live cleanup_committed recover_one recover
    extract make_backup_parent prepare back_up replace mutate restore_roots prepare_new install_new
    restore_new_root restore
program = tt

abbrev targets : List (Target ℕ)
targets = present 1 2 ∷ absent 3 ∷ []

abbrev files : Files ℕ
files = record {
  journal = false;
  prepared = false;
  committed = false;
  rolled_back = false;
  transaction = false;
  roots = root_of (present 1 2) (some 1) none none ∷ root_of (absent 3) none none none ∷ [];
}

files-Fresh : Fresh targets files
files-Fresh = record {
  roots = (unstaged (present 1 2), (unstaged (absent 3), tt));
  no_journal = refl;
  not_prepared = refl;
  not_committed = refl;
  not_rolled = refl;
}

abbrev after : ℕ → List Fault → List Fault
after zero fs = fs
after (suc n) fs = happens ∷ after n fs

abbrev run : List Fault → Outcome (Files ℕ) (Unit {0})
run fs = continue (restore false (tt ∷ []) files fs) λ _ s gs. returned tt s gs

abbrev stops_after : ℕ → Files ℕ
stops_after n = state_after (run (after n (stops ∷ [])))

-- Stopped between the two roots, and stopped again while rolling back.
all_or_nothing_example :
    Recovers
      (tt ∷ [])
      files
      (recoveries (tt ∷ []) (after 8 (stops ∷ []) ∷ after 3 (fails ∷ []) ∷ []) (stops_after 26))
unfolding program
all_or_nothing_example =
    all_or_nothing targets (tt ∷ []) (after 8 (stops ∷ []) ∷ after 3 (fails ∷ []) ∷ []) files
      (after 26 (stops ∷ [])) files-Fresh λ x v gs e. absurd cc

rolled_back_roots :
    lives (state_after (recover (tt ∷ []) (stops_after 26) [])).roots ≡ some 1 ∷ none ∷ []
unfolding program
rolled_back_roots = refl

committed_roots :
    lives (state_after (recover (tt ∷ []) (stops_after 36) [])).roots ≡ some 2 ∷ some 3 ∷ []
unfolding program
committed_roots = refl

restore_completes_example :
    (u : Files ℕ) × (gs : List Fault) × (restore false (tt ∷ []) files [] ≡ returned restored u gs)
    × (lives u.roots ≡ some 2 ∷ some 3 ∷ [])
    × (u.journal ≡ false)
restore_completes_example =
    restore_completes targets (tt ∷ []) false files [] files-Fresh (λ e. absurd cc) λ x. x

commit_marker_decides_example :
    (u : Files ℕ) × (gs : List Fault) × (recover (tt ∷ []) (stops_after 36) [] ≡ returned tt u gs)
    × (lives u.roots ≡ some 2 ∷ some 3 ∷ [])
unfolding program
commit_marker_decides_example =
    commit_marker_decides targets (tt ∷ []) files (stops_after 36) (after 36 (stops ∷ []))
      files-Fresh (λ x v gs e. absurd cc) refl refl

abbrev twins : Files ℕ
twins = record files {
  roots = root_of (present 1 2) (some 1) none none ∷ root_of (present 3 4) (some 3) none none ∷ [];
}

-- The flush of the new commit marker fails, and the process stops while it rolls back.
abbrev torn : Files ℕ
torn = state_after (restore false [] twins (after 38 (fails ∷ after 9 (stops ∷ []))))

-- The recovery takes the marker for a commit, and leaves one new and one old root.
torn_roots : lives (state_after (recover [] torn [])).roots ≡ some 2 ∷ some 3 ∷ []
unfolding program
torn_roots = refl

torn_is_forgotten : (state_after (recover [] torn [])).journal ≡ false
unfolding program
torn_is_forgotten = refl
