-- ===== src/Restore/Whole.antt =====
-- The whole of a restore, with the recoveries that follow it.
use octa.Common.{true, false, Option, some, List, [], ◌∷◌, map, ◌≡◌, refl, subst, arith}
use octa.Restore.Exec.{
  RestoreError, Fault, Exec, Outcome, returned, raised, stopped, continue, ◌>>◌, check_cancelled,
  on_error,
}
use octa.Restore.Exec.Ends.{
  Ends, Ends-map, Ends-act, Ends-continue, Ends-followed, Ends-raised, Ends-on_error, then-act,
  at_return,
}
use octa.Restore.Exec.Loops.{Each, Each-map}
use octa.Restore.State.{Root, Files, write_journal, remove_transaction_state}
use octa.Restore.Transaction.{restored, prepare, mutate, rollback, restore_roots, recover}
use octa.Restore.Roots.{Target, Unstaged, Unstaged-LiveOld}
use octa.Restore.Kept.{cleanup_committed-Ends}
use octa.Restore.Recovery.{
  NewValue, NewMarkers, NewMarkers-Settling, Old, New, Midway, Undone, is_old, Finished,
  Cleared-old, Cleared-new, rollback-Ends,
}
use octa.Restore.Atomic.{
  Intended, Prepared, Unready, Interrupted, at_midway, at_commit, Safe, to_old, to_new,
  Intended-Old, Unready-Undone, prepare-Ends, Unready-Ends, mutate-Ends,
}
use octa.Restore.NewRoot.{Ended}

module _ {V : Type 0} where
  abbrev pub state_after : {A : Type 0} → Outcome (Files V) A → Files V
  state_after (returned a s fs) = s
  state_after (raised e s fs) = s
  state_after (stopped s) = s

  -- Recoveries one after the other, each with its own faults.
  abbrev pub recoveries : List (Unit {0}) → List (List Fault) → Files V → Files V
  recoveries parents [] w = w
  recoveries parents (fs ∷ attempts) w =
      recoveries parents attempts (state_after (recover parents w fs))

  -- What a restore does up to the commit marker.
  abbrev pub attempt : List (Unit {0}) → Exec (Files V) (Unit {0})
  attempt parents = do
    check_cancelled
    write_journal
    (λ w fs. on_error (prepare w fs) remove_transaction_state)
    mutate parents

  -- An error leaves no commit marker.
  abbrev pub Unmarked : Outcome (Files V) (Unit {0}) → Type 0
  Unmarked o =
      (x : RestoreError) (v : Files V) (gs : List Fault) → o ≡ raised x v gs → v.committed ≡ false

  pub Unmarked-later :
      (o : Outcome (Files V) (Unit {0})) (k : Unit {0} → Exec (Files V) (Unit {0})) (v : Files V)
      (gs : List Fault)
      → o ≡ returned tt v gs
      → Unmarked (continue o k)
      → Unmarked (k tt v gs)
  unfolding continue
  Unmarked-later o k v gs e u = subst (λ o. Unmarked (continue o k)) e u

  -- Before a restore: live roots as recorded, and nothing of a transaction.
  pub record Fresh (ts : List (Target V)) (w : Files V) : Type 0 where
    pub roots : Each Unstaged ts w.roots
    pub no_journal : w.journal ≡ false
    pub not_prepared : w.prepared ≡ false
    pub not_committed : w.committed ≡ false
    pub not_rolled : w.rolled_back ≡ false

  abbrev pub lives : List (Root V) → List (Option V)
  lives = map λ r. r.live

  abbrev pub bundles : List (Root V) → List (Option V)
  bundles = map λ r. some r.bundled

module _ {V : Type 0} {ts : List (Target V)} where
  pub Fresh-Old : (w : Files V) → Fresh ts w → Old ts w
  Fresh-Old w f = record {
    lives = Each-map _ _ ts w.roots Unstaged-LiveOld f.roots;
    markers = record {
      not_committed = f.not_committed;
      prepared_rolled = λ e. absurd (ground (arith, f.not_prepared));
    };
  }

  intended : (w : Files V) → Fresh ts w → Intended ts (record w { journal = true })
  intended w f = record {
    has_journal = refl;
    not_prepared = f.not_prepared;
    not_committed = f.not_committed;
    not_rolled = f.not_rolled;
  }

  pub write_journal-Ends :
      (w : Files V) (fs : List Fault)
      → Fresh ts w
      → Ends
          (λ _ v. Intended ts v × Each Unstaged ts v.roots)
          (Safe ts)
          (Safe ts)
          fs
          (write_journal w fs)
  unfolding write_journal
  write_journal-Ends w fs f =
      let o = to_old (is_old (Fresh-Old w f)) in
      let i = intended w f in
      let p : Safe ts (record w { journal = true }) =
        to_old (is_old (Intended-Old _ i (Each-map _ _ ts w.roots Unstaged-LiveOld f.roots))) in
      then-act _ _ _ fs _ o o λ gs.
        then-act _ _ _ gs _ o o
          λ hs. then-act _ _ _ hs _ o o λ is. Ends-act _ _ _ is p p (i, f.roots)

  pub Undone-Safe : (w : Files V) → Undone ts w → Safe ts w
  Undone-Safe w u = to_old u

  pub staged-Ends :
      (w : Files V) (fs : List Fault)
      → Intended ts w
      → Each Unstaged ts w.roots
      → Ends
          (λ _. Prepared ts)
          (Safe ts)
          (Safe ts)
          fs
          (on_error (prepare w fs) remove_transaction_state)
  staged-Ends w fs i h =
      Ends-on_error (Unready ts) (Safe ts) fs _ _
        (Ends-map _ (λ _ _ k. k) (λ _ k. k) (λ v k. to_old (Unready-Undone v k))
          (prepare-Ends w fs i h))
        λ v gs k. Ends-map _ (λ _. Undone-Safe) Undone-Safe Undone-Safe (Unready-Ends v gs k)

  -- A failing replacement that left no commit marker is rolled back.
  replaced-Ends :
      (parents : List (Unit {0})) (w : Files V) (fs : List Fault)
      → Prepared ts w
      → Unmarked (mutate parents w fs)
      → Ends
          (λ _. New ts)
          (Safe ts)
          (Safe ts)
          fs
          (on_error (mutate parents w fs) (rollback parents))
  replaced-Ends parents w fs p u =
      Ends-on_error (Midway ts) (Safe ts) fs _ _
        (Ends-raised fs _ unmarked (mutate-Ends parents w fs p))
        λ v gs m.
          Ends-map _ (λ _ s k. to_old (is_old (Cleared-old s k).kept)) Undone-Safe Undone-Safe
            (rollback-Ends parents v gs m)
    where
      unmarked :
          (x : RestoreError) (v : Files V) (gs : List Fault)
          → mutate parents w fs ≡ raised x v gs
          → Interrupted ts v
          → Midway ts v
      unmarked x v gs e (at_midway m) = m
      unmarked x v gs e (at_commit n c) = absurd (ground (arith, u x v gs e))

  pub restore_roots-Ends :
      (parents : List (Unit {0})) (w : Files V) (fs : List Fault)
      → Intended ts w
      → Each Unstaged ts w.roots
      → Unmarked (continue (on_error (prepare w fs) remove_transaction_state) λ _. mutate parents)
      → Ends (Ended ts) (Safe ts) (Safe ts) fs (restore_roots parents w fs)
  unfolding restore_roots
  restore_roots-Ends parents w fs i h u =
      Ends-followed (λ _. Prepared ts) fs _ _ (staged-Ends w fs i h)
        λ _ v gs e p.
          Ends-continue (λ _. New ts) _ _
            (replaced-Ends parents v gs p (Unmarked-later _ (λ _. mutate parents) v gs e u))
            λ _ x hs n.
              Ends-continue (λ _. Finished ts NewValue NewMarkers) _ _
                (Ends-map _ (λ _. Cleared-new) (λ _ k. to_new k) (λ _ k. to_new k)
                  (cleanup_committed-Ends NewMarkers-Settling x hs n))
                λ _ y is k. at_return restored y is k
