-- ===== src/Restore/AllOrNothing.antt =====
-- A restore is all or nothing: the theorems on whole runs.
use octa.Common.{
  Bool, true, false, List, [], ◌≡◌, ◌⊎◌, inl, inr, refl, sym, ap, ◌∙◌, subst, arith, if◌then◌else◌,
}
use octa.Restore.Exec.{Fault, returned}
use octa.Restore.Exec.Ends.{
  Faulty, Ends, returns, Ends-map, Ends-act, Ends-continue, Ends-returns, raised-Faulty,
}
use octa.Restore.Exec.Loops.{Each}
use octa.Restore.State.{Files}
use octa.Restore.Transaction.{RestoreOutcome, already_materialized, restored, restore, recover}
use octa.Restore.Roots.{Target, Unstaged}
use octa.Restore.Recovery.{New, Undone, is_old, is_midway, Undone-recover, New-recover}
use octa.Restore.Atomic.{Intended, Prepared, Safe, to_old, to_new, mutate-Ends}
use octa.Restore.NewRoot.{Ended}
use octa.Restore.Whole.{
  state_after, recoveries, attempt, Unmarked, Fresh, lives, bundles, write_journal-Ends,
  staged-Ends,
}
use octa.Restore.Endings.{
  restore-Ends, recoveries-Undone, recoveries-New, lives-old, lives-new, state-Safe,
}

module _ {V : Type 0} where
  -- The last recovery meets no fault: it returns, the journal is gone, and the live roots are all
  -- those of `w`, or all bundled ones.
  abbrev pub Recovers : List (Unit {0}) → Files V → Files V → Type 0
  Recovers parents w v =
      (u : Files V) × (gs : List Fault) × (recover parents v [] ≡ returned tt u gs)
      × (u.journal ≡ false)
      × ((lives u.roots ≡ lives w.roots) ⊎ (lives u.roots ≡ bundles w.roots))

  Safe-Recovers :
      (ts : List (Target V)) (parents : List (Unit {0})) (attempts : List (List Fault))
      (w v : Files V)
      → Fresh ts w
      → Safe ts v
      → Recovers parents w (recoveries parents attempts v)
  Safe-Recovers ts parents attempts w v f (to_old u) =
      let (_, s, gs, e, k) =
        Ends-returns [] _ (λ x. x)
          (Undone-recover parents _ [] (recoveries-Undone ts parents attempts v u)) in
      (s, gs, e, k.no_journal, inl (lives-old ts w.roots s.roots f.roots k.kept.lives))
  Safe-Recovers ts parents attempts w v f (to_new n) =
      let (_, s, gs, e, k) =
        Ends-returns [] _ (λ x. x)
          (New-recover parents _ [] (recoveries-New ts parents attempts v n)) in
      (s, gs, e, k.no_journal, inr (lives-new ts w.roots s.roots f.roots k.kept.lives))

  -- Whatever actions of a restore fail and wherever its process stops, and whatever happens to the
  -- recoveries after it, a recovery without faults returns, and leaves the live roots all as they were
  -- or all as bundled, provided that an error of the replacement leaves no commit marker behind.
  pub all_or_nothing :
      (ts : List (Target V)) (parents : List (Unit {0})) (attempts : List (List Fault))
      (w : Files V) (fs : List Fault)
      → Fresh ts w
      → Unmarked (attempt parents w fs)
      → Recovers parents w (recoveries parents attempts (state_after (restore false parents w fs)))
  all_or_nothing ts parents attempts w fs f u =
      Safe-Recovers ts parents attempts w _ f
        (state-Safe ts fs _ (restore-Ends ts parents w fs f u))

  attempt-Ends :
      (ts : List (Target V)) (parents : List (Unit {0})) (w : Files V) (fs : List Fault)
      → Fresh ts w
      → Ends (λ _. New ts) (λ _. Unit) (λ _. Unit) fs (attempt parents w fs)
  attempt-Ends ts parents w fs f =
      Ends-continue (λ _. Fresh ts) _ _ (Ends-act _ _ _ fs tt tt f)
        λ _ v gs f1.
          Ends-continue (λ _ x. Intended ts x × Each Unstaged ts x.roots) _ _
            (Ends-map _ (λ _ _ k. k) (λ _ _. tt) (λ _ _. tt) (write_journal-Ends v gs f1))
            λ _ x hs (i, h).
              Ends-continue (λ _. Prepared ts) _ _
                (Ends-map _ (λ _ _ k. k) (λ _ _. tt) (λ _ _. tt) (staged-Ends x hs i h))
                λ _ y is p.
                  Ends-map _ (λ _ _ k. k) (λ _ _. tt) (λ _ _. tt) (mutate-Ends parents y is p)

  attempt-quiet :
      (ts : List (Target V)) (parents : List (Unit {0})) (w : Files V) (fs : List Fault)
      → Fresh ts w
      → (Faulty fs → ⊥)
      → Unmarked (attempt parents w fs)
  attempt-quiet ts parents w fs f quiet x v gs e =
      absurd (quiet (raised-Faulty fs _ x v gs e (attempt-Ends ts parents w fs f)))

  -- Where the outputs match the bundle, a restore without faults touches nothing.
  matched-Ends :
      (ts : List (Target V)) (parents : List (Unit {0})) (w : Files V) (fs : List Fault)
      → Fresh ts w
      → Ends
          (λ o v. (o ≡ already_materialized) × (v ≡ w))
          (λ _. Unit)
          (λ _. Unit)
          fs
          (restore true parents w fs)
  unfolding restore
  matched-Ends ts parents w fs f =
      Ends-continue (λ _ v. v ≡ w) _ _ (Ends-act _ _ _ fs tt tt refl)
        λ _ v gs e.
          Ends-continue (λ _ x. x ≡ w) _ _ (Ends-act _ _ _ gs tt tt e)
            λ _ x hs k. returns hs already_materialized x hs (λ y. y) (refl, k)

  -- Without faults a restore returns, every live root is the bundled one, and the journal is gone,
  -- provided that outputs which are found to match the bundle are the bundled ones beforehand: then it
  -- returns `already_materialized`, and `restored` otherwise.
  pub restore_completes :
      (ts : List (Target V)) (parents : List (Unit {0})) (matches : Bool) (w : Files V)
      (fs : List Fault)
      → Fresh ts w
      → (matches ≡ true → lives w.roots ≡ bundles w.roots)
      → (Faulty fs → ⊥)
      → (u : Files V) × (gs : List Fault) × (restore matches parents w fs
          ≡ returned (if matches then already_materialized else restored) u gs)
        × (lives u.roots ≡ bundles w.roots)
        × (u.journal ≡ false)
  restore_completes ts parents true w fs f found quiet =
      let (r, u, gs, e, k) = Ends-returns fs _ quiet (matched-Ends ts parents w fs f) in
      (
        u,
        gs,
        e ∙ ap (λ o. returned o u gs) k.0,
        ap (λ (v : Files V). lives v.roots) k.1 ∙ found refl,
        ap (λ (v : Files V). v.journal) k.1 ∙ f.no_journal,
      )
  restore_completes ts parents false w fs f found quiet = go (
      Ends-returns fs _ quiet
        (restore-Ends ts parents w fs f (attempt-quiet ts parents w fs f quiet)))
    where
      go :
          (r : RestoreOutcome) × (u : Files V) × (gs : List Fault) × (restore false parents w fs
              ≡ returned r u gs)
            × Ended ts r u
          → (u : Files V) × (gs : List Fault) × (restore false parents w fs
              ≡ returned restored u gs)
            × (lives u.roots ≡ bundles w.roots)
            × (u.journal ≡ false)
      go (already_materialized, u, gs, e, k) = elim k [ ]
      go (restored, u, gs, e, k) =
          (u, gs, e, lives-new ts w.roots u.roots f.roots k.kept.lives, k.no_journal)

  -- Where a restore has stopped or failed behind the prepared marker, the commit marker decides, provided
  -- that an error of the replacement leaves no commit marker behind: with the marker a recovery without
  -- faults leaves the bundled roots, without it those from before.
  pub commit_marker_decides :
      (ts : List (Target V)) (parents : List (Unit {0})) (w v : Files V) (fs : List Fault)
      → Fresh ts w
      → Unmarked (attempt parents w fs)
      → v ≡ state_after (restore false parents w fs)
      → v.prepared ≡ true
      → (u : Files V) × (gs : List Fault) × (recover parents v [] ≡ returned tt u gs)
        × (lives u.roots ≡ (if v.committed then bundles w.roots else lives w.roots))
  commit_marker_decides ts parents w v fs f u e p =
      decided (subst (Safe ts) (sym e) (state-Safe ts fs _ (restore-Ends ts parents w fs f u)))
    where
      Decided : Type 0
      Decided =
          (u : Files V) × (gs : List Fault) × (recover parents v [] ≡ returned tt u gs)
          × (lives u.roots ≡ (if v.committed then bundles w.roots else lives w.roots))

      undone : Undone ts v → v.committed ≡ false → Decided
      undone h c =
          let (_, s, gs, e, k) = Ends-returns [] _ (λ x. x) (Undone-recover parents v [] h) in
          let same = lives-old ts w.roots s.roots f.roots k.kept.lives in
          (s, gs, e, ground (arith, c))

      decided : Safe ts v → Decided
      decided (to_old (is_old o)) = undone (is_old o) o.markers.not_committed
      decided (to_old (is_midway m)) = undone (is_midway m) m.not_committed
      decided (to_new n) =
          let (_, s, gs, e, k) = Ends-returns [] _ (λ x. x) (New-recover parents v [] n) in
          let new = lives-new ts w.roots s.roots f.roots k.kept.lives in
          let marked = n.markers.prepared_committed p in (s, gs, e, ground arith)
