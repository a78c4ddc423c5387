-- ===== src/Restore/Endings.antt =====
-- What a restore and the recoveries after it can leave, and what the live roots are then.
use octa.Common.{true, false, some, List, [], ◌∷◌, ◌≡◌, refl, sym, subst, ap, ◌∙◌, if◌then◌else◌}
use octa.Restore.Exec.{Fault, Outcome, continue, on_error}
use octa.Restore.Exec.Ends.{Ends, returns, raises, stops_at, Ends-act, Ends-followed, if-Ends}
use octa.Restore.Exec.Loops.{Each}
use octa.Restore.State.{Root, Files, remove_transaction_state}
use octa.Restore.Transaction.{
  RestoreOutcome, already_materialized, restored, prepare, mutate, restore_roots, restore_new_root,
  is_single_new, restore,
}
use octa.Restore.Roots.{
  Target, absent, present, bundle, Unstaged, unstaged, Unstaged-LiveOld, LiveOld, LiveNew,
}
use octa.Restore.Recovery.{
  OldValue, NewValue, OldMarkers, NewMarkers, New, Undone, is_old, Finished, Undone-recover,
  New-recover,
}
use octa.Restore.Atomic.{Intended, Safe, to_old, to_new}
use octa.Restore.NewRoot.{Ended, restore_new_root-Ends}
use octa.Restore.Whole.{
  state_after, recoveries, attempt, Unmarked, Fresh, lives, bundles, Unmarked-later, Fresh-Old,
  write_journal-Ends, restore_roots-Ends,
}

module _ {V : Type 0} where
  single_target :
      (ts : List (Target V)) (rs : List (Root V)) (parents : List (Unit {0}))
      → Each Unstaged ts rs
      → is_single_new rs parents ≡ true
      → (n : V) × (ts ≡ absent n ∷ [])
  single_target [] [] parents h e = absurd cc
  single_target [] (r ∷ rs) parents h e = elim h [ ]
  single_target (t ∷ ts) [] parents h e = elim h [ ]
  single_target (t ∷ ts) (r ∷ q ∷ rs) parents h e = absurd cc
  single_target (t ∷ ts) (r ∷ []) (u ∷ parents) h e = absurd cc
  single_target (t ∷ u ∷ ts) (r ∷ []) [] h e = elim h.1 [ ]
  single_target (t ∷ []) (r ∷ []) [] h e = go t r h.0 e
    where
      go :
          (t : Target V) (r : Root V)
          → Unstaged t r
          → is_single_new (r ∷ []) [] ≡ true
          → (n : V) × ((t ∷ []) ≡ absent n ∷ [])
      go _ _ (unstaged (absent n)) e = (n, refl)
      go _ _ (unstaged (present o n)) e = absurd cc

  chosen-Ends :
      (ts : List (Target V)) (parents : List (Unit {0})) (w : Files V) (fs : List Fault)
      → Intended ts w
      → Each Unstaged ts w.roots
      → Unmarked (continue (on_error (prepare w fs) remove_transaction_state) λ _. mutate parents)
      → Ends
          (Ended ts)
          (Safe ts)
          (Safe ts)
          fs
          ((if is_single_new w.roots parents then restore_new_root else restore_roots parents) w fs)
  chosen-Ends ts parents w fs i h u =
      if-Ends (is_single_new w.roots parents) _ _ w fs
        (λ e. let (n, only) = single_target ts w.roots parents h e in new_root n ts only i h)
        λ e. restore_roots-Ends parents w fs i h u
    where
      new_root :
          (n : V) (us : List (Target V))
          → us ≡ absent n ∷ []
          → Intended us w
          → Each Unstaged us w.roots
          → Ends (Ended us) (Safe us) (Safe us) fs (restore_new_root w fs)
      new_root n us e i h =
          subst (λ us. Ends (Ended us) (Safe us) (Safe us) fs (restore_new_root w fs)) (sym e)
            (restore_new_root-Ends n w fs (subst (λ us. Intended us w) e i)
              (subst (λ us. Each Unstaged us w.roots) e h))

  pub restore-Ends :
      (ts : List (Target V)) (parents : List (Unit {0})) (w : Files V) (fs : List Fault)
      → Fresh ts w
      → Unmarked (attempt parents w fs)
      → Ends (Ended ts) (Safe ts) (Safe ts) fs (restore false parents w fs)
  unfolding restore
  restore-Ends ts parents w fs f u =
      let o = to_old (is_old (Fresh-Old w f)) in
      Ends-followed (λ _ v. Fresh ts v) fs _ _ (Ends-act _ _ _ fs o o f)
        λ _ v gs e f1.
          Ends-followed (λ _ x. Intended ts x × Each Unstaged ts x.roots) gs _ _
            (write_journal-Ends v gs f1)
            λ _ x hs e1 (i, h).
              chosen-Ends ts parents x hs i h
                (Unmarked-later _ _ x hs e1 (Unmarked-later _ _ v gs e u))

  -- Recoveries, faulty or not, keep a state safe, and which way it goes.
  pub recoveries-Undone :
      (ts : List (Target V)) (parents : List (Unit {0})) (attempts : List (List Fault))
      (w : Files V)
      → Undone ts w
      → Undone ts (recoveries parents attempts w)
  recoveries-Undone ts parents [] w u = u
  recoveries-Undone ts parents (fs ∷ attempts) w u =
      recoveries-Undone ts parents attempts _ (after _ (Undone-recover parents w fs u))
    where
      after :
          (o : Outcome (Files V) (Unit {0}))
          → Ends (λ _. Finished ts OldValue OldMarkers) (Undone ts) (Undone ts) fs o
          → Undone ts (state_after o)
      after _ (returns _ a s gs k r) = is_old r.kept
      after _ (raises _ x s gs j k e) = e
      after _ (stops_at _ s j c) = c

  pub recoveries-New :
      (ts : List (Target V)) (parents : List (Unit {0})) (attempts : List (List Fault))
      (w : Files V)
      → New ts w
      → New ts (recoveries parents attempts w)
  recoveries-New ts parents [] w u = u
  recoveries-New ts parents (fs ∷ attempts) w u =
      recoveries-New ts parents attempts _ (after _ (New-recover parents w fs u))
    where
      after :
          (o : Outcome (Files V) (Unit {0}))
          → Ends (λ _. Finished ts NewValue NewMarkers) (New ts) (New ts) fs o
          → New ts (state_after o)
      after _ (returns _ a s gs k r) = r.kept
      after _ (raises _ x s gs j k e) = e
      after _ (stops_at _ s j c) = c

  pub lives-old :
      (ts : List (Target V)) (rs qs : List (Root V))
      → Each Unstaged ts rs
      → Each LiveOld ts qs
      → lives qs ≡ lives rs
  lives-old [] [] [] h k = refl
  lives-old [] [] (q ∷ qs) h k = elim k [ ]
  lives-old [] (r ∷ rs) qs h k = elim h [ ]
  lives-old (t ∷ ts) [] qs h k = elim h [ ]
  lives-old (t ∷ ts) (r ∷ rs) [] h k = elim k [ ]
  lives-old (t ∷ ts) (r ∷ rs) (q ∷ qs) h k =
      let first = k.0 ∙ sym (Unstaged-LiveOld t r h.0) in
      let rest = lives-old ts rs qs h.1 k.1 in cc

  Unstaged-bundled : (t : Target V) (r : Root V) → Unstaged t r → r.bundled ≡ bundle t
  Unstaged-bundled t _ (unstaged _) = refl

  pub lives-new :
      (ts : List (Target V)) (rs qs : List (Root V))
      → Each Unstaged ts rs
      → Each LiveNew ts qs
      → lives qs ≡ bundles rs
  lives-new [] [] [] h k = refl
  lives-new [] [] (q ∷ qs) h k = elim k [ ]
  lives-new [] (r ∷ rs) qs h k = elim h [ ]
  lives-new (t ∷ ts) [] qs h k = elim h [ ]
  lives-new (t ∷ ts) (r ∷ rs) [] h k = elim k [ ]
  lives-new (t ∷ ts) (r ∷ rs) (q ∷ qs) h k =
      let first = k.0 ∙ ap some (sym (Unstaged-bundled t r h.0)) in
      let rest = lives-new ts rs qs h.1 k.1 in cc

  pub state-Safe :
      (ts : List (Target V)) (fs : List Fault) (o : Outcome (Files V) RestoreOutcome)
      → Ends (Ended ts) (Safe ts) (Safe ts) fs o
      → Safe ts (state_after o)
  state-Safe ts fs _ (returns _ already_materialized s gs k r) = elim r [ ]
  state-Safe ts fs _ (returns _ restored s gs k r) = to_new r.kept
  state-Safe ts fs _ (raises _ x s gs j k e) = e
  state-Safe ts fs _ (stops_at _ s j c) = c
