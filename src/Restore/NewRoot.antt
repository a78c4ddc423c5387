-- ===== src/Restore/NewRoot.antt =====
-- A restore of one root that was absent: no markers, one atomic rename.
use octa.Common.{true, List, [], ◌∷◌, refl, arith}
use octa.Restore.Exec.{Fault, each}
use octa.Restore.Exec.Ends.{
  Ends, Ends-map, Ends-act, Ends-continue, Ends-on_error, Ends-ignoring, then-act, at_return,
}
use octa.Restore.Exec.Loops.{Each, Turns, Each-map, Each-each, each_single}
use octa.Restore.State.{
  Root, Files, live, staged, rename, sync_rename_parents, on_roots,
  remove_unprepared_transaction_state,
}
use octa.Restore.Transaction.{
  RestoreOutcome, already_materialized, restored, extract, prepare_new, install_new,
  restore_new_root,
}
use octa.Restore.Roots.{
  Target, absent, Unstaged, Untouched, untouched, LiveOld, LiveNew, Unstaged-LiveOld,
  Untouched-LiveOld, extract-Turns,
}
use octa.Restore.Kept.{on_roots-Ends, remove_unprepared-Ends}
use octa.Restore.Recovery.{NewValue, NewMarkers, Old, New, is_old, Finished}
use octa.Restore.Atomic.{Intended, Safe, to_old, to_new, Intended-Old, intended}

module _ {V : Type 0} (ts : List (Target V)) where
  -- What a restore that replaces roots has done when it returns.
  abbrev pub Ended : RestoreOutcome → Files V → Type 0
  Ended already_materialized w = ⊥
  Ended restored w = Finished ts NewValue NewMarkers w

module _ {V : Type 0} where
  sync-Turns : Turns LiveNew LiveNew LiveNew (sync_rename_parents {V = V})
  unfolding sync_rename_parents
  sync-Turns t r fs h = then-act _ _ _ fs _ h h λ gs. Ends-act _ _ _ gs h h h

module _ {V : Type 0} {ts : List (Target V)} where
  Old-of_staged : (w : Files V) → Intended ts w → Each Untouched ts w.roots → Old ts w
  Old-of_staged w i h = Intended-Old w i (Each-map _ _ ts w.roots Untouched-LiveOld h)

  pub prepare_new-Ends :
      (w : Files V) (fs : List Fault)
      → Intended ts w
      → Each Unstaged ts w.roots
      → Ends
          (λ _ v. Intended ts v × Each Untouched ts v.roots)
          (Old ts)
          (Old ts)
          fs
          (prepare_new w fs)
  unfolding prepare_new
  prepare_new-Ends w fs i h =
      let old = Each-map _ _ ts w.roots Unstaged-LiveOld h in
      let o = Intended-Old w i old in
      let v = record w { transaction = true } in
      let i1 = intended w w.roots true i in
      let o1 = Intended-Old v i1 old in
      then-act _ _ _ fs _ o o λ gs. then-act _ _ _ gs _ o1 o1 λ hs.
        Ends-continue (λ _ u. Intended ts u × Each Untouched ts u.roots) _ _
          (on_roots-Ends Untouched LiveOld ts _ v hs (λ rs k. (intended v rs _ i1, k))
            (λ rs k. Intended-Old _ (intended v rs _ i1) k)
            (λ rs k. Intended-Old _ (intended v rs _ i1) k)
            (Each-each _ _ _ extract Unstaged-LiveOld Untouched-LiveOld extract-Turns ts w.roots hs
              h))
          λ _ u is (j, k).
            let s = Old-of_staged u j k in
            then-act _ _ _ is _ s s λ js. then-act _ _ _ js _ s s λ ks. Ends-act _ _ _ ks s s (j, k)

  pub sync-New-Ends :
      (w : Files V) (fs : List Fault)
      → New ts w
      → Ends (λ _. New ts) (New ts) (New ts) fs (on_roots (each sync_rename_parents) w fs)
  sync-New-Ends w fs n = on_roots-Ends LiveNew LiveNew ts _ w fs new new new (
      Each-each _ _ _ sync_rename_parents (λ _ _ h. h) (λ _ _ h. h) sync-Turns ts w.roots fs
        n.lives)
    where
      new : (rs : List (Root V)) → Each LiveNew ts rs → New ts (record w { roots = rs })
      new rs h = record { lives = h; markers = n.markers }

module _ {V : Type 0} (n : V) where
  abbrev pub single : List (Target V)
  single = absent n ∷ []

  install_roots-Ends :
      (rs : List (Root V)) (fs : List Fault)
      → Each Untouched single rs
      → Ends
          (λ _. Each LiveNew single)
          (Each LiveOld single)
          (Each LiveOld single)
          fs
          (each (rename staged live) rs fs)
  install_roots-Ends [] fs h = elim h [ ]
  install_roots-Ends (r ∷ q ∷ rs) fs h = elim h.1 [ ]
  install_roots-Ends (r ∷ []) fs h = each_single (rename staged live) r fs (go r h.0)
    where
      go :
          (r : Root V)
          → Untouched (absent n) r
          → Ends
              (λ _ q. Each LiveNew single (q ∷ []))
              (λ q. Each LiveOld single (q ∷ []))
              (λ q. Each LiveOld single (q ∷ []))
              fs
              (rename staged live r fs)
      go _ (untouched _) = unfold rename in Ends-act _ _ _ fs (refl, tt) (refl, tt) (refl, tt)

  pub install_new-Ends :
      (w : Files V) (fs : List Fault)
      → Intended single w
      → Each Untouched single w.roots
      → Ends (λ _. New single) (Old single) (Old single) fs (install_new w fs)
  unfolding install_new
  install_new-Ends w fs i h =
      on_roots-Ends LiveNew LiveOld single _ w fs
        (λ rs k. record {
          lives = k;
          markers = record {
            not_rolled = i.not_rolled;
            prepared_committed = λ e. absurd (ground (arith, i.not_prepared));
          };
        })
        (λ rs k. Intended-Old _ (intended w rs _ i) k)
        (λ rs k. Intended-Old _ (intended w rs _ i) k) (install_roots-Ends w.roots fs h)

  pub restore_new_root-Ends :
      (w : Files V) (fs : List Fault)
      → Intended single w
      → Each Unstaged single w.roots
      → Ends (Ended single) (Safe single) (Safe single) fs (restore_new_root w fs)
  unfolding restore_new_root
  restore_new_root-Ends w fs i h =
      Ends-continue (λ _ v. Intended single v × Each Untouched single v.roots) _ _
        (Ends-on_error (Old single) (Safe single) fs _ _
          (Ends-map _ (λ _ _ k. k) (λ _ k. k) (λ _ k. to_old (is_old k))
            (prepare_new-Ends w fs i h))
          removed_old)
        λ _ v gs (j, k).
          Ends-continue (λ _. New single) _ _
            (Ends-on_error (Old single) (Safe single) gs _ _
              (Ends-map _ (λ _ _ k. k) (λ _ k. k) (λ _ k. to_old (is_old k))
                (install_new-Ends v gs j k))
              removed_old)
            λ _ u hs m.
              Ends-continue (λ _. New single) _ _
                (Ends-on_error (New single) (Safe single) hs _ _
                  (Ends-map _ (λ _ _ k. k) (λ _ k. k) (λ _ k. to_new k) (sync-New-Ends u hs m))
                  λ s is k.
                    Ends-map _ (λ _ _ l. to_new l) (λ _ l. to_new l) (λ _ l. to_new l)
                      (Ends-ignoring is _ (removed_new s is k)))
                λ _ x is o.
                  Ends-continue (λ _. Finished single NewValue NewMarkers) _ _
                    (Ends-map _ (λ _ v k. record { kept = k.0; no_journal = k.1 }) (λ _ k. to_new k)
                      (λ _ k. to_new k) (remove_unprepared-Ends x is o))
                    λ _ y js l. at_return restored y js l
    where
      removed_old :
          (v : Files V) (gs : List Fault)
          → Old single v
          → Ends
              (λ _. Safe single)
              (Safe single)
              (Safe single)
              gs
              (remove_unprepared_transaction_state v gs)
      removed_old v gs o =
          Ends-map _ (λ _ _ k. to_old (is_old k.0)) (λ _ k. to_old (is_old k))
            (λ _ k. to_old (is_old k)) (remove_unprepared-Ends v gs o)

      removed_new :
          (v : Files V) (gs : List Fault)
          → New single v
          → Ends
              (λ _. New single)
              (New single)
              (New single)
              gs
              (remove_unprepared_transaction_state v gs)
      removed_new v gs o =
          Ends-map _ (λ _ _ k. k.0) (λ _ k. k) (λ _ k. k) (remove_unprepared-Ends v gs o)
