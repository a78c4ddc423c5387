-- ===== src/Restore/Atomic.antt =====
-- A restore that replaces roots: what each of its ends leaves.
use octa.Common.{Bool, true, false, List, ◌≡◌, refl, arith}
use octa.Restore.Exec.{Fault, ◌>>◌, step, each}
use octa.Restore.Exec.Ends.{Ends, Ends-map, Ends-continue, then-act}
use octa.Restore.Exec.Loops.{Each, Each-map, Each-each}
use octa.Restore.State.{
  Root, Files, prepared, committed, write_marker, on_roots, remove_transaction_state,
}
use octa.Restore.Transaction.{extract, make_backup_parent, prepare, replace, mutate}
use octa.Restore.Roots.{
  Target, Unstaged, Untouched, Installed, Phase, is_untouched, is_installed, LiveOld,
  Unstaged-LiveOld, Untouched-LiveOld, Installed-LiveNew, extract-Turns, make_backup_parent-Turns,
  replace-Turns,
}
use octa.Restore.Kept.{repeat-Ends, on_roots-Ends, remove_rest-Ends, remove_transaction_state-Ends}
use octa.Restore.Recovery.{
  OldMarkers-Settling, Old, New, Midway, Undone, is_old, is_midway, Cleared-old, write_marker-Ends,
}

module _ {V : Type 0} (ts : List (Target V)) where
  -- The journal is written and no marker is.
  pub record Intended (w : Files V) : Type 0 where
    pub has_journal : w.journal ≡ true
    pub not_prepared : w.prepared ≡ false
    pub not_committed : w.committed ≡ false
    pub not_rolled : w.rolled_back ≡ false

  -- The prepared state: every bundled value is staged.
  abbrev pub Prepared : Files V → Type 0
  Prepared w = Midway ts w × Each Untouched ts w.roots

  pub data Unready (w : Files V) : Type 0 where
    still_old : Old ts w → Unready w
    is_ready : Prepared w → Unready w

  -- What holds when the replacing loop fails: the commit marker may stand although its flush failed.
  pub data Interrupted (w : Files V) : Type 0 where
    at_midway : Midway ts w → Interrupted w
    at_commit : New ts w → w.committed ≡ true → Interrupted w

  pub data Safe (w : Files V) : Type 0 where
    to_old : Undone ts w → Safe w
    to_new : New ts w → Safe w

module _ {V : Type 0} {ts : List (Target V)} where
  pub Unready-Undone : (w : Files V) → Unready ts w → Undone ts w
  Unready-Undone w (still_old h) = is_old h
  Unready-Undone w (is_ready h) = is_midway h.0

  pub Intended-Old : (w : Files V) → Intended ts w → Each LiveOld ts w.roots → Old ts w
  Intended-Old w i h = record {
    lives = h;
    markers = record {
      not_committed = i.not_committed;
      prepared_rolled = λ e. absurd (ground (arith, i.not_prepared));
    };
  }

  old_of : (w : Files V) → Intended ts w × Each LiveOld ts w.roots → Unready ts w
  old_of w (i, h) = still_old (Intended-Old w i h)

  old_of_extracted : (w : Files V) → Intended ts w × Each Untouched ts w.roots → Unready ts w
  old_of_extracted w (i, h) = old_of w (i, Each-map _ _ ts w.roots Untouched-LiveOld h)

  pub intended :
      (w : Files V) (rs : List (Root V)) (t : Bool)
      → Intended ts w
      → Intended ts (record w { roots = rs; transaction = t })
  intended w rs t i = record {
    has_journal = i.has_journal;
    not_prepared = i.not_prepared;
    not_committed = i.not_committed;
    not_rolled = i.not_rolled;
  }

  finish_preparation :
      (w : Files V) (fs : List Fault)
      → Intended ts w × Each Untouched ts w.roots
      → Ends
          (λ _. Prepared ts)
          (Unready ts)
          (Unready ts)
          fs
          ((do step; on_roots (each make_backup_parent); step; step; write_marker prepared) w fs)
  finish_preparation w fs j =
      let k = old_of_extracted w j in
      then-act _ _ _ fs _ k k λ gs.
        Ends-continue (λ _ v. Intended ts v × Each Untouched ts v.roots) _ _
          (on_roots-Ends Untouched LiveOld ts _ w gs (λ rs h. (intended w rs _ j.0, h))
            (λ rs h. old_of _ (intended w rs _ j.0, h)) (λ rs h. old_of _ (intended w rs _ j.0, h))
            (Each-each _ _ _ make_backup_parent Untouched-LiveOld Untouched-LiveOld
              make_backup_parent-Turns ts w.roots gs j.1))
          λ _ v hs (i, h).
            let o = old_of_extracted v (i, h) in
            let ready : Prepared ts (record v { prepared = true }) = (
              record {
                phases = Each-map _ _ ts v.roots is_untouched h;
                has_journal = i.has_journal;
                is_prepared = refl;
                not_committed = i.not_committed;
                not_rolled = i.not_rolled;
              },
              h,
            ) in
            then-act _ _ _ hs _ o o λ is. then-act _ _ _ is _ o o λ js.
              write_marker-Ends (Prepared ts) prepared v js i.not_prepared o o (is_ready ready)
                (is_ready ready) ready

  pub prepare-Ends :
      (w : Files V) (fs : List Fault)
      → Intended ts w
      → Each Unstaged ts w.roots
      → Ends (λ _. Prepared ts) (Unready ts) (Unready ts) fs (prepare w fs)
  unfolding prepare
  prepare-Ends w fs i h =
      let old = Each-map _ _ ts w.roots Unstaged-LiveOld h in
      let o = old_of w (i, old) in
      let v = record w { transaction = true } in
      let i1 = intended w w.roots true i in
      let o1 = old_of v (i1, old) in
      then-act _ _ _ fs _ o o λ gs. then-act _ _ _ gs _ o1 o1 λ hs. then-act _ _ _ hs _ o1 o1 λ is.
        Ends-continue (λ _ u. Intended ts u × Each Untouched ts u.roots) _ _
          (on_roots-Ends Untouched LiveOld ts _ v is (λ rs k. (intended v rs _ i1, k))
            (λ rs k. old_of _ (intended v rs _ i1, k)) (λ rs k. old_of _ (intended v rs _ i1, k))
            (Each-each _ _ _ extract Unstaged-LiveOld Untouched-LiveOld extract-Turns ts w.roots is
              h))
          λ _ u js k. finish_preparation u js k

  -- Failed preparations are removed.
  pub Unready-Ends :
      (w : Files V) (fs : List Fault)
      → Unready ts w
      → Ends (λ _. Undone ts) (Undone ts) (Undone ts) fs (remove_transaction_state w fs)
  unfolding remove_transaction_state
  Unready-Ends w fs (still_old o) =
      Ends-map _ (λ _ v k. is_old (Cleared-old v k).kept) (λ _. is_old) (λ _. is_old)
        (remove_transaction_state-Ends OldMarkers-Settling w fs o)
  Unready-Ends w fs (is_ready (m, h)) = then-act _ _ _ fs _ (is_midway m) (is_midway m) λ gs.
      Ends-map _ (λ _ v k. is_old (Cleared-old v k).kept) (λ _. is_old) (λ _. is_old)
        (remove_rest-Ends OldMarkers-Settling _ gs
          (record {
            lives = Each-map _ _ ts w.roots Untouched-LiveOld h;
            markers = record { not_committed = m.not_committed; prepared_rolled = λ e. absurd cc };
          })
          refl)

  replaced-Ends :
      (w : Files V) (fs : List Fault)
      → Midway ts w × Each Installed ts w.roots
      → Ends (λ _. New ts) (Interrupted ts) (Safe ts) fs (write_marker committed w fs)
  replaced-Ends w fs (m, h) =
      let new : New ts (record w { committed = true }) = record {
        lives = Each-map _ _ ts w.roots Installed-LiveNew h;
        markers = record { not_rolled = m.not_rolled; prepared_committed = λ _. refl };
      } in
      write_marker-Ends (New ts) committed w fs m.not_committed (at_midway m) (to_old (is_midway m))
        (at_commit new refl) (to_new new) new

  pub mutate-Ends :
      (parents : List (Unit {0})) (w : Files V) (fs : List Fault)
      → Prepared ts w
      → Ends (λ _. New ts) (Interrupted ts) (Safe ts) fs (mutate parents w fs)
  unfolding mutate
  mutate-Ends parents w fs p =
      Ends-continue (λ _. Prepared ts) _ _
        (repeat-Ends (Prepared ts) parents w fs (λ _ k. at_midway k.0)
          (λ _ k. to_old (is_midway k.0)) p)
        λ _ v gs (m, h).
          Ends-continue (λ _ u. Midway ts u × Each Installed ts u.roots) _ _
            (on_roots-Ends Installed Phase ts _ v gs
              (λ rs k. (midway v m rs (Each-map _ _ ts rs is_installed k), k))
              (λ rs k. at_midway (midway v m rs k)) (λ rs k. to_old (is_midway (midway v m rs k)))
              (Each-each _ _ _ replace is_untouched is_installed replace-Turns ts v.roots gs h))
            λ _ u hs k. replaced-Ends u hs k
    where
      midway :
          (v : Files V)
          → Midway ts v
          → (rs : List (Root V)) → Each Phase ts rs
          → Midway ts (record v { roots = rs })
      midway v m rs h = record {
        phases = h;
        has_journal = m.has_journal;
        is_prepared = m.is_prepared;
        not_committed = m.not_committed;
        not_rolled = m.not_rolled;
      }
