-- ===== src/Restore/Recovery.antt =====
-- Rollback and recovery from every state that a restore may leave.
use octa.Common.{Bool, true, false, ◌&&◌, Option, some, List, ◌≡◌, refl, arith}
use octa.Restore.Exec.{Fault}
use octa.Restore.Exec.Ends.{
  Ends, Ends-map, Ends-act, Ends-continue, if-Ends, then-act, then-observe, at_return,
}
use octa.Restore.Exec.Loops.{Each, Each-map, Each-each_rev}
use octa.Restore.State.{
  Root, Files, Marker, rolled_back, has_marker, set_marker, marker_exists, write_marker,
}
use octa.Restore.Transaction.{revert, rollback, recover_one, recover}
use octa.Restore.Roots.{Target, before, bundle, Untouched, Phase, is_untouched, Untouched-LiveOld}
use octa.Restore.Revert.{revert-Turns}
use octa.Restore.Kept.{
  repeat-Ends, on_roots-Ends, Kept, Settling, Cleared, remove_transaction_state-Ends,
  remove_unprepared-Ends, cleanup_committed-Ends,
}

abbrev pub OldValue : {V : Type 0} → Target V → Option V → Type 0
OldValue t l = l ≡ before t

abbrev pub NewValue : {V : Type 0} → Target V → Option V → Type 0
NewValue t l = l ≡ some (bundle t)

-- The markers of a transaction whose outputs are the old ones: not committed, and if prepared then
-- rolled back.
pub record OldMarkers (p c r : Bool) : Type 0 where
  pub not_committed : c ≡ false
  pub prepared_rolled : p ≡ true → r ≡ true

pub record NewMarkers (p c r : Bool) : Type 0 where
  pub not_rolled : r ≡ false
  pub prepared_committed : p ≡ true → c ≡ true

pub OldMarkers-Settling : Settling OldMarkers
OldMarkers-Settling = record {
  drop_prepared = λ p c r n. record { not_committed = n.not_committed; prepared_rolled = λ e. cc };
  drop_committed = λ c r n. record { not_committed = refl; prepared_rolled = λ e. cc };
  drop_rolled_back = λ r n. record { not_committed = refl; prepared_rolled = λ e. cc };
}

pub NewMarkers-Settling : Settling NewMarkers
NewMarkers-Settling = record {
  drop_prepared = λ p c r n. record { not_rolled = n.not_rolled; prepared_committed = λ e. cc };
  drop_committed = λ c r n. record { not_rolled = n.not_rolled; prepared_committed = λ e. cc };
  drop_rolled_back = λ r n. record { not_rolled = refl; prepared_committed = λ e. cc };
}

module _ {V : Type 0} (ts : List (Target V)) where
  abbrev pub Old : Files V → Type 0
  Old = Kept ts OldValue OldMarkers

  abbrev pub New : Files V → Type 0
  New = Kept ts NewValue NewMarkers

  -- Between the two markers, each root is somewhere on its way.
  pub record Midway (w : Files V) : Type 0 where
    pub phases : Each Phase ts w.roots
    pub has_journal : w.journal ≡ true
    pub is_prepared : w.prepared ≡ true
    pub not_committed : w.committed ≡ false
    pub not_rolled : w.rolled_back ≡ false

  -- What recovery takes back to the old outputs.
  pub data Undone (w : Files V) : Type 0 where
    is_old : Old w → Undone w
    is_midway : Midway w → Undone w

  -- Every live root is settled, and no journal is left.
  pub record Finished (P : Target V → Option V → Type 0)
      (N : (prepared committed rolled_back : Bool) → Type 0) (w : Files V) : Type 0 where
    pub kept : Kept ts P N w
    pub no_journal : w.journal ≡ false

module _ {V : Type 0} {E C : Files V → Type 0} where
  pub write_marker-Ends :
      (L : Files V → Type 0) (m : Marker) (w : Files V) (fs : List Fault)
      → has_marker m w ≡ false
      → E w
      → C w
      → E (set_marker m true w)
      → C (set_marker m true w)
      → L (set_marker m true w)
      → Ends (λ _. L) E C fs (write_marker m w fs)
  unfolding write_marker
  write_marker-Ends L m w fs absent e c e' c' l =
      if-Ends (has_marker m w) _ _ w fs (λ h. absurd cc)
        λ _. then-act _ _ _ fs _ e c λ gs. then-act _ _ _ gs _ e' c' λ hs. Ends-act _ _ _ hs e' c' l

module _ {V : Type 0} {ts : List (Target V)} where
  pub rollback-Ends :
      (parents : List (Unit {0})) (w : Files V) (fs : List Fault)
      → Midway ts w
      → Ends (λ _. Cleared ts OldValue) (Undone ts) (Undone ts) fs (rollback parents w fs)
  unfolding rollback
  rollback-Ends parents w fs m =
      Ends-continue (λ _. Reverted) _ _
        (on_roots-Ends Untouched Phase ts _ w fs
          (λ rs h. (midway rs (Each-map _ _ ts rs is_untouched h), h))
          (λ rs h. is_midway (midway rs h)) (λ rs h. is_midway (midway rs h))
          (Each-each_rev _ _ _ revert (λ _ _ h. h) is_untouched revert-Turns ts w.roots fs
            m.phases))
        λ _ v gs j.
          Ends-continue (λ _. Reverted) _ _
            (repeat-Ends Reverted parents v gs (λ s k. is_midway k.0) (λ s k. is_midway k.0) j)
            λ _ u hs k.
              Ends-continue (λ _. Old ts) _ _
                (write_marker-Ends (Old ts) rolled_back u hs k.0.not_rolled (is_midway k.0)
                  (is_midway k.0) (is_old (old u k)) (is_old (old u k)) (old u k))
                λ _ x is o.
                  Ends-map _ (λ _ _ h. h) (λ _ h. is_old h) (λ _ h. is_old h)
                    (remove_transaction_state-Ends OldMarkers-Settling x is o)
    where
      Reverted : Files V → Type 0
      Reverted v = Midway ts v × Each Untouched ts v.roots

      midway : (rs : List (Root V)) → Each Phase ts rs → Midway ts (record w { roots = rs })
      midway rs h = record {
        phases = h;
        has_journal = m.has_journal;
        is_prepared = m.is_prepared;
        not_committed = m.not_committed;
        not_rolled = m.not_rolled;
      }

      old : (v : Files V) → Reverted v → Old ts (record v { rolled_back = true })
      old v (k, h) = record {
        lives = Each-map _ _ ts v.roots Untouched-LiveOld h;
        markers = record { not_committed = k.not_committed; prepared_rolled = λ _. refl };
      }

  pub Cleared-old : (w : Files V) → Cleared ts OldValue w → Finished ts OldValue OldMarkers w
  Cleared-old w c = record {
    kept = record {
      lives = c.lives;
      markers = record {
        not_committed = c.no_committed;
        prepared_rolled = λ e. absurd (ground (arith, c.no_prepared));
      };
    };
    no_journal = c.no_journal;
  }

  pub Cleared-new : (w : Files V) → Cleared ts NewValue w → Finished ts NewValue NewMarkers w
  Cleared-new w c = record {
    kept = record {
      lives = c.lives;
      markers = record {
        not_rolled = c.no_rolled_back;
        prepared_committed = λ e. absurd (ground (arith, c.no_prepared));
      };
    };
    no_journal = c.no_journal;
  }

  Old-recover_one :
      (parents : List (Unit {0})) (w : Files V) (fs : List Fault)
      → Old ts w
      → Ends
          (λ _. Finished ts OldValue OldMarkers)
          (Undone ts)
          (Undone ts)
          fs
          (recover_one parents w fs)
  unfolding recover_one marker_exists
  Old-recover_one parents w fs o =
      let k = is_old o in
      then-observe _ _ fs _ k k λ gs. then-observe _ _ gs _ k k λ hs.
        then-observe _ _ hs _ k k λ is.
          if-Ends (w.committed && w.rolled_back) _ _ w is
            (λ e. absurd (ground (arith, o.markers.not_committed)))
            λ _.
              if-Ends w.committed _ _ w is (λ e. absurd (ground (arith, o.markers.not_committed)))
                λ _.
                  if-Ends w.rolled_back _ _ w is
                    (λ _.
                      Ends-map _ (λ _. Cleared-old) (λ _ h. is_old h) (λ _ h. is_old h)
                        (remove_transaction_state-Ends OldMarkers-Settling w is o))
                    λ unrolled.
                      if-Ends w.prepared _ _ w is
                        (λ e. absurd (ground (arith, o.markers.prepared_rolled e)))
                        λ _.
                          Ends-map _ (λ _ _ h. record { kept = h.0; no_journal = h.1 })
                            (λ _ h. is_old h) (λ _ h. is_old h) (remove_unprepared-Ends w is o)

  Midway-recover_one :
      (parents : List (Unit {0})) (w : Files V) (fs : List Fault)
      → Midway ts w
      → Ends
          (λ _. Finished ts OldValue OldMarkers)
          (Undone ts)
          (Undone ts)
          fs
          (recover_one parents w fs)
  unfolding recover_one marker_exists
  Midway-recover_one parents w fs m =
      let k = is_midway m in
      then-observe _ _ fs _ k k λ gs. then-observe _ _ gs _ k k λ hs.
        then-observe _ _ hs _ k k λ is.
          if-Ends (w.committed && w.rolled_back) _ _ w is
            (λ e. absurd (ground (arith, m.not_committed)))
            λ _.
              if-Ends w.committed _ _ w is (λ e. absurd (ground (arith, m.not_committed)))
                λ _.
                  if-Ends w.rolled_back _ _ w is (λ e. absurd (ground (arith, m.not_rolled)))
                    λ _.
                      if-Ends w.prepared _ _ w is
                        (λ _.
                          Ends-map _ (λ _. Cleared-old) (λ _ h. h) (λ _ h. h)
                            (rollback-Ends parents w is m))
                        λ e. absurd (ground (arith, m.is_prepared))

  New-recover_one :
      (parents : List (Unit {0})) (w : Files V) (fs : List Fault)
      → New ts w
      → Ends (λ _. Finished ts NewValue NewMarkers) (New ts) (New ts) fs (recover_one parents w fs)
  unfolding recover_one marker_exists
  New-recover_one parents w fs n = then-observe _ _ fs _ n n λ gs. then-observe _ _ gs _ n n λ hs.
      then-observe _ _ hs _ n n λ is.
        if-Ends (w.committed && w.rolled_back) _ _ w is
          (λ e. absurd (ground (arith, n.markers.not_rolled)))
          λ _.
            if-Ends w.committed _ _ w is
              (λ _.
                Ends-map _ (λ _. Cleared-new) (λ _ h. h) (λ _ h. h)
                  (cleanup_committed-Ends NewMarkers-Settling w is n))
              λ uncommitted.
                if-Ends w.rolled_back _ _ w is (λ e. absurd (ground (arith, n.markers.not_rolled)))
                  λ _.
                    if-Ends w.prepared _ _ w is
                      (λ e. absurd (ground (arith, n.markers.prepared_committed e)))
                      λ _.
                        Ends-map _ (λ _ _ h. record { kept = h.0; no_journal = h.1 }) (λ _ h. h)
                          (λ _ h. h) (remove_unprepared-Ends w is n)

  pub Undone-recover :
      (parents : List (Unit {0})) (w : Files V) (fs : List Fault)
      → Undone ts w
      → Ends
          (λ _. Finished ts OldValue OldMarkers)
          (Undone ts)
          (Undone ts)
          fs
          (recover parents w fs)
  unfolding recover
  Undone-recover parents w fs (is_old o) = then-observe _ _ fs _ (is_old o) (is_old o) λ gs.
      if-Ends w.journal _ _ w gs (λ _. Old-recover_one parents w gs o)
        λ e. at_return tt w gs (record { kept = o; no_journal = e })
  Undone-recover parents w fs (is_midway m) =
      then-observe _ _ fs _ (is_midway m) (is_midway m) λ gs.
        if-Ends w.journal _ _ w gs (λ _. Midway-recover_one parents w gs m)
          λ e. absurd (ground (arith, m.has_journal))

  pub New-recover :
      (parents : List (Unit {0})) (w : Files V) (fs : List Fault)
      → New ts w
      → Ends (λ _. Finished ts NewValue NewMarkers) (New ts) (New ts) fs (recover parents w fs)
  unfolding recover
  New-recover parents w fs n = then-observe _ _ fs _ n n λ gs.
      if-Ends w.journal _ _ w gs (λ _. New-recover_one parents w gs n)
        λ e. at_return tt w gs (record { kept = n; no_journal = e })
