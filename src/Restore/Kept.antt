-- ===== src/Restore/Kept.antt =====
-- Transaction states in which every live root is settled, and the removal of what is left of the
-- transaction, which keeps them.
use octa.Common.{Bool, false, Option, some, List, [], ◌∷◌, ◌≡◌, refl, sym, subst}
use octa.Restore.Exec.{Fault, Exec, ◌>>◌, step, act, io_error, repeat}
use octa.Restore.Exec.Ends.{
  Ends, Ends-map, Ends-act, Ends-continue, Ends-with_state, if-Ends, then-act, then-observe,
  at_return,
}
use octa.Restore.Exec.Loops.{Each, Each-each}
use octa.Restore.State.{
  Root, Files, discard, on_roots, remove_transaction, remove_transaction_state,
  remove_unprepared_transaction_state,
}
use octa.Restore.Transaction.{check_live, cleanup_committed}
use octa.Restore.Roots.{Target, bundle, LiveNew}
use octa.Restore.Revert.{discard-Turns, check_live-Turns}

pub repeat-Ends :
    {S : Type 0} {E C : S → Type 0} (K : S → Type 0) (n : List (Unit {0})) (s : S) (fs : List Fault)
    → ((s : S) → K s → E s)
    → ((s : S) → K s → C s)
    → K s
    → Ends (λ _. K) E C fs (repeat (do step; step) n s fs)
repeat-Ends K [] s fs e c k = at_return tt s fs k
repeat-Ends {E = E} {C = C} K (u ∷ n) s fs e c k =
    Ends-continue (λ _. K) _ _
      (then-act _ _ _ fs _ (e s k) (c s k) λ gs. Ends-act _ _ _ gs (e s k) (c s k) k)
      λ _ q hs j. repeat-Ends {E = E} {C = C} K n q hs e c j

module _ {V : Type 0} {T : Type 0} {R : Unit {0} → Files V → Type 0} {E C : Files V → Type 0} where
  pub on_roots-Ends :
      (Q J : T → Root V → Type 0) (ts : List T) (body : Exec (List (Root V)) (Unit {0}))
      (w : Files V) (fs : List Fault)
      → ((rs : List (Root V)) → Each Q ts rs → R tt (record w { roots = rs }))
      → ((rs : List (Root V)) → Each J ts rs → E (record w { roots = rs }))
      → ((rs : List (Root V)) → Each J ts rs → C (record w { roots = rs }))
      → Ends (λ _. Each Q ts) (Each J ts) (Each J ts) fs (body w.roots fs)
      → Ends R E C fs (on_roots body w fs)
  unfolding on_roots
  on_roots-Ends Q J ts body w fs r e c h =
      Ends-with_state (λ rs. record w { roots = rs }) _ (Ends-map _ (λ _. r) e c h)

-- Every live root meets `P`, and the markers meet `N`.
pub record Kept {V : Type 0} (ts : List (Target V)) (P : Target V → Option V → Type 0)
    (N : (prepared committed rolled_back : Bool) → Type 0) (w : Files V) : Type 0 where
  pub lives : Each (λ t r. P t r.live) ts w.roots
  pub markers : N w.prepared w.committed w.rolled_back

-- Removing the markers in the code's order keeps what they say.
pub record Settling (N : (prepared committed rolled_back : Bool) → Type 0) : Type 0 where
  pub drop_prepared : (p c r : Bool) → N p c r → N false c r
  pub drop_committed : (c r : Bool) → N false c r → N false false r
  pub drop_rolled_back : (r : Bool) → N false false r → N false false false

module _ {V : Type 0} {ts : List (Target V)} {P : Target V → Option V → Type 0} where
  pub remove_transaction-Ends :
      (N : (prepared committed rolled_back : Bool) → Type 0) (w : Files V) (fs : List Fault)
      → Kept ts P N w
      → Ends
          (λ _ v. Kept ts P N v × (v.transaction ≡ false))
          (Kept ts P N)
          (Kept ts P N)
          fs
          (remove_transaction w fs)
  unfolding remove_transaction
  remove_transaction-Ends N w fs k = then-observe _ _ fs _ k k λ gs.
      if-Ends w.transaction _ _ w gs
        (λ _.
          Ends-continue (λ _. Kept ts P N) _ _
            (on_roots-Ends (λ t r. P t r.live) (λ t r. P t r.live) ts _ w gs removed removed removed
              (Each-each _ _ _ discard (λ _ _ h. h) (λ _ _ h. h) (discard-Turns P) ts w.roots gs
                k.lives))
            λ _ v hs j.
              then-act _ _ _ hs _ j j
                λ is. Ends-act _ _ _ is (again v j) (again v j) (again v j, refl))
        λ e. at_return tt w gs (k, e)
    where
      removed :
          (rs : List (Root V))
          → Each (λ t r. P t r.live) ts rs
          → Kept ts P N (record w { roots = rs })
      removed rs h = record { lives = h; markers = k.markers }

      again : (v : Files V) → Kept ts P N v → Kept ts P N (record v { transaction = false })
      again v j = record { lives = j.lives; markers = j.markers }

abbrev Unprepared : ((prepared committed rolled_back : Bool) → Type 0) → Bool → Bool → Bool → Type 0
Unprepared N p c r = (p ≡ false) × N p c r

-- Nothing of the transaction is left.
pub record Cleared {V : Type 0} (ts : List (Target V)) (P : Target V → Option V → Type 0)
    (w : Files V) : Type 0 where
  pub lives : Each (λ t r. P t r.live) ts w.roots
  pub no_journal : w.journal ≡ false
  pub no_prepared : w.prepared ≡ false
  pub no_committed : w.committed ≡ false
  pub no_rolled_back : w.rolled_back ≡ false
  pub no_transaction : w.transaction ≡ false

module _ {V : Type 0} {ts : List (Target V)} {P : Target V → Option V → Type 0}
    {N : (prepared committed rolled_back : Bool) → Type 0} where
  weaken : (v : Files V) → Kept ts P (Unprepared N) v → Kept ts P N v
  weaken v h = record { lives = h.lives; markers = h.markers.1 }

  -- The terminal markers and the journal, after the transaction directory.
  forget-Ends :
      Settling N
      → (v : Files V) (fs : List Fault) → Kept ts P (Unprepared N) v × (v.transaction ≡ false)
      → Ends
          (λ _. Cleared ts P)
          (Kept ts P N)
          (Kept ts P N)
          fs
          ((do
            act io_error λ w. record w { committed = false }
            act io_error λ w. record w { rolled_back = false }
            act io_error λ w. record w { journal = false }
            step)
            v fs)
  forget-Ends settling v fs (j, e) =
      let (p, m) = j.markers in
      let m0 = subst (λ b. N b v.committed v.rolled_back) p m in
      let m1 = settling.drop_committed _ _ m0 in
      let m2 = settling.drop_rolled_back _ m1 in
      let k0 = weaken v j in
      let k1 = kept v.journal false v.rolled_back p m1 in
      let k2 = kept v.journal false false p m2 in
      let k3 = kept false false false p m2 in
      then-act _ _ _ fs _ k0 k0 λ gs. then-act _ _ _ gs _ k1 k1 λ hs.
        then-act _ _ _ hs _ k2 k2 λ is. Ends-act _ _ _ is k3 k3 (record {
          lives = j.lives;
          no_journal = refl;
          no_prepared = p;
          no_committed = refl;
          no_rolled_back = refl;
          no_transaction = e;
        })
    where
      kept :
          (jo c r : Bool)
          → v.prepared ≡ false
          → N false c r
          → Kept ts P N (record v { journal = jo; committed = c; rolled_back = r })
      kept jo c r p m = record { lives = j.lives; markers = subst (λ b. N b c r) (sym p) m }

  -- All but the first action of `remove_transaction_state`.
  pub remove_rest-Ends :
      Settling N
      → (w : Files V) (fs : List Fault) → Kept ts P N w
      → w.prepared ≡ false
      → Ends
          (λ _. Cleared ts P)
          (Kept ts P N)
          (Kept ts P N)
          fs
          ((do
            step
            remove_transaction
            act io_error λ w. record w { committed = false }
            act io_error λ w. record w { rolled_back = false }
            act io_error λ w. record w { journal = false }
            step)
            w fs)
  remove_rest-Ends settling w fs k p = then-act _ _ _ fs _ k k λ gs.
      Ends-continue (λ _ v. Kept ts P (Unprepared N) v × (v.transaction ≡ false)) _ _
        (Ends-map _ (λ _ _ h. h) weaken weaken
          (remove_transaction-Ends (Unprepared N) _ gs
            (record { lives = k.lives; markers = (p, k.markers) })))
        λ _ v hs j. forget-Ends settling v hs j

  pub remove_transaction_state-Ends :
      Settling N
      → (w : Files V) (fs : List Fault) → Kept ts P N w
      → Ends (λ _. Cleared ts P) (Kept ts P N) (Kept ts P N) fs (remove_transaction_state w fs)
  unfolding remove_transaction_state
  remove_transaction_state-Ends settling w fs k = then-act _ _ _ fs _ k k λ gs.
      remove_rest-Ends settling _ gs
        (record { lives = k.lives; markers = settling.drop_prepared _ _ _ k.markers }) refl

  pub remove_unprepared-Ends :
      (w : Files V) (fs : List Fault)
      → Kept ts P N w
      → Ends
          (λ _ v. Kept ts P N v × (v.journal ≡ false) × (v.transaction ≡ false))
          (Kept ts P N)
          (Kept ts P N)
          fs
          (remove_unprepared_transaction_state w fs)
  unfolding remove_unprepared_transaction_state
  remove_unprepared-Ends w fs k = Ends-continue _ _ _ (remove_transaction-Ends N w fs k) λ _ v gs j.
      let gone : Kept ts P N (record v { journal = false }) = record {
        lives = j.0.lives;
        markers = j.0.markers;
      } in
      then-observe _ _ gs _ j.0 j.0 λ hs.
        if-Ends v.journal _ _ v hs
          (λ _. then-act _ _ _ hs _ j.0 j.0 λ is. Ends-act _ _ _ is gone gone (gone, refl, j.1))
          λ e. at_return tt v hs (j.0, e, j.1)

module _ {V : Type 0} {ts : List (Target V)} where
  pub cleanup_committed-Ends :
      {N : (prepared committed rolled_back : Bool) → Type 0}
      → Settling N
      → (w : Files V) (fs : List Fault) → Kept ts (λ t l. l ≡ some (bundle t)) N w
      → Ends
          (λ _. Cleared ts λ t l. l ≡ some (bundle t))
          (Kept ts (λ t l. l ≡ some (bundle t)) N)
          (Kept ts (λ t l. l ≡ some (bundle t)) N)
          fs
          (cleanup_committed w fs)
  unfolding cleanup_committed
  cleanup_committed-Ends {N} settling w fs k =
      Ends-continue (λ _. Kept ts (λ t l. l ≡ some (bundle t)) N) _ _
        (on_roots-Ends LiveNew LiveNew ts _ w fs looked looked looked (
          Each-each _ _ _ check_live (λ _ _ h. h) (λ _ _ h. h) check_live-Turns ts w.roots fs
            k.lives))
        λ _ v gs j. remove_transaction_state-Ends settling v gs j
    where
      looked :
          (rs : List (Root V))
          → Each LiveNew ts rs
          → Kept ts (λ t l. l ≡ some (bundle t)) N (record w { roots = rs })
      looked rs h = record { lives = h; markers = k.markers }
