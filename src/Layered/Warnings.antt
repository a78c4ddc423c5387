-- ===== src/Layered/Warnings.antt =====
-- One warning for each outage of the remote store.
use octa.Common.{ℕ, suc, ◌+◌, ◌≤◌, ◌≡◌, Bool, true, false, List, [], ◌∷◌, ◌++◌, arith, Eq}
use octa.Digest.{Digest}
use octa.Layered.{Steps, done, call, remote_warning, remote_success}
use octa.Layered.Runs.{Stores, Event, warned, restored, run, Operation, perform}

abbrev pub is_warned : Event → ℕ
is_warned warned = 1
is_warned _ = 0

abbrev pub is_restored : Event → ℕ
is_restored restored = 1
is_restored _ = 0

abbrev pub total : (Event → ℕ) → List Event → ℕ
total f [] = 0
total f (e ∷ es) = f e + total f es

total-append : (f : Event → ℕ) (xs ys : List Event) → total f (xs ++ ys) ≡ total f xs + total f ys
total-append f [] ys = omega arith
total-append f (x ∷ xs) ys = omega (arith, total-append f xs ys)

abbrev bit : Bool → ℕ
bit true = 1
bit false = 0

run_balance :
    {R W A : Type 0} (stores : Stores R W) (s : Steps R A) (w : W) (flag : Bool)
    → let o = run stores s w flag in
      total is_warned o.events + bit flag ≤ total is_restored o.events + bit o.warning_emitted
unfolding run
run_balance stores (done a) w flag = omega arith
run_balance stores (call c k) w flag =
    omega (arith, run_balance stores (k (stores c w).0) (stores c w).1 flag)
run_balance stores (remote_warning s) w true = omega (arith, run_balance stores s w true)
run_balance stores (remote_warning s) w false = omega (arith, run_balance stores s w true)
run_balance stores (remote_success s) w true = omega (arith, run_balance stores s w false)
run_balance stores (remote_success s) w false = omega (arith, run_balance stores s w false)

-- A session: operations one after the other on one layered store. Its events, and the flag.
unfoldable pub session :
    {R W : Type 0} ⦃e : Eq R⦄
    → (R → Digest)
    → Stores R W
    → List (Operation R)
    → W
    → Bool
    → List Event × Bool
session action stores [] w flag = ([], flag)
session action stores (o ∷ os) w flag =
    let first = run stores (perform action o) w flag in
    let rest = session action stores os first.world first.warning_emitted in
    (first.events ++ rest.0, rest.1)

session_balance :
    {R W : Type 0} ⦃e : Eq R⦄ (action : R → Digest) (stores : Stores R W) (os : List (Operation R))
    (w : W) (flag : Bool)
    → let s = session action stores os w flag in
      total is_warned s.0 + bit flag ≤ total is_restored s.0 + bit s.1
unfolding session
session_balance action stores [] w flag = omega arith
session_balance action stores (o ∷ os) w flag =
    let first = run stores (perform action o) w flag in
    omega (
      arith,
      run_balance stores (perform action o) w flag,
      session_balance action stores os first.world first.warning_emitted,
      total-append is_warned first.events
          (session action stores os first.world first.warning_emitted).0,
      total-append is_restored first.events
          (session action stores os first.world first.warning_emitted).0,
    )

-- Whatever the stores do, a session on a new layered store warns at most once more often than the
-- remote store comes back.
pub one_warning_per_outage :
    {R W : Type 0} ⦃e : Eq R⦄ (action : R → Digest) (stores : Stores R W) (os : List (Operation R))
    (w : W)
    → let events = (session action stores os w false).0 in
      total is_warned events ≤ suc (total is_restored events)
one_warning_per_outage action stores os w =
    flag_lem (session action stores os w false).1 (session_balance action stores os w false)
  where
    flag_lem : {m n : ℕ} → (b : Bool) → m + 0 ≤ n + bit b → m ≤ suc n
    flag_lem true h = omega arith
    flag_lem false h = omega arith
