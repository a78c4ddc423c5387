-- ===== src/Circuit/History.antt =====
-- Operations in flight: every interleaving of calls with the permits that were handed out.
use octa.Common.{ℕ, ◌+◌, ◌≤◌, ◌<◌, ◌≡◌, none, some, List, [], ◌∷◌, arith, nat_eq, count}
use octa.Circuit.{
  CircuitBreaker, CircuitPermit, Permission, ok, err, checked_add, u64_mod, u32_max, new, permit,
  success, failure,
}

-- The breaker with the generations of the permits that it has handed out.
pub record World : Type 0 where
  pub breaker : CircuitBreaker
  pub issued : List ℕ

abbrev handed_out : Permission → List ℕ → List ℕ
handed_out (ok p) issued = p.generation ∷ issued
handed_out (err e) issued = issued

abbrev pub permitted : World → ℕ → World
permitted w now =
    let r = permit w.breaker now in record { breaker = r.1; issued = handed_out r.0 w.issued }

-- One call, by any operation that holds a permit, at any time. The generation does not wrap, and a
-- deadline is an instant of the clock.
pub data Step (instant_max : ℕ) : World → World → Type 0 where
  permits :
      (w : World) (now : ℕ)
      → w.breaker.state.generation + 1 < u64_mod
      → Step instant_max w (permitted w now)
  succeeds :
      (w : World) (p : CircuitPermit)
      → 0 < count p.generation w.issued
      → Step instant_max w (record w { breaker = success w.breaker p })
  fails :
      (w : World) (p : CircuitPermit) (now : ℕ)
      → 0 < count p.generation w.issued
      → w.breaker.state.generation + 1 < u64_mod
      → now + w.breaker.open_for ≤ instant_max
      → Step instant_max w (record w { breaker = failure instant_max w.breaker p now })

pub data Reach (instant_max : ℕ) (w : World) : World → Type 0 where
  here : Reach instant_max w w
  next : {v u : World} → Reach instant_max w v → Step instant_max v u → Reach instant_max w u

pub record Inv (w : World) : Type 0 where
  pub no_wrap : w.breaker.state.generation < u64_mod
  pub threshold : (0 < w.breaker.threshold) × (w.breaker.threshold ≤ u32_max)
  -- No permit is from a later generation, and while the circuit is open none is from this one.
  pub issued : (g : ℕ) → 0 < count g w.issued → g ≤ w.breaker.state.generation
  pub shut :
      (deadline g : ℕ)
      → w.breaker.state.open_until ≡ some deadline
      → 0 < count g w.issued
      → g < w.breaker.state.generation
  pub counting : w.breaker.state.open_until ≡ none → w.breaker.state.failures < w.breaker.threshold

permitted-Inv :
    (w : World) (now : ℕ) → w.breaker.state.generation + 1 < u64_mod → Inv w → Inv (permitted w now)
unfolding permit
permitted-Inv w now bound v = record {
  no_wrap = ground (arith, v.no_wrap);
  threshold = ground (arith, v.threshold);
  issued = λ g h. ground (arith, v.issued g);
  shut = λ d g e h. ground (arith, v.shut d g);
  counting = λ e. ground (arith, v.counting, v.threshold);
}

success-Inv :
    (w : World) (p : CircuitPermit) → Inv w → Inv (record w { breaker = success w.breaker p })
unfolding success
success-Inv w p v = record {
  no_wrap = ground (arith, v.no_wrap);
  threshold = ground (arith, v.threshold);
  issued = λ g h. ground (arith, v.issued g);
  shut = λ d g e h. ground (arith, v.shut d g);
  counting = λ e. ground (arith, v.counting, v.threshold);
}

failure-Inv :
    (instant_max : ℕ) (w : World) (p : CircuitPermit) (now : ℕ)
    → w.breaker.state.generation + 1 < u64_mod
    → now + w.breaker.open_for ≤ instant_max
    → Inv w
    → Inv (record w { breaker = failure instant_max w.breaker p now })
unfolding failure checked_add
failure-Inv instant_max w p now bound clock v = record {
  no_wrap = ground (arith, v.no_wrap);
  threshold = ground (arith, v.threshold);
  issued = λ g h. ground (arith, v.issued g);
  shut = λ d g e h. ground (arith, v.shut d g, v.issued g);
  counting = λ e. ground (arith, v.counting, v.threshold);
}

Step-Inv : {instant_max : ℕ} {w u : World} → Step instant_max w u → Inv w → Inv u
Step-Inv (permits w now bound) v = permitted-Inv w now bound v
Step-Inv (succeeds w p held) v = success-Inv w p v
Step-Inv {instant_max} (fails w p now held bound clock) v =
    failure-Inv instant_max w p now bound clock v

Reach-Inv : {instant_max : ℕ} {w u : World} → Reach instant_max w u → Inv w → Inv u
Reach-Inv here v = v
Reach-Inv (next r st) v = Step-Inv st (Reach-Inv r v)

abbrev pub start : ℕ → ℕ → World
start threshold open_for = record { breaker = new threshold open_for; issued = [] }

start-Inv :
    (threshold open_for : ℕ) → 0 < threshold → threshold ≤ u32_max → Inv (start threshold open_for)
start-Inv threshold open_for pos fits = record {
  no_wrap = omega arith;
  threshold = (pos, fits);
  issued = λ g h. absurd (omega arith);
  shut = λ d g e h. absurd (omega arith);
  counting = λ e. pos;
}

-- After any interleaving of calls, a breaker that is open stays as it is, also its deadline, when an
-- operation of a permit handed out before succeeds or fails, at whatever time.
pub open_is_settled :
    (instant_max threshold open_for : ℕ) (w : World) (deadline now : ℕ) (p : CircuitPermit)
    → 0 < threshold
    → threshold ≤ u32_max
    → Reach instant_max (start threshold open_for) w
    → w.breaker.state.open_until ≡ some deadline
    → 0 < count p.generation w.issued
    → (success w.breaker p ≡ w.breaker) × (failure instant_max w.breaker p now ≡ w.breaker)
unfolding success failure
open_is_settled instant_max threshold open_for w deadline now p pos fits r opened held =
    let v = Reach-Inv r (start-Inv threshold open_for pos fits) in
    (ground (arith, v.shut deadline p.generation), ground (arith, v.shut deadline p.generation))

-- After any interleaving of calls, a closed breaker has counted fewer failures than its threshold.
pub closed_below_threshold :
    (instant_max threshold open_for : ℕ) (w : World)
    → 0 < threshold
    → threshold ≤ u32_max
    → Reach instant_max (start threshold open_for) w
    → w.breaker.state.open_until ≡ none
    → w.breaker.state.failures < w.breaker.threshold
closed_below_threshold instant_max threshold open_for w pos fits r closed =
    (Reach-Inv r (start-Inv threshold open_for pos fits)).counting closed
