-- ===== src/Circuit/Laws.antt =====
-- How failures in one generation open the circuit.
use octa.Common.{ℕ, ◌+◌, ◌≤◌, ◌<◌, ◌≡◌, ap, ◌∙◌, none, some, List, [], ◌∷◌, arith, length}
use octa.Circuit.{
  CircuitBreaker, CircuitPermit, err, circuit_open, checked_add, u32_max, permit, failure,
}

-- The operations of one permit fail at the listed times.
pub fail_all : ℕ → CircuitBreaker → CircuitPermit → List ℕ → CircuitBreaker
fail_all instant_max c p [] = c
fail_all instant_max c p (now ∷ times) = fail_all instant_max (failure instant_max c p now) p times

module _ (instant_max : ℕ) where
  abbrev counted : CircuitBreaker → ℕ → CircuitBreaker
  counted c n = record c { state = record (c.state) { failures = n } }

  failure_below :
      (c : CircuitBreaker) (p : CircuitPermit) (now : ℕ)
      → p.generation ≡ c.state.generation
      → c.state.failures + 1 < c.threshold
      → c.threshold ≤ u32_max
      → failure instant_max c p now ≡ counted c (c.state.failures + 1)
  unfolding failure
  failure_below c p now same below fits = ground arith

  fail_all_below :
      (c : CircuitBreaker) (p : CircuitPermit) (times : List ℕ)
      → p.generation ≡ c.state.generation
      → c.state.failures + length times < c.threshold
      → c.threshold ≤ u32_max
      → fail_all instant_max c p times ≡ counted c (c.state.failures + length times)
  unfolding fail_all
  fail_all_below c p [] same below fits = ground arith
  fail_all_below c p (now ∷ times) same below fits =
      rw (failure_below c p now same (omega arith) fits) (
        fail_all_below (counted c (c.state.failures + 1)) p times same (omega arith) fits
        ∙ ap (counted c) (omega arith))

  -- From no failures, `threshold - 1` failures of the current generation leave the circuit closed,
  -- and one more, at `last`, opens it until `last + open_for`: a permit asked for before that is
  -- refused, and changes nothing.
  pub opens_at_threshold :
      (c : CircuitBreaker) (p : CircuitPermit) (times : List ℕ) (last now : ℕ)
      → p.generation ≡ c.state.generation
      → c.state.failures ≡ 0
      → c.state.open_until ≡ none
      → length times + 1 ≡ c.threshold
      → c.threshold ≤ u32_max
      → last + c.open_for ≤ instant_max
      → now < last + c.open_for
      → let before = fail_all instant_max c p times in
        let opened = failure instant_max before p last in
        (before.state.open_until ≡ none)
        × (opened.state.open_until ≡ some (last + c.open_for))
        × (permit opened now ≡ (err circuit_open, opened))
  opens_at_threshold c p times last now same zero closed reached fits clock early =
      rw (fail_all_below c p times same (omega arith) fits)
        (closed, opened_at, unfold permit in ground (arith, opened_at, early))
    where
      before : CircuitBreaker
      before = counted c (c.state.failures + length times)

      opened_at : (failure instant_max before p last).state.open_until ≡ some (last + c.open_for)
      opened_at = unfold failure checked_add in ground arith
