-- ===== src/Circuit.antt =====
-- crates/octa-cache-http/src/circuit.rs: the circuit breaker in front of the remote cache.
-- Time is a number of clock ticks and an argument of each call; `instant_max` is the last instant
-- that the clock's type can hold. A lock is held for each call, so a call is one step.
mod Laws
pub mod History
mod Examples
use octa.Common.{
  ℕ, ◌+◌, ◌%◌, ◌^◌, ◌-◌, Bool, true, false, ◌&&◌, Option, none, some, ◌==◌, nat_eq, ltb, leb,
  if◌then◌else◌, not,
}

abbrev pub u64_mod : ℕ
u64_mod = 2 ^ 64

abbrev pub u32_max : ℕ
u32_max = 2 ^ 32 - 1

pub record State : Type 0 where
  pub generation : ℕ
  pub failures : ℕ
  pub open_until : Option ℕ

-- The generation that an operation saw when it entered.
pub record CircuitPermit : Type 0 where
  pub generation : ℕ

pub data HttpCacheError : Type 0 where
  circuit_open : HttpCacheError

pub data Permission : Type 0 where
  ok : CircuitPermit → Permission
  err : HttpCacheError → Permission

pub record CircuitBreaker : Type 0 where
  pub threshold : ℕ
  pub open_for : ℕ
  pub state : State

abbrev pub new : ℕ → ℕ → CircuitBreaker
new threshold open_for = record {
  threshold = threshold;
  open_for = open_for;
  state = record { generation = 0; failures = 0; open_until = none };
}

-- `Instant::checked_add`.
checked_add : ℕ → ℕ → ℕ → Option ℕ
checked_add instant_max now duration =
    if leb (now + duration) instant_max then some (now + duration) else none

-- `u64::wrapping_add(1)` and `u32::saturating_add(1)`.
abbrev pub next_generation : ℕ → ℕ
next_generation g = (g + 1) % u64_mod

abbrev pub more_failures : ℕ → ℕ
more_failures n = if ltb n u32_max then n + 1 else n

abbrev pub is_some_and : (ℕ → Bool) → Option ℕ → Bool
is_some_and p none = false
is_some_and p (some a) = p a

abbrev is_some : Option ℕ → Bool
is_some = is_some_and (λ _. true)

abbrev is_none : Option ℕ → Bool
is_none o = not (is_some o)

unfoldable pub permit : CircuitBreaker → ℕ → Permission × CircuitBreaker
permit c now =
    let s = c.state in
    if is_some_and (λ deadline. ltb now deadline) s.open_until
    then (err circuit_open, c)
    else if is_some s.open_until
    then (
      ok (record { generation = next_generation s.generation }),
      record c {
        state = record s {
          open_until = none;
          failures = 0;
          generation = next_generation s.generation;
        };
      },
    )
    else (ok (record { generation = s.generation }), c)

unfoldable pub success : CircuitBreaker → CircuitPermit → CircuitBreaker
success c p =
    let s = c.state in
    if (s.generation == p.generation) && is_none s.open_until
    then record c { state = record s { failures = 0 } }
    else c

unfoldable pub failure : ℕ → CircuitBreaker → CircuitPermit → ℕ → CircuitBreaker
unfolding checked_add
failure instant_max c p now =
    let s = c.state in
    let failures = more_failures s.failures in
    if not (s.generation == p.generation)
    then c
    else if leb c.threshold failures
    then record c {
      state = record {
        failures = failures;
        open_until = checked_add instant_max now c.open_for;
        generation = next_generation s.generation;
      };
    }
    else record c { state = record s { failures = failures } }
