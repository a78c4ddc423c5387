-- ===== src/InteractiveScope/Holders.antt =====
-- The sessions that hold the guard, and the steps of the nodes that share a tracker.
use octa.Common.{
  ℕ, ◌+◌, ◌-◌, ◌<◌, ◌≡◌, Bool, true, false, Option, none, some, List, [], ◌∷◌, arith, ◌==◌, nat_eq,
  if◌then◌else◌, lookup, insert,
}
use octa.Text.{Str, str_eq}
use octa.InteractiveScope.{
  RuntimeGuard, InteractiveState, Tracker, new, entered, enter, complete, finish_remaining,
}

abbrev pub bit : Bool → ℕ
bit true = 1
bit false = 0

-- How many sessions hold the guard.
abbrev pub holders : List (Str × InteractiveState) → ℕ
holders [] = 0
holders ((s, x) ∷ m) = bit x.guarded + holders m

abbrev pub held_of : Option InteractiveState → Bool
held_of (some state) = state.guarded
held_of none = false

pub holders-insert :
    (s : Str) (x : InteractiveState) (m : List (Str × InteractiveState))
    → holders (insert s x m) + bit (held_of (lookup s m)) ≡ holders m + bit x.guarded
unfolding insert
holders-insert s x [] = omega arith
holders-insert s x ((t, y) ∷ m) = by_test (t == s) (holders-insert s x m)
  where
    by_test :
        (b : Bool)
        → holders (insert s x m) + bit (held_of (lookup s m)) ≡ holders m + bit x.guarded
        → holders (if b then (t, x) ∷ m else (t, y) ∷ insert s x m)
            + bit (held_of (if b then some y else lookup s m))
          ≡ holders ((t, y) ∷ m) + bit x.guarded
    by_test true h = omega arith
    by_test false h = omega arith

-- One step of the nodes that share a tracker. A dropped guard is one that an ordinary node holds.
pub data Step : Tracker → Tracker → Type 0 where
  enters :
      (t u : Tracker) (session : Option Str) (needs_lock : Bool) (g : Option RuntimeGuard)
      → enter t session needs_lock ≡ entered g u
      → Step t u
  completes :
      (t : Tracker) (session : Option Str) (needs_lock : Bool)
      → Step t (complete t session needs_lock)
  drops :
      (t : Tracker)
      → 0 < t.coordinator.readers
      → Step t
          (record t { coordinator = record t.coordinator { readers = t.coordinator.readers - 1 } })

pub data Reachable (nodes : List (Option Str × Bool)) : Tracker → Type 0 where
  fresh : Reachable nodes (new (record { readers = 0; writer = false }) nodes)
  steps : (t u : Tracker) → Reachable nodes t → Step t u → Reachable nodes u
  finishes : (t : Tracker) → Reachable nodes t → Reachable nodes (finish_remaining t)
