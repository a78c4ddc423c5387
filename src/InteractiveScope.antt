-- ===== src/InteractiveScope.antt =====
-- crates/octa-executor/src/interactive_scope_tracker.rs and runtime_coordinator.rs: the exclusive
-- runtime guard of an interactive task, held from its first node to its last. The lock is a number
-- of readers and a writer; a request that has to wait leaves the state as it is. The order in which
-- waiting requests are served is not modelled.
mod Holders
mod Isolation
mod Lifetime
mod Examples
use octa.Common.{
  ℕ, suc, ◌+◌, ◌-◌, ◌≡◌, Bool, true, false, not, ◌&&◌, Option, none, some, List, [], ◌∷◌, ◌==◌,
  nat_eq, if◌then◌else◌, lookup, insert,
}
use octa.Text.{Str, str_eq}

-- `RuntimeCoordinator`, its read-write lock.
pub record RuntimeCoordinator : Type 0 where
  pub readers : ℕ
  pub writer : Bool

pub data RuntimeGuard : Type 0 where
  shared exclusive : RuntimeGuard

-- `RuntimeCoordinator::guard`; `none` while the request waits.
unfoldable pub guard : RuntimeCoordinator → Bool → Option RuntimeCoordinator
guard c true = if not c.writer && c.readers == 0 then some (record c { writer = true }) else none
guard c false = if not c.writer then some (record c { readers = suc c.readers }) else none

pub record InteractiveState : Type 0 where
  pub remaining : ℕ
  -- Whether `guard` is `Some`.
  pub guarded : Bool

pub record Tracker : Type 0 where
  pub coordinator : RuntimeCoordinator
  pub states : List (Str × InteractiveState)

-- The counts of `InteractiveScopeTracker::new`.
abbrev pub remaining_of : Option InteractiveState → ℕ
remaining_of (some state) = state.remaining
remaining_of none = 0

unfoldable pub count_nodes :
    List (Option Str × Bool) → List (Str × InteractiveState) → List (Str × InteractiveState)
count_nodes [] counts = counts
count_nodes ((some session, true) ∷ nodes) counts = count_nodes nodes (
    insert session
      (record { remaining = remaining_of (lookup session counts) + 1; guarded = false }) counts)
count_nodes ((some session, false) ∷ nodes) counts = count_nodes nodes counts
count_nodes ((none, needs_lock) ∷ nodes) counts = count_nodes nodes counts

unfoldable pub new : RuntimeCoordinator → List (Option Str × Bool) → Tracker
new coordinator nodes = record { coordinator = coordinator; states = count_nodes nodes [] }

pub data Entered : Type 0 where
  entered : Option RuntimeGuard → Tracker → Entered
  -- The lock is taken: the request waits.
  waits : Entered
  -- The session is not one of the plan's.
  panics : Entered

unfoldable pub lock_session : Tracker → Str → InteractiveState → Entered
lock_session t session state =
    if state.guarded then entered none t else elim (guard t.coordinator true) [
      | some c ↦ entered none (record {
        coordinator = c;
        states = insert session (record state { guarded = true }) t.states;
      })
      | none ↦ waits
    ]

unfoldable pub enter : Tracker → Option Str → Bool → Entered
enter t session false = entered none t
enter t none true = elim (guard t.coordinator false) [
  | some c ↦ entered (some shared) (record t { coordinator = c })
  | none ↦ waits
]
enter t (some session) true = elim (lookup session t.states) [
  | some state ↦ lock_session t session state
  | none ↦ panics
]

-- Dropping the guard of a session, if it has one.
abbrev pub release : RuntimeCoordinator → Bool → RuntimeCoordinator
release c guarded = if guarded then record c { writer = false } else c

unfoldable pub complete_session : Tracker → Str → InteractiveState → Tracker
complete_session t session state =
    let remaining = state.remaining - 1 in
    if remaining == 0
    then record {
      coordinator = release t.coordinator state.guarded;
      states = insert session (record { remaining = remaining; guarded = false }) t.states;
    }
    else record t { states = insert session (record state { remaining = remaining }) t.states }

unfoldable pub complete : Tracker → Option Str → Bool → Tracker
complete t session false = t
complete t none true = t
complete t (some session) true = elim (lookup session t.states) [
  | some state ↦ complete_session t session state
  | none ↦ t
]

unfoldable pub take_all : RuntimeCoordinator → List (Str × InteractiveState) → Tracker
take_all c [] = record { coordinator = c; states = [] }
take_all c ((session, state) ∷ rest) =
    let after = take_all (release c state.guarded) rest in
    record after { states = (session, record state { guarded = false }) ∷ after.states }

unfoldable pub finish_remaining : Tracker → Tracker
finish_remaining t = take_all t.coordinator t.states
