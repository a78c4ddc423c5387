-- ===== src/InteractiveScope/Examples.antt =====
-- An interactive task of two nodes, and the theorems at it.
use octa.Common.{
  ◌≤◌, ◌<◌, ◌≡◌, ◌⊎◌, refl, Bool, true, false, Option, none, some, List, [], ◌∷◌, arith, insert,
  lookup, nat_eq,
}
use octa.Text.{Str, str_eq}
use octa.InteractiveScope.{
  guard, Tracker, count_nodes, new, remaining_of, entered, waits, lock_session, enter,
  complete_session, complete, take_all, finish_remaining,
}
use octa.InteractiveScope.Holders.{enters, completes, Reachable, fresh, steps, holders, held_of}
use octa.InteractiveScope.Isolation.{interactive_is_alone}
use octa.InteractiveScope.Lifetime.{Steps, none_left, more, guard_until_last_node, complete_times}

program : Unit {0}
unfolding insert guard count_nodes new lock_session enter complete_session complete take_all
    finish_remaining complete_times
program = tt

abbrev session : Str
session = b's' ∷ []

abbrev nodes : List (Option Str × Bool)
nodes = (some session, true) ∷ (some session, true) ∷ (none, true) ∷ []

abbrev idle : Tracker
idle = new (record { readers = 0; writer = false }) nodes

abbrev locked : Tracker
locked = record {
  coordinator = record { readers = 0; writer = true };
  states = (session, record { remaining = 2; guarded = true }) ∷ [];
}

enter-session : enter idle (some session) true ≡ entered none locked
unfolding program
enter-session = refl

-- An ordinary node waits while the session is locked.
ordinary_waits : enter locked none true ≡ waits
unfolding program
ordinary_waits = refl

locked-Reachable : Reachable nodes locked
locked-Reachable =
    steps idle locked fresh (enters idle locked (some session) true none enter-session)

interactive_is_alone_example :
    (holders locked.states ≤ 1) × ((holders locked.states ≡ 0) ⊎ (locked.coordinator.readers ≡ 0))
interactive_is_alone_example = interactive_is_alone nodes locked locked-Reachable

abbrev one_left : Tracker
one_left = complete locked (some session) true

one_left_steps : Steps locked one_left
one_left_steps =
    more locked one_left one_left (completes locked (some session) true) (none_left one_left)

one_remains : 0 < remaining_of (lookup session one_left.states)
unfolding program
one_remains = omega arith

guard_until_last_node_example : held_of (lookup session one_left.states) ≡ true
guard_until_last_node_example =
    guard_until_last_node session locked one_left one_left_steps refl one_remains
