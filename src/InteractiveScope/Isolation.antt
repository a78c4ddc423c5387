-- ===== src/InteractiveScope/Isolation.antt =====
-- Interactive sessions exclude each other and every ordinary node, and hold their guard until their
-- last node completes.
use octa.Common.{
  suc, ◌+◌, ◌-◌, ◌≤◌, ◌≡◌, ◌⊎◌, subst, refl, sym, ap, ◌∙◌, Bool, true, false, not, ◌&&◌, Option,
  none, some, List, [], ◌∷◌, arith, ◌==◌, ==_iff, inl, inr, nat_eq, if◌then◌else◌, lookup, insert,
}
use octa.Text.{Str, str_eq}
use octa.InteractiveScope.{
  RuntimeCoordinator, RuntimeGuard, guard, InteractiveState, Tracker, count_nodes, new,
  remaining_of, Entered, entered, waits, panics, lock_session, enter, release, complete_session,
  complete, take_all, finish_remaining,
}
use octa.InteractiveScope.Holders.{
  bit, holders, held_of, holders-insert, Step, Reachable, enters, completes, drops, fresh, steps,
  finishes,
}

record Isolated (t : Tracker) : Type 0 where
  one : holders t.states ≡ bit t.coordinator.writer
  alone : t.coordinator.writer ≡ true → t.coordinator.readers ≡ 0

count_nodes-holders :
    (nodes : List (Option Str × Bool)) (counts : List (Str × InteractiveState))
    → holders counts ≡ 0
    → holders (count_nodes nodes counts) ≡ 0
unfolding count_nodes
count_nodes-holders [] counts h = h
count_nodes-holders ((some s, true) ∷ nodes) counts h = count_nodes-holders nodes _ (
    omega (
      arith,
      holders-insert s (record { remaining = remaining_of (lookup s counts) + 1; guarded = false })
          counts,
    ))
count_nodes-holders ((some s, false) ∷ nodes) counts h = count_nodes-holders nodes counts h
count_nodes-holders ((none, b) ∷ nodes) counts h = count_nodes-holders nodes counts h

lock_session-Isolated :
    (t u : Tracker) (s : Str) (state : InteractiveState) (g : Option RuntimeGuard)
    → Isolated t
    → lookup s t.states ≡ some state
    → lock_session t s state ≡ entered g u
    → Isolated u
unfolding lock_session guard
lock_session-Isolated t u s state g i hs h = held state.guarded refl h
  where
    locked : Tracker
    locked = record {
      coordinator = record t.coordinator { writer = true };
      states = insert s (record state { guarded = true }) t.states;
    }

    locked-Isolated :
        state.guarded ≡ false
        → (not t.coordinator.writer && t.coordinator.readers == 0) ≡ true
        → Isolated locked
    locked-Isolated hg free = record {
      one = ground (
        arith,
        holders-insert s (record state { guarded = true }) t.states,
        ap (λ (o : Option InteractiveState). bit (held_of o)) hs,
        ap bit hg,
        i.one,
      );
      alone = λ w. ground (arith, ==_iff t.coordinator.readers 0);
    }

    held :
        (b : Bool)
        → state.guarded ≡ b
        → (if b then entered none t else elim (guard t.coordinator true) [
          | some c ↦ entered none (record {
            coordinator = c;
            states = insert s (record state { guarded = true }) t.states;
          })
          | none ↦ waits
        ])
          ≡ entered g u
        → Isolated u
    held true hb e = subst Isolated (ground arith) i
    held false hb e = free (not t.coordinator.writer && t.coordinator.readers == 0) refl e
      where
        free :
            (f : Bool)
            → (not t.coordinator.writer && t.coordinator.readers == 0) ≡ f
            → elim (if f then some (record t.coordinator { writer = true }) else none)
                as (λ x. Entered) [
                  | some c ↦ entered none (record {
                    coordinator = c;
                    states = insert s (record state { guarded = true }) t.states;
                  })
                  | none ↦ waits
                ]
              ≡ entered g u
            → Isolated u
        free true hf x = subst Isolated (ground arith) (locked-Isolated hb hf)
        free false hf x = absurd (ground arith)

enter-Isolated :
    (t u : Tracker) (session : Option Str) (needs_lock : Bool) (g : Option RuntimeGuard)
    → Isolated t
    → enter t session needs_lock ≡ entered g u
    → Isolated u
unfolding enter guard
enter-Isolated t u session false g i h = subst Isolated (ground arith) i
enter-Isolated t u none true g i h = free t.coordinator.writer refl h
  where
    joined :
        t.coordinator.writer ≡ false
        → Isolated (record t {
          coordinator = record t.coordinator { readers = suc t.coordinator.readers };
        })
    joined hb = record { one = i.one; alone = λ w. absurd (ground (arith, hb, w)) }

    free :
        (b : Bool)
        → t.coordinator.writer ≡ b
        → elim (if not b
              then some (record t.coordinator { readers = suc t.coordinator.readers })
              else none)
            as (λ x. Entered) [
              | some c ↦ entered (some RuntimeGuard.shared) (record t { coordinator = c })
              | none ↦ waits
            ]
          ≡ entered g u
        → Isolated u
    free false hb x = subst Isolated (ground arith) (joined hb)
    free true hb x = absurd (ground arith)
enter-Isolated t u (some s) true g i h = found (lookup s t.states) refl h
  where
    found :
        (x : Option InteractiveState)
        → lookup s t.states ≡ x
        → elim x as (λ x. Entered) [ some state ↦ lock_session t s state | none ↦ panics ]
          ≡ entered g u
        → Isolated u
    found none hx e = absurd (ground arith)
    found (some state) hx e = lock_session-Isolated t u s state g i hx e

complete-Isolated :
    (t : Tracker) (session : Option Str) (needs_lock : Bool)
    → Isolated t
    → Isolated (complete t session needs_lock)
unfolding complete complete_session
complete-Isolated t session false i = i
complete-Isolated t none true i = i
complete-Isolated t (some s) true i = found (lookup s t.states) refl
  where
    found :
        (x : Option InteractiveState)
        → lookup s t.states ≡ x
        → Isolated (elim x [ some state ↦ complete_session t s state | none ↦ t ])
    found none hx = i
    found (some state) hx = last (state.remaining - 1 == 0) state.guarded refl
      where
        last :
            (b g : Bool)
            → state.guarded ≡ g
            → Isolated (
                if b
                then record {
                  coordinator = release t.coordinator state.guarded;
                  states =
                      insert s
                        (record { remaining = state.remaining - 1; guarded = false })
                        t.states;
                }
                else record t {
                  states = insert s (record state { remaining = state.remaining - 1 }) t.states;
                })
        last true true hg = record {
          one = ground (
            arith,
            hg,
            holders-insert s (record { remaining = state.remaining - 1; guarded = false }) t.states,
            ap (λ (o : Option InteractiveState). bit (held_of o)) hx,
            i.one,
          );
          alone = λ w. absurd (ground (arith, hg));
        }
        last true false hg = record {
          one = ground (
            arith,
            hg,
            holders-insert s (record { remaining = state.remaining - 1; guarded = false }) t.states,
            ap (λ (o : Option InteractiveState). bit (held_of o)) hx,
            i.one,
          );
          alone = λ w. ground (arith, hg, i.alone);
        }
        last false g hg = record {
          one = ground (
            arith,
            holders-insert s (record { remaining = state.remaining - 1; guarded = state.guarded })
                t.states,
            ap (λ (o : Option InteractiveState). bit (held_of o)) hx,
            i.one,
          );
          alone = i.alone;
        }

-- Taking every guard frees the lock that a session held.
take_all-holders :
    (c : RuntimeCoordinator) (m : List (Str × InteractiveState)) → holders (take_all c m).states ≡ 0
unfolding take_all
take_all-holders c [] = refl
take_all-holders c ((s, x) ∷ m) = omega (arith, take_all-holders (release c x.guarded) m)

take_all-writer :
    (c : RuntimeCoordinator) (m : List (Str × InteractiveState))
    → holders m ≡ bit c.writer
    → (take_all c m).coordinator.writer ≡ false
unfolding take_all
take_all-writer c [] h = ground (arith, h)
take_all-writer c ((s, x) ∷ m) h =
    by_test x.guarded c.writer refl refl (take_all-writer (release c x.guarded) m)
  where
    by_test :
        (g w : Bool)
        → x.guarded ≡ g
        → c.writer ≡ w
        → (holders m ≡ bit (release c x.guarded).writer
            → (take_all (release c x.guarded) m).coordinator.writer ≡ false)
        → (take_all (release c x.guarded) m).coordinator.writer ≡ false
    by_test true true hg hw ih = ih (ground (arith, hg, hw, h))
    by_test true false hg hw ih = absurd (ground (arith, hg, hw, h))
    by_test false w hg hw ih = ih (ground (arith, hg, hw, h))

finish-Isolated : (t : Tracker) → Isolated t → Isolated (finish_remaining t)
unfolding finish_remaining
finish-Isolated t i = record {
  one =
      take_all-holders t.coordinator t.states
      ∙ sym (ap bit (take_all-writer t.coordinator t.states i.one));
  alone = λ w. absurd (ground (arith, take_all-writer t.coordinator t.states i.one, w));
}

Step-Isolated : (t u : Tracker) → Isolated t → Step t u → Isolated u
Step-Isolated _ _ i (enters t u session needs_lock g h) =
    enter-Isolated t u session needs_lock g i h
Step-Isolated _ _ i (completes t session needs_lock) = complete-Isolated t session needs_lock i
Step-Isolated _ _ i (drops t h) = record { one = i.one; alone = λ w. ground (arith, i.alone w) }

Reachable-Isolated :
    (nodes : List (Option Str × Bool)) (t : Tracker) → Reachable nodes t → Isolated t
unfolding new
Reachable-Isolated nodes _ fresh = record {
  one = count_nodes-holders nodes [] refl;
  alone = λ w. absurd (ground (arith, w));
}
Reachable-Isolated nodes _ (steps t u r s) = Step-Isolated t u (Reachable-Isolated nodes t r) s
Reachable-Isolated nodes _ (finishes t r) = finish-Isolated t (Reachable-Isolated nodes t r)

-- In every reachable state at most one session holds the guard, and while one does no ordinary node
-- holds a shared guard.
pub interactive_is_alone :
    (nodes : List (Option Str × Bool)) (t : Tracker)
    → Reachable nodes t
    → (holders t.states ≤ 1) × ((holders t.states ≡ 0) ⊎ (t.coordinator.readers ≡ 0))
interactive_is_alone nodes t r = by_writer t.coordinator.writer refl (Reachable-Isolated nodes t r)
  where
    by_writer :
        (b : Bool)
        → t.coordinator.writer ≡ b
        → Isolated t
        → (holders t.states ≤ 1) × ((holders t.states ≡ 0) ⊎ (t.coordinator.readers ≡ 0))
    by_writer true hb i = (ground (arith, i.one, hb), inr (i.alone hb))
    by_writer false hb i = (ground (arith, i.one, hb), inl (ground (arith, i.one, hb)))
