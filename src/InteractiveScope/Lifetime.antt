-- ===== src/InteractiveScope/Lifetime.antt =====
-- How long an interactive session holds its guard.
use octa.Common.{
  ℕ, suc, zero, ◌-◌, ◌≤◌, ◌<◌, ◌≡◌, subst, refl, sym, ap, ◌∙◌, Bool, true, false, Option, none,
  some, List, arith, ◌==◌, ==_iff, ==_refl, nat_eq, if◌then◌else◌, lookup, insert, lookup-insert,
}
use octa.Text.{Str, str_eq}
use octa.InteractiveScope.{
  RuntimeCoordinator, RuntimeGuard, guard, InteractiveState, Tracker, new, remaining_of, Entered,
  entered, waits, panics, lock_session, enter, release, complete_session, complete,
}
use octa.InteractiveScope.Holders.{Step, enters, completes, drops, held_of}

-- What one step does to the session `s`: it keeps its guard or has completed its last node, and
-- never gains nodes.
abbrev Keeps : Option InteractiveState → Option InteractiveState → Type 0
Keeps x y =
    (remaining_of y ≤ remaining_of x) × (held_of x ≡ true → 0 < remaining_of y → held_of y ≡ true)

Keeps-refl : (x : Option InteractiveState) → Keeps x x
Keeps-refl x = (omega arith, λ h r. h)

Keeps-insert :
    (s u : Str) (old new : InteractiveState) (m : List (Str × InteractiveState))
    → lookup u m ≡ some old
    → Keeps (some old) (some new)
    → Keeps (lookup s m) (lookup s (insert u new m))
Keeps-insert s u old new m hu k = rw (lookup-insert u s new m) (by_test (u == s) refl)
  where
    by_test : (b : Bool) → (u == s) ≡ b → Keeps (lookup s m) (if b then some new else lookup s m)
    by_test true hb =
        subst (λ x. Keeps x (some new)) (sym hu ∙ ap (λ (v : Str). lookup v m) ((==_iff u s).0 hb))
          k
    by_test false hb = Keeps-refl (lookup s m)

lock_session-Keeps :
    (s : Str) (t u : Tracker) (session : Str) (state : InteractiveState) (g : Option RuntimeGuard)
    → lookup session t.states ≡ some state
    → lock_session t session state ≡ entered g u
    → Keeps (lookup s t.states) (lookup s u.states)
unfolding lock_session guard
lock_session-Keeps s t u session state g hs h = held state.guarded h
  where
    locked : List (Str × InteractiveState)
    locked = insert session (record state { guarded = true }) t.states

    held :
        (b : Bool)
        → (if b then entered none t else elim (guard t.coordinator true) [
          | some c ↦ entered none (record { coordinator = c; states = locked })
          | none ↦ waits
        ])
          ≡ entered g u
        → Keeps (lookup s t.states) (lookup s u.states)
    held true e =
        subst (λ (v : Tracker). Keeps (lookup s t.states) (lookup s v.states)) {x = t} {y = u}
          (ground arith) (Keeps-refl (lookup s t.states))
    held false e = free (guard t.coordinator true) e
      where
        free :
            (x : Option RuntimeCoordinator)
            → elim x as (λ x. Entered) [
              | some c ↦ entered none (record { coordinator = c; states = locked })
              | none ↦ waits
            ]
              ≡ entered g u
            → Keeps (lookup s t.states) (lookup s u.states)
        free (some c) x =
            subst (λ (m : List (Str × InteractiveState)). Keeps (lookup s t.states) (lookup s m))
              (ground arith)
              (Keeps-insert s session state (record state { guarded = true }) t.states hs
                (omega arith, λ h r. refl))
        free none x = absurd (ground arith)

enter-Keeps :
    (s : Str) (t u : Tracker) (session : Option Str) (needs_lock : Bool) (g : Option RuntimeGuard)
    → enter t session needs_lock ≡ entered g u
    → Keeps (lookup s t.states) (lookup s u.states)
unfolding enter
enter-Keeps s t u session false g h =
    subst (λ (v : Tracker). Keeps (lookup s t.states) (lookup s v.states)) {x = t} {y = u}
      (ground arith) (Keeps-refl (lookup s t.states))
enter-Keeps s t u none true g h = free (guard t.coordinator false) h
  where
    free :
        (x : Option RuntimeCoordinator)
        → elim x as (λ x. Entered) [
          | some c ↦ entered (some RuntimeGuard.shared) (record t { coordinator = c })
          | none ↦ waits
        ]
          ≡ entered g u
        → Keeps (lookup s t.states) (lookup s u.states)
    free (some c) x =
        subst (λ (m : List (Str × InteractiveState)). Keeps (lookup s t.states) (lookup s m))
          (ground arith) (Keeps-refl (lookup s t.states))
    free none x = absurd (ground arith)
enter-Keeps s t u (some session) true g h = found (lookup session t.states) refl h
  where
    found :
        (x : Option InteractiveState)
        → lookup session t.states ≡ x
        → elim x as (λ x. Entered) [ some state ↦ lock_session t session state | none ↦ panics ]
          ≡ entered g u
        → Keeps (lookup s t.states) (lookup s u.states)
    found none hx e = absurd (ground arith)
    found (some state) hx e = lock_session-Keeps s t u session state g hx e

complete-Keeps :
    (s : Str) (t : Tracker) (session : Option Str) (needs_lock : Bool)
    → Keeps (lookup s t.states) (lookup s (complete t session needs_lock).states)
unfolding complete complete_session
complete-Keeps s t session false = Keeps-refl (lookup s t.states)
complete-Keeps s t none true = Keeps-refl (lookup s t.states)
complete-Keeps s t (some session) true = found (lookup session t.states) refl
  where
    found :
        (x : Option InteractiveState)
        → lookup session t.states ≡ x
        → Keeps (lookup s t.states) (
            lookup s
              (elim x as (λ x. Tracker) [
                | some state ↦ complete_session t session state
                | none ↦ t
              ]).states)
    found none hx = Keeps-refl (lookup s t.states)
    found (some state) hx = last (state.remaining - 1 == 0) refl
      where
        last :
            (b : Bool)
            → (state.remaining - 1 == 0) ≡ b
            → Keeps (lookup s t.states) (
                lookup s
                  (if b
                    then record {
                      coordinator = release t.coordinator state.guarded;
                      states =
                          insert session
                            (record { remaining = state.remaining - 1; guarded = false })
                            t.states;
                    }
                    else record t {
                      states =
                          insert session
                            (record state { remaining = state.remaining - 1 })
                            t.states;
                    }).states)
        last true hb =
            Keeps-insert s session state
              (record { remaining = state.remaining - 1; guarded = false }) t.states hx
              (omega arith, λ h r. absurd (ground (arith, ==_iff (state.remaining - 1) 0)))
        last false hb =
            Keeps-insert s session state (record state { remaining = state.remaining - 1 }) t.states
              hx (omega arith, λ h r. h)

Step-Keeps : (s : Str) (t u : Tracker) → Step t u → Keeps (lookup s t.states) (lookup s u.states)
Step-Keeps s _ _ (enters t u session needs_lock g h) = enter-Keeps s t u session needs_lock g h
Step-Keeps s _ _ (completes t session needs_lock) = complete-Keeps s t session needs_lock
Step-Keeps s _ _ (drops t h) = Keeps-refl (lookup s t.states)

-- Any number of steps.
pub data Steps : Tracker → Tracker → Type 0 where
  none_left : (t : Tracker) → Steps t t
  more : (t u v : Tracker) → Step t u → Steps u v → Steps t v

steps-Keeps : (s : Str) (t u : Tracker) → Steps t u → Keeps (lookup s t.states) (lookup s u.states)
steps-Keeps s _ _ (none_left t) = Keeps-refl (lookup s t.states)
steps-Keeps s _ _ (more t u v h rest) =
    let (first_less, first_held) = Step-Keeps s t u h in
    let (rest_less, rest_held) = steps-Keeps s u v rest in
    (omega arith, λ x r. rest_held (first_held x (omega arith)) r)

-- However the nodes of all sessions go on, a session that holds the guard still holds it while one
-- of its nodes has not completed.
pub guard_until_last_node :
    (s : Str) (t u : Tracker)
    → Steps t u
    → held_of (lookup s t.states) ≡ true
    → 0 < remaining_of (lookup s u.states)
    → held_of (lookup s u.states) ≡ true
guard_until_last_node s t u h = (steps-Keeps s t u h).1

-- `n` completions of nodes of `s`.
unfoldable pub complete_times : ℕ → Str → Tracker → Tracker
complete_times zero s t = t
complete_times (suc n) s t = complete_times n s (complete t (some s) true)

complete_lem :
    (s : Str) (t : Tracker) (state : InteractiveState)
    → lookup s t.states ≡ some state
    → lookup s (complete t (some s) true).states
      ≡ some (record {
        remaining = state.remaining - 1;
        guarded = if state.remaining - 1 == 0 then false else state.guarded;
      })
unfolding complete complete_session
complete_lem s t state h =
    ap
      (λ (x : Option InteractiveState).
        lookup s (elim x as (λ x. Tracker) [ some y ↦ complete_session t s y | none ↦ t ]).states)
      h
    ∙ last (state.remaining - 1 == 0)
  where
    inserted : (x : InteractiveState) → lookup s (insert s x t.states) ≡ some x
    inserted x =
        lookup-insert s s x t.states
        ∙ ap (λ (b : Bool). if b then some x else lookup s t.states) (==_refl s)

    last :
        (b : Bool)
        → lookup s
            (if b
              then record {
                coordinator = release t.coordinator state.guarded;
                states =
                    insert s (record { remaining = state.remaining - 1; guarded = false }) t.states;
              }
              else record t {
                states = insert s (record state { remaining = state.remaining - 1 }) t.states;
              }).states
          ≡ some (record {
            remaining = state.remaining - 1;
            guarded = if b then false else state.guarded;
          })
    last true = inserted (record { remaining = state.remaining - 1; guarded = false })
    last false = inserted (record state { remaining = state.remaining - 1 })

-- When all the remaining nodes of a session have completed, at least one, its guard is free.
pub last_completion_releases :
    (n : ℕ) (s : Str) (t : Tracker) (state : InteractiveState)
    → lookup s t.states ≡ some state
    → state.remaining ≤ suc n
    → held_of (lookup s (complete_times (suc n) s t).states) ≡ false
unfolding complete_times
last_completion_releases zero s t state h less =
    rw (complete_lem s t state h) (ground (arith, ==_iff (state.remaining - 1) 0))
last_completion_releases (suc n) s t state h less =
    last_completion_releases n s (complete t (some s) true) _ (complete_lem s t state h)
      (omega arith)
