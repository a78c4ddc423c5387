-- ===== src/Scheduler/Lowering.antt =====
-- The degrees that a plan starts from and that its workers lower.
use octa.Common.{
  ℕ, suc, ◌+◌, ◌*◌, ◌<◌, ◌≤◌, String, ◌≡◌, refl, subst, Bool, true, false, Option-cases, inl, inr,
  Option, none, some, List, [], ◌∷◌, ◌++◌, arith, ◌==◌, string_eq, nat_eq, ==_iff, ==_refl,
  if◌then◌else◌, count, lookup, insert, lookup-insert,
}
use octa.Dag.{
  Identifiable, Dag, DagResult, ok, err, panic, out_of_fuel, ◌>>=◌, Degrees, zero_degrees,
  count_targets, count_edges, calculate_in_degrees,
}
use octa.Dag.Edges.{ids, in_degree, targets_of}
use octa.Dag.Relax.{zero_degree}
use octa.Dag.Start.{HasDegrees, Counts, calculate_in_degrees_lem}
use octa.Scheduler.{
  Plan, is_deferred, add_dependencies, initialize_in_degrees, initial_tasks, lower,
  lower_dependants,
}

-- `used` is how often a node was ready before.
pub record Lowered (names : List String) (left used : String → ℕ) (m : Degrees)
    (ready : List String) : Type 0 where
  pub degrees : HasDegrees names left m
  pub released : (v : String) → count v ready + used v ≡ zero_degree (lookup v m)

-- A chain of two results succeeds only if both do.
pub DagResult-ok :
    {A B : Type 0} (r : DagResult A) (f : A → DagResult B) (b : B)
    → (r >>= f) ≡ ok b
    → (a : A) × (r ≡ ok a) × (f a ≡ ok b)
DagResult-ok (ok a) f b h = (a, refl, h)
DagResult-ok (err e) f b h = absurd cc
DagResult-ok panic f b h = absurd cc
DagResult-ok out_of_fuel f b h = absurd cc

pub ok-injective : {A : Type 0} {a b : A} → ok a ≡ ok b → a ≡ b
ok-injective h = cc

module _ {T : Type 0} (I : Identifiable T) where
  open I use {id}

  pub count_ids-append :
      (v : String) (xs ys : List T)
      → count v (ids id (xs ++ ys)) ≡ count v (ids id xs) + count v (ids id ys)
  count_ids-append v [] ys = omega arith
  count_ids-append v (x ∷ xs) ys = ground (arith, count_ids-append v xs ys)

  abbrev pub Lowers :
      List String → (String → ℕ) → (String → ℕ) → DagResult (Degrees × List T) → Type 0
  Lowers names left used r =
      (m : Degrees) × (ready : List T) × (r ≡ ok (m, ready))
      × Lowered names left used m (ids id ready)

  push_ready : ℕ → T → List T → List T
  push_ready c n ready = if c == 0 then ready ++ n ∷ [] else ready

  decrement-Lowered :
      (names : List String) (before left used : String → ℕ) (m : Degrees) (ready : List T) (n : T)
      → ((v : String) → before v ≡ (if id n == v then 1 else 0) + left v)
      → Lowered names before used m (ids id ready)
      → 0 < count (id n) names
      → Lowered names left used
          (insert (id n) (left (id n)) m)
          (ids id (push_ready (left (id n)) n ready))
  unfolding push_ready
  decrement-Lowered names before left used m ready n split inv named = record {
    degrees = λ v.
        ground
          (arith, inv.degrees v, lookup-insert (id n) v (left (id n)) m, ==_iff (id n) v, split v);
    released = λ v. ground (
      arith,
      inv.degrees v,
      inv.released v,
      lookup-insert (id n) v (left (id n)) m,
      ==_iff (id n) v,
      split v,
      count_ids-append v ready (n ∷ []),
    );
  }

  -- Lowering the degrees of known dependants takes each edge away once.
  pub lower_lem :
      (names : List String) (left used : String → ℕ) (ns : List T) (m : Degrees) (ready : List T)
      → ((v : String) → 0 < count v (ids id ns) → 0 < count v names)
      → Lowered names (λ v. count v (ids id ns) + left v) used m (ids id ready)
      → Lowers names left used (lower I ns m ready)
  unfolding lower
  lower_lem names left used [] m ready known inv = (
    m,
    ready,
    refl,
    record { degrees = λ v. ground (arith, inv.degrees v); released = inv.released },
  )
  lower_lem names left used (n ∷ ns) m ready known inv =
      rw (found, lower)
        (lower_lem names left used ns _ _ (λ v h. known v (omega arith))
          (unfold push_ready in
            decrement-Lowered names _ (λ v. count v (ids id ns) + left v) used m ready n
              (λ v. omega arith) inv named))
    where
      named : 0 < count (id n) names
      named = known (id n) (ground (arith, ==_refl (id n)))

      found : lookup (id n) m ≡ some (suc (count (id n) (ids id ns) + left (id n)))
      found = ground (arith, inv.degrees (id n), ==_refl (id n), named)

  pub lower_dependants_lem :
      (names : List String) (left used : String → ℕ) (deps : Option (List T)) (m : Degrees)
      → ((v : String) → 0 < count v (targets_of id deps) → 0 < count v names)
      → Lowered names (λ v. count v (targets_of id deps) + left v) used m []
      → Lowers names left used (lower_dependants I deps m)
  unfolding lower_dependants
  lower_dependants_lem names left used none m known inv = (
    m,
    [],
    refl,
    record { degrees = λ v. ground (arith, inv.degrees v); released = inv.released },
  )
  lower_dependants_lem names left used (some deps) m known inv =
      lower_lem names left used deps m [] known inv

  -- The executor counts as the graph does.
  add_dependencies_lem :
      (ns : List T) (m m' : Degrees)
      → count_targets I ns m ≡ ok m'
      → add_dependencies I ns m ≡ ok m'
  unfolding count_targets add_dependencies
  add_dependencies_lem [] m m' h = h
  add_dependencies_lem (n ∷ ns) m m' h = elim (Option-cases (lookup (id n) m)) [
    | inl e ↦ absurd (ground (arith, h, e))
    | inr (c, e) ↦
        rw (e, add_dependencies)
          (add_dependencies_lem ns (insert (id n) (c + 1) m) m' (ground (arith, h, e)))
  ]

  initialize_in_degrees_lem :
      (es : List (String × List T)) (m m' : Degrees)
      → count_edges I es m ≡ ok m'
      → initialize_in_degrees I es m ≡ ok m'
  unfolding count_edges initialize_in_degrees
  initialize_in_degrees_lem [] m m' h = h
  initialize_in_degrees_lem ((k, ns) ∷ es) m m' h =
      let (m1, e, rest) = DagResult-ok _ (count_edges I es) m' h in
      rw (add_dependencies_lem ns m m1 e) (initialize_in_degrees_lem es m1 m' rest)

  pub initialize-Counts :
      (d : Dag T)
      → ((v : String) → 0 < in_degree id v d.edges → 0 < count v (ids id d.nodes))
      → Counts
          (ids id d.nodes)
          (λ v. in_degree id v d.edges)
          (initialize_in_degrees I d.edges (zero_degrees I d.nodes))
  unfolding calculate_in_degrees
  initialize-Counts d known =
      let (m, e, counts) = calculate_in_degrees_lem I d known in
      (m, initialize_in_degrees_lem d.edges _ m e, counts)

  -- Only nodes without an incoming edge are sent first.
  pub initial_tasks_lem :
      (p : Plan T) (ns initial : List T) (m : Degrees)
      → initial_tasks I p ns m ≡ ok initial
      → (v : String) → count v (ids id initial) ≤ count v (ids id ns) * zero_degree (lookup v m)
  unfolding initial_tasks
  initial_tasks_lem p [] initial m h v =
      subst (λ q. count v (ids id q) ≤ 0 * zero_degree (lookup v m)) (ok-injective h) (omega arith)
  initial_tasks_lem p (n ∷ ns) initial m h v =
      let (rest, e, step) = DagResult-ok (initial_tasks I p ns m) _ initial h in
      kept rest (is_deferred p (id n)) (initial_tasks_lem p ns rest m e v) step
    where
      added :
          (rest : List T) (c : ℕ)
          → lookup (id n) m ≡ some c
          → count v (ids id rest) ≤ count v (ids id ns) * zero_degree (lookup v m)
          → count v (ids id (if c == 0 then n ∷ rest else rest))
            ≤ count v (ids id (n ∷ ns)) * zero_degree (lookup v m)
      added rest c found bound = ground (arith, found, bound, ==_iff (id n) v)

      kept :
          (rest : List T) (b : Bool)
          → count v (ids id rest) ≤ count v (ids id ns) * zero_degree (lookup v m)
          → (if b then ok rest else elim (lookup (id n) m) as (λ x. DagResult (List T)) [
            | none ↦ panic
            | some c ↦ ok (if c == 0 then n ∷ rest else rest)
          ])
            ≡ ok initial
          → count v (ids id initial) ≤ count v (ids id (n ∷ ns)) * zero_degree (lookup v m)
      kept rest true bound h2 =
          subst (λ q. count v (ids id q) ≤ count v (ids id (n ∷ ns)) * zero_degree (lookup v m))
            (ok-injective h2) (ground (arith, bound))
      kept rest false bound h2 = elim (Option-cases (lookup (id n) m)) [
        | inl e ↦ absurd (ground (arith, h2, e))
        | inr (c, e) ↦
            subst (λ q. count v (ids id q) ≤ count v (ids id (n ∷ ns)) * zero_degree (lookup v m))
              (ok-injective (ground (arith, h2, e))) (added rest c e bound)
      ]
