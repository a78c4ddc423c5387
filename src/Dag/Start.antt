-- ===== src/Dag/Start.antt =====
-- The degree map and the queue that the loops start from.
use octa.Common.{
  ℕ, ◌+◌, ◌*◌, ◌<◌, String, ◌≡◌, refl, some, List, [], ◌∷◌, arith, ◌==◌, string_eq, nat_eq, ==_iff,
  ==_refl, if◌then◌else◌, count, lookup, insert, lookup-insert,
}
use octa.Dag.{
  Identifiable, Dag, DagResult, ok, Degrees, zero_degrees, count_targets, count_edges, roots,
  calculate_in_degrees,
}
use octa.Dag.Edges.{ids, in_degree}
use octa.Dag.Relax.{degree_if, zero_degree}

abbrev pub HasDegrees : List String → (String → ℕ) → Degrees → Type 0
HasDegrees names total m = (v : String) → lookup v m ≡ degree_if (count v names) (total v)

abbrev pub Counts : List String → (String → ℕ) → DagResult Degrees → Type 0
Counts names total r = (m : Degrees) × (r ≡ ok m) × HasDegrees names total m

-- One edge more into `k`.
increment-HasDegrees :
    (names : List String) (before after : String → ℕ) (m : Degrees) (k : String)
    → ((v : String) → after v ≡ (if k == v then 1 else 0) + before v)
    → HasDegrees names before m
    → 0 < count k names
    → HasDegrees names after (insert k (before k + 1) m)
increment-HasDegrees names before after m k split known named v =
    ground (arith, known v, lookup-insert k v (before k + 1) m, ==_iff k v, split v)

module _ {T : Type 0} (I : Identifiable T) where
  open I use {id}

  zero_degrees-HasDegrees : (ns : List T) → HasDegrees (ids id ns) (λ _. 0) (zero_degrees I ns)
  unfolding zero_degrees
  zero_degrees-HasDegrees [] v = refl
  zero_degrees-HasDegrees (n ∷ ns) v = ground (
    arith,
    lookup-insert (id n) v 0 (zero_degrees I ns),
    zero_degrees-HasDegrees ns v,
    ==_iff (id n) v,
  )

  count_targets_lem :
      (names : List String) (before after : String → ℕ) (ns : List T) (m : Degrees)
      → ((v : String) → 0 < count v (ids id ns) → 0 < count v names)
      → ((v : String) → after v ≡ count v (ids id ns) + before v)
      → HasDegrees names before m
      → Counts names after (count_targets I ns m)
  unfolding count_targets
  count_targets_lem names before after [] m known split inv =
      (m, refl, λ v. ground (arith, inv v, split v))
  count_targets_lem names before after (n ∷ ns) m known split inv =
      rw (found, count_targets)
        (count_targets_lem names (λ v. (if id n == v then 1 else 0) + before v) after ns _
          (λ v h. known v (omega arith)) (λ v. omega (arith, split v))
          (increment-HasDegrees names before _ m (id n) (λ v. refl) inv named))
    where
      named : 0 < count (id n) names
      named = known (id n) (ground (arith, ==_refl (id n)))

      found : lookup (id n) m ≡ some (before (id n))
      found = ground (arith, inv (id n), named)

  count_edges_lem :
      (names : List String) (before after : String → ℕ) (es : List (String × List T)) (m : Degrees)
      → ((v : String) → 0 < in_degree id v es → 0 < count v names)
      → ((v : String) → after v ≡ in_degree id v es + before v)
      → HasDegrees names before m
      → Counts names after (count_edges I es m)
  unfolding count_edges
  count_edges_lem names before after [] m known split inv =
      (m, refl, λ v. ground (arith, inv v, split v))
  count_edges_lem names before after ((k, ns) ∷ es) m known split inv =
      let (m', e, inv') =
        count_targets_lem names before (λ v. count v (ids id ns) + before v) ns m
          (λ v h. known v (omega arith)) (λ v. refl) inv in
      rw e (
        count_edges_lem names (λ v. count v (ids id ns) + before v) after es m'
          (λ v h. known v (omega arith)) (λ v. omega (arith, split v)) inv')

  -- The map that the loops start from counts each node's incoming edges.
  pub calculate_in_degrees_lem :
      (d : Dag T)
      → ((v : String) → 0 < in_degree id v d.edges → 0 < count v (ids id d.nodes))
      → Counts (ids id d.nodes) (λ v. in_degree id v d.edges) (calculate_in_degrees I d)
  unfolding calculate_in_degrees
  calculate_in_degrees_lem d known =
      count_edges_lem (ids id d.nodes) (λ _. 0) _ d.edges _ known (λ v. omega arith)
        (zero_degrees-HasDegrees d.nodes)

  -- The queue holds just the nodes that no edge points at.
  pub roots_lem :
      (ns : List T) (m : Degrees) (queue : List String)
      → ((v : String) → 0 < count v (ids id ns) → (n : ℕ) × (lookup v m ≡ some n))
      → (q : List String) × (roots I ns m queue ≡ ok q)
        × ((v : String)
            → count v q ≡ count v (ids id ns) * zero_degree (lookup v m) + count v queue)
  unfolding roots
  roots_lem [] m queue known = (queue, refl, λ v. omega arith)
  roots_lem (n ∷ ns) m queue known =
      let (c, found) = known (id n) (ground (arith, ==_refl (id n))) in
      let (q, e, counts) =
        roots_lem ns m (if c == 0 then id n ∷ queue else queue) (λ v h. known v (omega arith)) in
      (q, rw (found, roots) e, λ v. ground (arith, counts v, ==_iff (id n) v, found))
