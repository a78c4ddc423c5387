-- ===== src/Dag/Build.antt =====
-- The methods that build a graph: what they add, what they refuse, and the invariant they keep.
use octa.Common.{
  ◌+◌, String, ◌≡◌, ◌↔◌, refl, List, [], ◌∷◌, arith, ◌==◌, string_eq, nat_eq, ==_iff, if◌then◌else◌,
  count, lookup, insert, lookup-insert, insert-KeysDistinct, true, false, ◌&&◌, ◌⊎◌, inl, inr,
  Bool-cases, ltb,
}
use octa.Dag.{
  Identifiable, Dag, ok, err, node_not_found, contains_node, insert_node, new, or_default, add_node,
  add_dependency,
}
use octa.Dag.Edges.{ids, targets_of}
use octa.Dag.Sort.{Edge}
use octa.Dag.Cycles.{IsWellFormed}

module _ {T : Type 0} (I : Identifiable T) where
  open I use {id, node_eq, node_eq-id}

  contains_node_lem :
      (n : T) (xs : List T) → contains_node I xs n ≡ ltb 0 (count (id n) (ids id xs))
  contains_node_lem n [] = refl
  contains_node_lem n (x ∷ xs) = ground (arith, contains_node_lem n xs, node_eq-id x n)

  count-insert_node :
      (v : String) (n : T) (xs : List T)
      → count v (ids id (insert_node I n xs))
        ≡ (if contains_node I xs n then 0 else if id n == v then 1 else 0) + count v (ids id xs)
  count-insert_node v n xs = ground arith

  or_default_lem :
      (k : String) (es : List (String × List T))
      → ids id (or_default I k es) ≡ targets_of id (lookup k es)
  unfolding or_default
  or_default_lem k es = ground arith

  abbrev pub with_dependency : Dag T → T → T → Dag T
  with_dependency d from to = record d {
    edges = insert (id from) (insert_node I to (or_default I (id from) d.edges)) d.edges;
  }

  -- `u` gets a new target at most: `to`, if `u` is `from` and has no such edge.
  count-with_dependency :
      (d : Dag T) (from to : T) (u v : String)
      → count v (targets_of id (lookup u (with_dependency d from to).edges))
        ≡ (if id from == u
            then if ltb 0 (count (id to) (targets_of id (lookup u d.edges)))
              then 0
              else if id to == v
              then 1
              else 0
            else 0)
          + count v (targets_of id (lookup u d.edges))
  count-with_dependency d from to u v = elim (Bool-cases (id from == u)) [
    | inl same ↦ ground (
      arith,
      lookup-insert (id from) u (insert_node I to (or_default I (id from) d.edges)) d.edges,
      ==_iff (id from) u,
      same,
      or_default_lem (id from) d.edges,
      count-insert_node v to (or_default I (id from) d.edges),
      contains_node_lem to (or_default I (id from) d.edges),
    )
    | inr other ↦ ground (
      arith,
      lookup-insert (id from) u (insert_node I to (or_default I (id from) d.edges)) d.edges,
      other,
    )
  ]

  with_dependency-Edge :
      (d : Dag T) (from to : T) (u v : String)
      → Edge I (with_dependency d from to).edges u v
        ↔ (Edge I d.edges u v ⊎ ((id from ≡ u) × (id to ≡ v)))
  with_dependency-Edge d from to u v = elim (Bool-cases (id from == u && id to == v)) [
    | inl both ↦ (
      λ _. inr (ground (arith, both, ==_iff (id from) u), ground (arith, both, ==_iff (id to) v)),
      λ _. ground (arith, both, count-with_dependency d from to u v, ==_iff (id to) v),
    )
    | inr not_both ↦ (
      λ edge. inl (ground (arith, edge, not_both, count-with_dependency d from to u v)),
      λ h. ground (
        arith,
        h,
        count-with_dependency d from to u v,
        ==_iff (id from) u,
        ==_iff (id to) v,
        not_both,
      ),
    )
  ]

  -- The outcomes of `add_dependency`, with the condition and the effect of each.
  abbrev pub DependencyOutcome : Dag T → T → T → Type 0
  DependencyOutcome d from to =
      ((e : Dag T) × (add_dependency I d from to ≡ ok e)
        × (e.nodes ≡ d.nodes)
        × (contains_node I d.nodes from ≡ true)
        × (contains_node I d.nodes to ≡ true)
        × ((u v : String)
            → Edge I e.edges u v ↔ (Edge I d.edges u v ⊎ ((id from ≡ u) × (id to ≡ v)))))
      ⊎ ((add_dependency I d from to ≡ err (node_not_found (id from)))
          × (contains_node I d.nodes from ≡ false))
      ⊎ ((add_dependency I d from to ≡ err (node_not_found (id to)))
          × (contains_node I d.nodes from ≡ true)
          × (contains_node I d.nodes to ≡ false))

  -- If both nodes were added, `add_dependency` keeps the nodes and the edges and adds just the edge
  -- between the two; else it fails with the id of the first one that is missing.
  pub add_dependency_lem : (d : Dag T) (from to : T) → DependencyOutcome d from to
  unfolding add_dependency
  add_dependency_lem d from to = elim (Bool-cases (contains_node I d.nodes from)) [
    | inr no_from ↦ inr (inl (rw no_from, no_from))
    | inl has_from ↦ elim (Bool-cases (contains_node I d.nodes to)) [
      | inr no_to ↦ inr (inr (rw (has_from, no_to), has_from, no_to))
      | inl has_to ↦ inl (
        with_dependency d from to,
        rw (has_from, has_to),
        refl,
        has_from,
        has_to,
        with_dependency-Edge d from to,
      )
    ]
  ]

  pub new-IsWellFormed : IsWellFormed I (new I)
  new-IsWellFormed = record {
    distinct = λ v. omega arith;
    keys = tt;
    sources = λ u v e. absurd (omega arith);
    targets = λ u v e. absurd (omega arith);
  }

  -- Adding a node gives the graph no edge and takes none.
  add_node-Edge :
      (d : Dag T) (n : T) (u v : String) → Edge I (add_node I d n).edges u v ↔ Edge I d.edges u v
  unfolding add_node
  add_node-Edge d n u v =
      let same : count v (targets_of id (lookup u (add_node I d n).edges))
          ≡ count v (targets_of id (lookup u d.edges)) =
        ground (
          arith,
          lookup-insert (id n) u (or_default I (id n) d.edges) d.edges,
          ==_iff (id n) u,
          or_default_lem (id n) d.edges,
        ) in
      (λ e. omega (arith, same, e), λ e. omega (arith, same, e))

  -- The node set after `add_node` holds the node, once, and the old nodes.
  count-add_node :
      (d : Dag T) (n : T) (v : String)
      → count v (ids id (add_node I d n).nodes)
        ≡ (if ltb 0 (count (id n) (ids id d.nodes)) then 0 else if id n == v then 1 else 0)
          + count v (ids id d.nodes)
  unfolding add_node
  count-add_node d n v = ground (arith, count-insert_node v n d.nodes, contains_node_lem n d.nodes)

  -- A graph built by `add_node` and `add_dependency` is well formed: adding a node keeps the
  -- invariant.
  pub add_node-IsWellFormed :
      (d : Dag T) (n : T) → IsWellFormed I d → IsWellFormed I (add_node I d n)
  unfolding add_node
  add_node-IsWellFormed d n g = record {
    distinct = λ v. ground (arith, count-add_node d n v, g.distinct v, ==_iff (id n) v);
    keys = insert-KeysDistinct (id n) _ d.edges g.keys;
    sources =
        λ u v e. omega (arith, g.sources u v ((add_node-Edge d n u v).0 e), count-add_node d n u);
    targets =
        λ u v e. omega (arith, g.targets u v ((add_node-Edge d n u v).0 e), count-add_node d n v);
  }

  pub with_dependency-IsWellFormed :
      (d : Dag T) (from to : T)
      → IsWellFormed I d
      → contains_node I d.nodes from ≡ true
      → contains_node I d.nodes to ≡ true
      → IsWellFormed I (with_dependency d from to)
  with_dependency-IsWellFormed d from to g has_from has_to = record {
    distinct = g.distinct;
    keys = insert-KeysDistinct (id from) _ d.edges g.keys;
    sources = λ u v e. elim ((with_dependency-Edge d from to u v).0 e) [
      | inl old ↦ g.sources u v old
      | inr hit ↦ ground (arith, hit, has_from, contains_node_lem from d.nodes)
    ];
    targets = λ u v e. elim ((with_dependency-Edge d from to u v).0 e) [
      | inl old ↦ g.targets u v old
      | inr hit ↦ ground (arith, hit, has_to, contains_node_lem to d.nodes)
    ];
  }
