-- ===== src/Dag/Cycles.antt =====
-- `has_cycle` decides whether some walk along edges comes back to where it began.
use octa.Common.{
  ℕ, zero, suc, ◌+◌, ◌<◌, ◌≤◌, String, ◌≡◌, ◌≢◌, ◌↔◌, List, [], ◌∷◌, arith, ◌==◌, string_eq, nat_eq,
  ==_iff, ==_refl, if◌then◌else◌, count, length, length-le_of_count, length-map, Bool, true, false,
  ◌⊎◌, inl, inr, Bool-cases, ltb, ltb→lt, sym, subst,
}
use octa.Dag.{
  Identifiable, Dag, ok, Degrees, node_count, perform_topological_sort, has_cycle,
  calculate_in_degrees, roots,
}
use octa.Dag.Edges.{
  ids, in_degree, in_degree_source, remaining, lookup-remaining, remaining-KeysDistinct,
}
use octa.Dag.Start.{calculate_in_degrees_lem, roots_lem}
use octa.Dag.Sort.{Edge, IsGraph, IsTopological, Inv, sort_loop_lem}

-- The position of `v`, counted from the end of the list.
pub rank : String → List String → ℕ
rank v [] = 0
rank v (x ∷ xs) = let rest = rank v xs in if x == v then suc (length xs) else rest

rank-le : (v : String) (xs : List String) → rank v xs ≤ length xs
unfolding rank
rank-le v [] = omega arith
rank-le v (x ∷ xs) = ground (arith, rank-le v xs)

-- Some member of `xs` is missing in `ys`, or none is.
pub missing :
    (xs ys : List String)
    → ((v : String) × (0 < count v xs) × (count v ys ≡ 0))
      ⊎ ((v : String) → 0 < count v xs → 0 < count v ys)
missing [] ys = inr (λ v h. absurd (omega arith))
missing (x ∷ xs) ys = elim (Bool-cases (ltb 0 (count x ys))) [
  | inr none_x ↦ inl (x, ground (arith, ==_refl x), ground arith)
  | inl some_x ↦ elim (missing xs ys) [
    | inl (v, here, absent) ↦ inl (v, omega arith, absent)
    | inr rest ↦ inr (λ v h. ground (arith, rest v, ==_iff x v, ltb→lt _ _ some_x))
  ]
]

module _ {T : Type 0} (I : Identifiable T) where
  open I use {id}

  -- A path of at least one edge.
  pub data Walk (es : List (String × List T)) : String → String → Type 0 where
    last : {u v : String} → Edge I es u v → Walk es u v
    step : {u w v : String} → Edge I es u w → Walk es w v → Walk es u v

  Edge-rank :
      (es : List (String × List T)) (vs : List String) (u v : String)
      → IsTopological I es vs
      → ((x : String) → count x vs ≤ 1)
      → Edge I es u v
      → 0 < count v vs
      → (0 < count u vs) × (rank u vs < rank v vs)
  unfolding rank
  Edge-rank es [] u v top once edge here = absurd (omega arith)
  Edge-rank es (x ∷ xs) u v top once edge here = elim (Bool-cases (x == v)) [
    | inl same ↦
        let e : x ≡ v = (==_iff x v).0 same in
        let below = top.0 u (subst (λ z. Edge I es u z) (sym e) edge) in
        (omega (arith, below), ground (arith, below, rank-le u xs, once x, ==_iff x u, same))
    | inr other ↦
        let rest =
          Edge-rank es xs u v top.1 (λ y. omega (arith, once y)) edge (ground (arith, other)) in
        (omega (arith, rest), ground (arith, rest, once x, ==_iff x u, other))
  ]

  pub Walk-rank :
      (es : List (String × List T)) (vs : List String)
      → IsTopological I es vs
      → ((x : String) → count x vs ≤ 1)
      → ((x y : String) → Edge I es x y → 0 < count y vs)
      → {u v : String} → Walk es u v
      → rank u vs < rank v vs
  Walk-rank es vs top once known (last {u} {v} edge) =
      (Edge-rank es vs u v top once edge (known u v edge)).1
  Walk-rank es vs top once known (step {u} {w} {v} edge walk) = omega (
    arith,
    (Edge-rank es vs u w top once edge (known u w edge)).1,
    Walk-rank es vs top once known walk,
  )

  -- A list in which each member has an edge to the one behind it.
  abbrev pub IsChain : List (String × List T) → String → List String → Type 0
  IsChain es w [] = Unit
  IsChain es w (x ∷ xs) = Edge I es w x × IsChain es x xs

  chain-Walk :
      (es : List (String × List T)) (w : String) (ws : List String) (u v : String)
      → IsChain es w ws
      → Edge I es v w
      → 0 < count u (w ∷ ws)
      → Walk es v u
  chain-Walk es w [] u v chain edge here =
      subst (λ z. Walk es v z) ((==_iff w u).0 (ground arith)) (last edge)
  chain-Walk es w (x ∷ xs) u v chain edge here = elim (Bool-cases (w == u)) [
    | inl same ↦ subst (λ z. Walk es v z) ((==_iff w u).0 same) (last edge)
    | inr other ↦ step edge (chain-Walk es x xs u w chain.1 chain.0 (ground (arith, other)))
  ]

  -- A set of nodes in which each has a predecessor holds a cycle: a backward walk that meets
  -- no node twice is no longer than the list of nodes.
  pub find_cycle :
      (es : List (String × List T)) (names : List String) (Stuck : String → Type 0)
      → ((v : String) → Stuck v → 0 < count v names)
      → ((v : String) → Stuck v → (u : String) × Edge I es u v × Stuck u)
      → (fuel : ℕ) (w : String) (ws : List String) → length names < fuel + length (w ∷ ws)
      → ((x : String) → count x (w ∷ ws) ≤ count x names)
      → IsChain es w ws
      → Stuck w
      → (v : String) × Walk es v v
  find_cycle es names Stuck known pred zero w ws h within chain stuck =
      absurd (omega (arith, length-le_of_count (w ∷ ws) names within))
  find_cycle es names Stuck known pred (suc fuel) w ws h within chain stuck =
      let (u, edge, stuck') = pred w stuck in
      elim (Bool-cases (ltb 0 (count u (w ∷ ws)))) [
        | inl met ↦ (u, chain-Walk es w ws u u chain edge (ltb→lt _ _ met))
        | inr fresh ↦
            find_cycle es names Stuck known pred fuel u (w ∷ ws) (omega arith)
              (λ x. ground (arith, within x, known u stuck', ==_iff u x, fresh)) (edge, chain)
              stuck'
      ]

module _ {T : Type 0} (I : Identifiable T) where
  open I use {id}

  -- What the methods that build a graph keep.
  abbrev pub IsWellFormed : Dag T → Type 0
  IsWellFormed d = IsGraph I (ids id d.nodes) d.edges

  module _ (names : List String) (es : List (String × List T)) (g : IsGraph I names es)
      (popped : List String) (m : Degrees) (inv : Inv I names es popped m []) where
    pub popped-le : (v : String) → count v popped ≤ count v names
    popped-le v = ground (arith, inv.relaxed.queued v, inv.relaxed.degrees v, g.distinct v)

    pub all_popped :
        length popped ≡ length names → (v : String) → 0 < count v names → 0 < count v popped
    all_popped h v named = elim (Bool-cases (ltb 0 (count v popped))) [
      | inl here ↦ ltb→lt _ _ here
      | inr absent ↦ absurd (
          omega (
            arith,
            length-le_of_count (v ∷ popped) names
                (λ x. ground (arith, popped-le x, ==_iff v x, absent, named)),
          ))
    ]

    pub no-Walk : length popped ≡ length names → (v : String) → ¬ Walk I es v v
    no-Walk h v walk = absurd (
        omega (
          arith,
          Walk-rank I es popped inv.topological (λ x. omega (arith, popped-le x, g.distinct x))
              (λ x y edge. all_popped h y (g.targets x y edge)) walk,
        ))

    abbrev Stuck : String → Type 0
    Stuck v = (0 < count v names) × (count v popped ≡ 0)

    predecessor : (v : String) → Stuck v → (u : String) × Edge I es u v × Stuck u
    predecessor v (named, absent) =
        let (u, edge) =
          in_degree_source id v (remaining popped es) (remaining-KeysDistinct popped es g.keys)
            (ground (arith, inv.relaxed.queued v, inv.relaxed.degrees v, named, absent)) in
        let kept = lookup-remaining u popped es in
        let edge' : Edge I es u v = ground (arith, edge, kept) in
        (u, edge', (g.sources u v edge', ground (arith, edge, kept)))

    pub some-Walk : length popped ≢ length names → (v : String) × Walk I es v v
    some-Walk h = elim (missing names popped) [
      | inl (w, named, absent) ↦
          find_cycle I es names Stuck (λ v s. s.0) predecessor (length names) w [] (omega arith)
            (λ x. ground (arith, ==_iff w x)) tt (named, absent)
      | inr all_here ↦ absurd (
          h (
            omega (
              arith,
              length-le_of_count popped names popped-le,
              length-le_of_count names popped (λ x. ground (arith, all_here x, g.distinct x)),
            )))
    ]

  -- Some edge into `v` has a source and a target in the graph.
  counted_named :
      (d : Dag T)
      → IsWellFormed d
      → (v : String) → 0 < in_degree id v d.edges
      → 0 < count v (ids id d.nodes)
  counted_named d g v h =
      let (k, edge) = in_degree_source id v d.edges g.keys h in g.targets k v edge

  pub start-Inv :
      (d : Dag T)
      → IsWellFormed d
      → (m : Degrees) × (queue : List String) × (calculate_in_degrees I d ≡ ok m)
        × (roots I d.nodes m [] ≡ ok queue)
        × Inv I (ids id d.nodes) d.edges [] m queue
  unfolding remaining
  start-Inv d g =
      let (m, e, degrees) = calculate_in_degrees_lem I d (counted_named d g) in
      let (queue, r, counts) =
        roots_lem I d.nodes m [] (λ v h. (in_degree id v d.edges, ground (arith, degrees v, h))) in
      (
        m,
        queue,
        e,
        r,
        record {
          relaxed = record {
            degrees = degrees;
            queued = λ v. ground (arith, counts v, degrees v, g.distinct v);
          };
          topological = tt;
        },
      )

  abbrev Decides : Dag T → Bool → Type 0
  Decides d true = (v : String) × Walk I d.edges v v
  Decides d false = (v : String) → ¬ Walk I d.edges v v

  has_cycle-Decides :
      (d : Dag T) → IsWellFormed d → (b : Bool) × (has_cycle I d ≡ ok b) × Decides d b
  unfolding has_cycle perform_topological_sort node_count
  has_cycle-Decides d g =
      let (m, queue, e, r, inv) = start-Inv d g in
      let names = ids id d.nodes in
      let (n, s, visits) =
        sort_loop_lem I names d.edges g (suc (length d.nodes)) [] m queue
          (omega (arith, length-map id d.nodes)) inv in
      let (popped, m', counted, final) = visits in
      elim (Bool-cases (n == length d.nodes)) [
        | inl every ↦ (
          false,
          rw (e, r, s, every),
          no-Walk names d.edges g popped m' final
              (ground (arith, every, counted, length-map id d.nodes)),
        )
        | inr fewer ↦ (
          true,
          rw (e, r, s, fewer),
          some-Walk names d.edges g popped m' final
              (λ h. ground (arith, fewer, counted, length-map id d.nodes, h)),
        )
      ]

  true_iff :
      (d : Dag T) (b : Bool)
      → has_cycle I d ≡ ok b
      → Decides d b
      → (has_cycle I d ≡ ok true) ↔ ((v : String) × Walk I d.edges v v)
  true_iff d true e h = (λ _. h, λ _. e)
  true_iff d false e h = (λ e'. cc, λ (v, walk). absurd (h v walk))

  false_iff :
      (d : Dag T) (b : Bool)
      → has_cycle I d ≡ ok b
      → Decides d b
      → (has_cycle I d ≡ ok false) ↔ ((v : String) → ¬ Walk I d.edges v v)
  false_iff d false e h = (λ _. h, λ _. e)
  false_iff d true e (v, walk) = (λ e'. cc, λ h. absurd (h v walk))

  -- On a well-formed graph `has_cycle` answers true exactly when some node lies on a closed walk of
  -- at least one edge.
  pub has_cycle-true_iff :
      (d : Dag T) → IsWellFormed d → (has_cycle I d ≡ ok true) ↔ ((v : String) × Walk I d.edges v v)
  has_cycle-true_iff d g = let (b, e, h) = has_cycle-Decides d g in true_iff d b e h

  -- On a well-formed graph `has_cycle` answers false, with no error, no panic and within its fuel,
  -- exactly when no node lies on a closed walk.
  pub has_cycle-false_iff :
      (d : Dag T)
      → IsWellFormed d
      → (has_cycle I d ≡ ok false) ↔ ((v : String) → ¬ Walk I d.edges v v)
  has_cycle-false_iff d g = let (b, e, h) = has_cycle-Decides d g in false_iff d b e h
