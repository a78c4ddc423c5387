-- ===== src/Dag/Lines.antt =====
-- Paths along edges that hold all nodes, beside the nodes that a topological sort has visited.
use octa.Common.{
  ◌<◌, String, ◌≡◌, ◌≢◌, List, [], ◌∷◌, arith, ◌==◌, string_eq, nat_eq, ==_iff, count, inl, inr,
  Bool-cases, subst, sym,
}
use octa.Dag.{Identifiable, Degrees}
use octa.Dag.Edges.{in_degree-lookup, remaining, lookup-remaining, remaining-KeysDistinct}
use octa.Dag.Sort.{Edge, IsGraph, IsTopological, Inv, queued_fresh}

module _ {T : Type 0} (I : Identifiable T) where
  open I use {id}

  abbrev pub LinksTo : List (String × List T) → String → List String → Type 0
  LinksTo es v [] = Unit
  LinksTo es v (u ∷ us) = Edge I es u v

  -- Newest first: each node has an edge from the one behind it.
  abbrev pub IsPath : List (String × List T) → List String → Type 0
  IsPath es [] = Unit
  IsPath es (v ∷ vs) = LinksTo es v vs × IsPath es vs

  -- All nodes on one path that is also a topological order.
  pub record IsLine (names : List String) (es : List (String × List T)) (p : List String)
      : Type 0 where
    pub path : IsPath es p
    pub topological : IsTopological I es p
    pub members : (v : String) → count v p ≡ count v names

  module _ (names : List String) (es : List (String × List T)) (g : IsGraph I names es) where
    -- What a visit of the only queued node queues are targets of that node.
    pub queued-Edge :
        (popped : List String) (m m' : Degrees) (node : String) (queue' : List String)
        → Inv I names es popped m (node ∷ [])
        → Inv I names es (node ∷ popped) m' queue'
        → (v : String) → 0 < count v queue'
        → Edge I es node v
    unfolding remaining
    queued-Edge popped m m' node queue' inv inv' v h = ground (
      arith,
      h,
      inv.relaxed.queued v,
      inv'.relaxed.queued v,
      inv.relaxed.degrees v,
      inv'.relaxed.degrees v,
      in_degree-lookup id v node (remaining popped es) (remaining-KeysDistinct popped es g.keys),
      lookup-remaining node popped es,
      queued_fresh I names es g popped m node [] inv,
    )

    popped_source :
        (popped : List String) (u v : String)
        → IsTopological I es popped
        → Edge I es u v
        → 0 < count v popped
        → 0 < count u popped
    popped_source [] u v top edge here = absurd (omega arith)
    popped_source (x ∷ xs) u v top edge here = elim (Bool-cases (x == v)) [
      | inl same ↦
          let below = top.0 u (subst (λ z. Edge I es u z) (sym ((==_iff x v).0 same)) edge) in
          omega (arith, below)
      | inr other ↦ omega (arith, popped_source xs u v top.1 edge (ground (arith, other)))
    ]

    -- A set of visited nodes holds everything behind its members on a path.
    behind_popped :
        (popped : List String)
        → IsTopological I es popped
        → (u : String) (us : List String) → IsPath es (u ∷ us)
        → 0 < count u popped
        → (v : String) → 0 < count v (u ∷ us)
        → 0 < count v popped
    behind_popped popped top u [] path here v h =
        subst (λ z. 0 < count z popped) ((==_iff u v).0 (ground arith)) here
    behind_popped popped top u (w ∷ us) path here v h = elim (Bool-cases (u == v)) [
      | inl same ↦ subst (λ z. 0 < count z popped) ((==_iff u v).0 same) here
      | inr other ↦
          behind_popped popped top w us path.1 (popped_source popped w u top path.0 here) v
            (ground (arith, other))
    ]

    -- `v` is not visited, and all of its predecessors are.
    abbrev pub Ready : List String → String → Type 0
    Ready popped v = (count v popped ≡ 0) × ((u : String) → Edge I es u v → 0 < count u popped)

    nothing_behind :
        (popped : List String)
        → IsTopological I es popped
        → (a b : String) (xs : List String) → IsPath es (a ∷ xs)
        → Ready popped a
        → Ready popped b
        → a ≢ b
        → ¬ (0 < count b xs)
    nothing_behind popped top a b [] path ra rb ne h = absurd (omega arith)
    nothing_behind popped top a b (u ∷ us) path ra rb ne h =
        absurd (omega (arith, rb.0, behind_popped popped top u us path.1 (ra.1 u path.0) b h))

    pub one-Ready :
        (popped : List String)
        → IsTopological I es popped
        → (a b : String) (p : List String) → IsPath es p
        → Ready popped a
        → Ready popped b
        → a ≢ b
        → 0 < count a p
        → ¬ (0 < count b p)
    one-Ready popped top a b [] path ra rb ne ha hb = absurd (omega arith)
    one-Ready popped top a b (x ∷ xs) path ra rb ne ha hb = elim (Bool-cases (x == a)) [
      | inl is_a ↦
          let e = (==_iff x a).0 is_a in
          nothing_behind popped top a b xs (subst (λ z. IsPath es (z ∷ xs)) e path) ra rb ne
            (ground (arith, hb, ne, ==_iff x b, e))
      | inr not_a ↦ elim (Bool-cases (x == b)) [
        | inl is_b ↦
            let e = (==_iff x b).0 is_b in
            nothing_behind popped top b a xs (subst (λ z. IsPath es (z ∷ xs)) e path) rb ra
              (λ q. ne (sym q)) (ground (arith, ha, not_a))
        | inr not_b ↦
            one-Ready popped top a b xs path.1 ra rb ne (ground (arith, ha, not_a))
              (ground (arith, hb, not_b))
      ]
    ]
