-- ===== src/Dag/Sort.antt =====
-- The loop of `perform_topological_sort`: its invariant, and what it leaves.
use octa.Common.{
  ℕ, zero, suc, ◌+◌, ◌<◌, ◌≤◌, String, ◌≡◌, refl, List, [], ◌∷◌, arith, string_eq, nat_eq, ==_refl,
  count, length, length-le_of_count, lookup, KeysDistinct, ◌++◌, count-append, length-append,
}
use native.Mathlib.Numerals.{add-one}
use octa.Dag.{Identifiable, ok, Degrees, visit, sort_loop}
use octa.Dag.Edges.{
  in_degree, in_degree-lookup, targets_of, remaining, lookup-remaining, remaining-KeysDistinct,
}
use octa.Dag.Relax.{degree_if, zero_degree, Relaxed, visit_lem}

module _ {T : Type 0} (I : Identifiable T) where
  open I use {id}

  -- There is an edge from `u` to `v`.
  abbrev pub Edge : List (String × List T) → String → String → Type 0
  Edge es u v = 0 < count v (targets_of id (lookup u es))

  -- The graph that the methods build: ids and keys are distinct, and edges join nodes.
  pub record IsGraph (names : List String) (es : List (String × List T)) : Type 0 where
    pub distinct : (v : String) → count v names ≤ 1
    pub keys : KeysDistinct es
    pub sources : (u v : String) → Edge es u v → 0 < count u names
    pub targets : (u v : String) → Edge es u v → 0 < count v names

  -- Newest first: every edge into a listed node comes from a node further down.
  abbrev pub IsTopological : List (String × List T) → List String → Type 0
  IsTopological es [] = Unit
  IsTopological es (v ∷ vs) = ((u : String) → Edge es u v → 0 < count u vs) × IsTopological es vs

  -- `popped` holds the nodes that were visited, newest first.
  pub record Inv (names : List String) (es : List (String × List T)) (popped : List String)
      (m : Degrees) (queue : List String) : Type 0 where
    pub relaxed :
        Relaxed names (λ v. in_degree id v (remaining popped es)) (λ v. count v popped) m queue
    pub topological : IsTopological es popped

  module _ (names : List String) (es : List (String × List T)) (g : IsGraph names es) where
    zero_degree-le : (n k : ℕ) → n ≤ 1 → zero_degree (degree_if n k) ≤ n
    zero_degree-le n k h = ground arith

    abbrev pub Bounded : List String → Type 0
    Bounded vs = (v : String) → count v vs ≤ count v names

    pub Inv-Bounded :
        {popped queue : List String} {m : Degrees}
        → Inv names es popped m queue
        → Bounded (queue ++ popped)
    Inv-Bounded {popped} {queue} {m} inv v = ground (
      arith,
      count-append v queue popped,
      inv.relaxed.queued v,
      inv.relaxed.degrees v,
      g.distinct v,
    )

    -- All edges into a queued node come from visited ones.
    pub queued_sources :
        (popped : List String) (m : Degrees) (v : String) (queue : List String)
        → Inv names es popped m (v ∷ queue)
        → (u : String) → Edge es u v
        → 0 < count u popped
    queued_sources popped m v queue inv u edge = ground (
      arith,
      inv.relaxed.degrees v,
      inv.relaxed.queued v,
      ==_refl v,
      in_degree-lookup id v u (remaining popped es) (remaining-KeysDistinct popped es g.keys),
      lookup-remaining u popped es,
    )

    pub queued_fresh :
        (popped : List String) (m : Degrees) (v : String) (queue : List String)
        → Inv names es popped m (v ∷ queue)
        → count v popped ≡ 0
    queued_fresh popped m v queue inv =
        ground (arith, inv.relaxed.queued v, inv.relaxed.degrees v, g.distinct v, ==_refl v)

    -- Taking a node from the queue sets its outgoing edges apart from those that stay.
    pop-Relaxed :
        (popped : List String) (m : Degrees) (node : String) (queue : List String)
        → Inv names es popped m (node ∷ queue)
        → Relaxed names
            (λ v.
              count v (targets_of id (lookup node es))
              + in_degree id v (remaining (node ∷ popped) es))
            (λ v. count v (node ∷ popped))
            m
            queue
    unfolding remaining
    pop-Relaxed popped m node queue inv = record {
      degrees = λ v. ground (
        arith,
        inv.relaxed.degrees v,
        in_degree-lookup id v node (remaining popped es) (remaining-KeysDistinct popped es g.keys),
        lookup-remaining node popped es,
        queued_fresh popped m node queue inv,
      );
      queued = λ v. omega (arith, inv.relaxed.queued v);
    }

    pub step-Inv :
        (popped : List String) (m : Degrees) (node : String) (queue : List String)
        → Inv names es popped m (node ∷ queue)
        → (m' : Degrees) × (queue' : List String) × (visit I (lookup node es) m queue
            ≡ ok (m', queue'))
          × Inv names es (node ∷ popped) m' queue'
    step-Inv popped m node queue inv =
        let (m', queue', e, relaxed) =
          visit_lem I names (λ v. in_degree id v (remaining (node ∷ popped) es))
            (λ v. count v (node ∷ popped)) (lookup node es) m queue (g.targets node)
            (pop-Relaxed popped m node queue inv) in
        (
          m',
          queue',
          e,
          record {
            relaxed = relaxed;
            topological = (queued_sources popped m node queue inv, inv.topological);
          },
        )

    abbrev pub Visits : ℕ → Type 0
    Visits n =
        (popped : List String) × (m : Degrees) × (n ≡ length popped) × Inv names es popped m []

    pub sort_loop_lem :
        (fuel : ℕ) (popped : List String) (m : Degrees) (queue : List String)
        → length names < fuel + length popped
        → Inv names es popped m queue
        → (n : ℕ) × (sort_loop I fuel es m queue (length popped) ≡ ok n) × Visits n
    unfolding sort_loop
    sort_loop_lem zero popped m queue h inv = absurd (
        omega (
          arith,
          length-append queue popped,
          length-le_of_count (queue ++ popped) names (Inv-Bounded inv),
        ))
    sort_loop_lem (suc fuel) popped m [] h inv = (length popped, refl, (popped, m, refl, inv))
    sort_loop_lem (suc fuel) popped m (node ∷ queue) h inv =
        let (m', queue', e, inv') = step-Inv popped m node queue inv in
        let (n, r, visits) = sort_loop_lem fuel (node ∷ popped) m' queue' (omega arith) inv' in
        (n, rw (e, add-one (length popped)) r, visits)
