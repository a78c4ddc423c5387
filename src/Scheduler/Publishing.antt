-- ===== src/Scheduler/Publishing.antt =====
-- A node that succeeded can tell its dependants so, and takes its edges away.
use octa.Common.{
  ℕ, String, ◌≡◌, sym, subst, ◌∙◌, List, ◌∷◌, ◌++◌, arith, string_eq, nat_eq, ==_refl, count,
  lookup,
}
use octa.Dag.{Identifiable, ok, Degrees}
use octa.Dag.Edges.{
  ids, in_degree, in_degree-lookup, remaining, lookup-remaining, remaining-KeysDistinct,
}
use octa.Dag.Relax.{zero_degree}
use octa.Dag.Cycles.{IsWellFormed}
use octa.Scheduler.{Plan, recorded, Shared, lower_dependants}
use octa.Scheduler.Runs.{Event, published, Worker}
use octa.Scheduler.Lowering.{Lowered, Lowers, lower_dependants_lem, ok-injective}
use octa.Scheduler.Loads.{publications, busy}
use octa.Scheduler.Invariant.{zero_degree-le, Inv, around}

module _ {T : Type 0} (I : Identifiable T) (p : Plan T) where
  open I use {id}

  module _ (g : IsWellFormed I p.dag) where
    abbrev pub left : List Event → String → ℕ
    left h v = in_degree id v (remaining (publications h) p.dag.edges)

    -- The dependants of a node that succeeded can be told so.
    publish_lem :
        (h : List Event) (s : Shared T) (before after : List (Worker T)) (n : T)
        → Inv I p h s (before ++ (n, recorded) ∷ after)
        → Lowers I
            (ids id p.dag.nodes)
            (left (published (id n) ∷ h))
            (λ v. zero_degree (lookup v s.in_degree))
            (lower_dependants I (lookup (id n) p.dag.edges) s.in_degree)
    unfolding remaining
    publish_lem h s before after n i =
        lower_dependants_lem I (ids id p.dag.nodes) (left (published (id n) ∷ h))
          (λ v. zero_degree (lookup v s.in_degree)) (lookup (id n) p.dag.edges) s.in_degree
          (g.targets (id n))
          (record {
            degrees = λ v. ground (
              arith,
              i.degrees v,
              in_degree-lookup id v (id n) (remaining (publications h) p.dag.edges)
                  (remaining-KeysDistinct (publications h) p.dag.edges g.keys),
              lookup-remaining (id n) (publications h) p.dag.edges,
              fresh,
            );
            released = λ v. omega arith;
          })
      where
        fresh : count (id n) (publications h) ≡ 0
        fresh = ground (
          arith,
          i.begun (id n),
          i.once (id n),
          around I p (busy I (id n)) before after (n, recorded),
          ==_refl (id n),
          zero_degree-le (lookup (id n) s.in_degree),
        )

    pub publish-Lowered :
        (h : List Event) (s : Shared T) (before after : List (Worker T)) (n : T) (m : Degrees)
        (ready : List T)
        → Inv I p h s (before ++ (n, recorded) ∷ after)
        → lower_dependants I (lookup (id n) p.dag.edges) s.in_degree ≡ ok (m, ready)
        → Lowered
            (ids id p.dag.nodes)
            (left (published (id n) ∷ h))
            (λ v. zero_degree (lookup v s.in_degree))
            m
            (ids id ready)
    publish-Lowered h s before after n m ready i e =
        let (m', ready', e', low) = publish_lem h s before after n i in
        let same : ◌≡◌ {A = Degrees × List T} (m', ready') (m, ready) = ok-injective (sym e' ∙ e) in
        subst
          (λ (x : Degrees × List T).
            Lowered (ids id p.dag.nodes) (left (published (id n) ∷ h))
              (λ v. zero_degree (lookup v s.in_degree)) x.0 (ids id x.1))
          same low
