-- ===== src/Scheduler/Preserved.antt =====
-- Every step of a run keeps the invariant.
use octa.Common.{
  ◌+◌, ◌≤◌, ◌<◌, String, ◌≡◌, sym, subst, ap, ◌∙◌, List, [], ◌∷◌, ◌++◌, arith, string_eq, nat_eq,
  ==_refl, count, lookup,
}
use octa.Dag.{Identifiable, ok, Degrees}
use octa.Dag.Edges.{
  ids, in_degree, in_degree-lookup, in_degree_source, remaining, lookup-remaining,
  remaining-KeysDistinct,
}
use octa.Dag.Relax.{zero_degree}
use octa.Dag.Sort.{Edge}
use octa.Dag.Cycles.{IsWellFormed}
use octa.Scheduler.{
  Plan, starting, executing, recorded, releasing, Shared, begin, reach, record_success,
  lower_dependants, send_ready, schedule_initial_tasks, initial_tasks,
}
use octa.Scheduler.Runs.{Event, started, succeeded, failed, published, Worker}
use octa.Scheduler.Lowering.{initialize-Counts, initial_tasks_lem, DagResult-ok, ok-injective}
use octa.Scheduler.Loads.{publications, total, is_node, busy, settled, pending}
use octa.Scheduler.Invariant.{
  zero_degree-le, Inv, Inv-fewer, around, exchange, reach-queue, reach-degrees, send_ready-degrees,
  send_ready-queue,
}
use octa.Scheduler.Publishing.{publish-Lowered}

module _ {T : Type 0} (I : Identifiable T) (p : Plan T) where
  open I use {id}

  module _ (g : IsWellFormed I p.dag) where
    pub counted_named :
        (v : String) → 0 < in_degree id v p.dag.edges → 0 < count v (ids id p.dag.nodes)
    counted_named v h =
        let (k, edge) = in_degree_source id v p.dag.edges g.keys h in g.targets k v edge

    pub start-Inv : (s : Shared T) → begin I p ≡ ok s → Inv I p [] s []
    unfolding begin schedule_initial_tasks remaining
    start-Inv s h =
        let (m, counted, rest) = DagResult-ok _ (schedule_initial_tasks I p) s h in
        let (initial, sent, built) = DagResult-ok (initial_tasks I p p.dag.nodes m) _ s rest in
        let (m', counted', degrees') = initialize-Counts I p.dag counted_named in
        let same : m' ≡ m = ok-injective (sym counted' ∙ counted) in
        subst (λ t. Inv I p [] t []) (ok-injective built)
          (record {
            degrees = λ v. ground (arith, degrees' v, ap (lookup v) same);
            once = λ v. ground (
              arith,
              initial_tasks_lem I p p.dag.nodes initial m sent v,
              g.distinct v,
              zero_degree-le (lookup v m),
            );
            begun = λ v. omega arith;
            known = λ v. omega arith;
            ordered = tt;
          })

    pub receive-Inv :
        (h : List Event) (s : Shared T) (ws : List (Worker T)) (n : T) (queue : List T)
        → Inv I p h s ws
        → s.queue ≡ n ∷ queue
        → Inv I p (started (id n) ∷ h) (record s { queue = queue }) ((n, starting) ∷ ws)
    receive-Inv h s ws n queue i hq = record {
      degrees = i.degrees;
      once = λ v. ground (arith, i.once v, ap (λ q. count v (ids id q)) hq);
      begun = λ v. ground (arith, i.begun v);
      known = λ v. ground (arith, i.known v);
      ordered = (λ u edge. ground (arith, i.known u, published_first u edge), i.ordered);
    }
      where
        published_first : (u : String) → Edge I p.dag.edges u (id n) → 0 < count u (publications h)
        published_first u edge = ground (
          arith,
          i.degrees (id n),
          i.once (id n),
          ap (λ q. count (id n) (ids id q)) hq,
          ==_refl (id n),
          in_degree-lookup id (id n) u (remaining (publications h) p.dag.edges)
              (remaining-KeysDistinct (publications h) p.dag.edges g.keys),
          lookup-remaining u (publications h) p.dag.edges,
        )

    pub succeed-Inv :
        (h : List Event) (s : Shared T) (before after : List (Worker T)) (n : T)
        → Inv I p h s (before ++ (n, executing) ∷ after)
        → Inv I p (succeeded (id n) ∷ h) (record_success I n s) (before ++ (n, recorded) ∷ after)
    unfolding record_success
    succeed-Inv h s before after n i = record {
      degrees = i.degrees;
      once = λ v.
          omega
            (arith, i.once v, exchange I p (pending I v) before after (n, executing) (n, recorded));
      begun = λ v.
          omega
            (arith, i.begun v, exchange I p (busy I v) before after (n, executing) (n, recorded));
      known = λ v.
          ground (
            arith,
            i.known v,
            exchange I p (settled I v) before after (n, executing) (n, recorded),
          );
      ordered = i.ordered;
    }

    pub publish-Inv :
        (h : List Event) (s : Shared T) (before after : List (Worker T)) (n : T) (m : Degrees)
        (ready : List T)
        → Inv I p h s (before ++ (n, recorded) ∷ after)
        → lower_dependants I (lookup (id n) p.dag.edges) s.in_degree ≡ ok (m, ready)
        → Inv I p
            (published (id n) ∷ h)
            (record s { in_degree = m })
            (before ++ (n, releasing ready) ∷ after)
    publish-Inv h s before after n m ready i e =
        let low = publish-Lowered I p g h s before after n m ready i e in
        record {
          degrees = low.degrees;
          once = λ v. ground (
            arith,
            i.once v,
            low.released v,
            exchange I p (pending I v) before after (n, recorded) (n, releasing ready),
          );
          begun = λ v. ground (
            arith,
            i.begun v,
            exchange I p (busy I v) before after (n, recorded) (n, releasing ready),
          );
          known = λ v. ground (
            arith,
            i.known v,
            exchange I p (settled I v) before after (n, recorded) (n, releasing ready),
          );
          ordered = i.ordered;
        }

    pub send-Inv :
        (h : List Event) (s : Shared T) (before after : List (Worker T)) (n next : T)
        (ready : List T)
        → Inv I p h s (before ++ (n, releasing (next ∷ ready)) ∷ after)
        → Inv I p h (send_ready next s) (before ++ (n, releasing ready) ∷ after)
    send-Inv h s before after n next ready i = record {
      degrees = λ v. ap (lookup v) (send_ready-degrees I p next s) ∙ i.degrees v;
      once = λ v. ground (
        arith,
        i.once v,
        fewer v,
        send_ready-queue I p next s v,
        ap (λ m. zero_degree (lookup v m)) (send_ready-degrees I p next s),
      );
      begun = λ v. omega (
        arith,
        i.begun v,
        exchange I p (busy I v) before after (n, releasing (next ∷ ready)) (n, releasing ready),
      );
      known = λ v. omega (
        arith,
        i.known v,
        exchange I p (settled I v) before after (n, releasing (next ∷ ready)) (n, releasing ready),
      );
      ordered = i.ordered;
    }
      where
        fewer :
            (v : String)
            → total (pending I v) (before ++ (n, releasing ready) ∷ after) + is_node I v next
              ≤ total (pending I v) (before ++ (n, releasing (next ∷ ready)) ∷ after)
        fewer v = omega (
          arith,
          exchange I p (pending I v) before after (n, releasing (next ∷ ready))
              (n, releasing ready),
        )

    pub same_Inv :
        (h : List Event) (s t : Shared T) (ws : List (Worker T))
        → Inv I p h s ws
        → t.in_degree ≡ s.in_degree
        → t.queue ≡ s.queue
        → Inv I p h t ws
    same_Inv h s t ws i hd hq =
        Inv-fewer I p h s t ws ws i hd hq (λ v. omega arith) (λ v. omega arith) (λ v. omega arith)

    -- A worker that goes, or goes on without having succeeded.
    pub gone-Inv :
        (h : List Event) (s t : Shared T) (before after : List (Worker T)) (w : Worker T)
        → Inv I p h s (before ++ w ∷ after)
        → t.in_degree ≡ s.in_degree
        → t.queue ≡ s.queue
        → Inv I p h t (before ++ after)
    gone-Inv h s t before after w i hd hq =
        Inv-fewer I p h s t (before ++ w ∷ after) (before ++ after) i hd hq
          (λ v. omega (arith, around I p (pending I v) before after w))
          (λ v. omega (arith, around I p (busy I v) before after w))
          (λ v. omega (arith, around I p (settled I v) before after w))

    pub failed-Inv :
        (h : List Event) (s : Shared T) (ws : List (Worker T)) (k : String)
        → Inv I p h s ws
        → Inv I p (failed k ∷ h) s ws
    failed-Inv h s ws k i = record {
      degrees = i.degrees;
      once = i.once;
      begun = i.begun;
      known = i.known;
      ordered = i.ordered;
    }

    pub execute-Inv :
        (h : List Event) (s : Shared T) (before after : List (Worker T)) (n : T)
        → Inv I p h s (before ++ (n, starting) ∷ after)
        → Inv I p h (reach I p n s) (before ++ (n, executing) ∷ after)
    execute-Inv h s before after n i =
        Inv-fewer I p h s (reach I p n s) (before ++ (n, starting) ∷ after)
          (before ++ (n, executing) ∷ after) i (reach-degrees I p s n) (reach-queue I p s n)
          (λ v. omega (arith, exchange I p (pending I v) before after (n, starting) (n, executing)))
          (λ v. omega (arith, exchange I p (busy I v) before after (n, starting) (n, executing)))
          (λ v. omega (arith, exchange I p (settled I v) before after (n, starting) (n, executing)))
