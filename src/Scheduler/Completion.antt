-- ===== src/Scheduler/Completion.antt =====
-- What a run has done when its plan ends without a failure or a cancellation.
use octa.Common.{
  ◌<◌, String, ◌≡◌, ◌↔◌, refl, ap, true, false, Bool-cases, inl, inr, List, [], ◌∷◌, arith,
  string_eq, nat_eq, ==_iff, count, length, ltb, ltb→lt,
}
use octa.Dag.{Identifiable, ok, has_cycle}
use octa.Dag.Edges.{ids, in_degree_source, remaining, lookup-remaining, remaining-KeysDistinct}
use octa.Dag.Sort.{Edge}
use octa.Dag.Cycles.{IsWellFormed, find_cycle, has_cycle-false_iff}
use octa.Scheduler.{Plan, Shared}
use octa.Scheduler.Runs.{Event, Worker, Run}
use octa.Scheduler.Loads.{starts, successes, failures, publications}
use octa.Scheduler.Invariant.{Inv}
use octa.Scheduler.Order.{Run-Inv, starts_once}
use octa.Scheduler.Accounting.{DeferredHaveSources, Full}
use octa.Scheduler.Counting.{Run-Full}

empty_of_length : {A : Type 0} (xs : List A) → length xs ≡ 0 → xs ≡ []
empty_of_length [] h = refl
empty_of_length (x ∷ xs) h = absurd (omega arith)

module _ {T : Type 0} (I : Identifiable T) (p : Plan T) (g : IsWellFormed I p.dag)
    (rooted : DeferredHaveSources I p) where
  open I use {id}

  -- In a run of a well-formed plan none of whose barriers is a root, in which no node failed and
  -- nobody cancelled, the plan is finished just when no node is queued and no worker is left.
  pub finished_iff_idle :
      (h : List Event) (s : Shared T) (ws : List (Worker T))
      → Run I p h s ws
      → s.cancelled ≡ false
      → failures h ≡ []
      → (s.finished ≡ true) ↔ ((s.queue ≡ []) × (ws ≡ []))
  finished_iff_idle h s ws r c e = (idle, finished)
    where
      f : Full I p h s ws
      f = Run-Full I p g rooted h s ws r c e

      idle : s.finished ≡ true → (s.queue ≡ []) × (ws ≡ [])
      idle x = (
        empty_of_length s.queue (omega (arith, f.ended x, f.active)),
        empty_of_length ws (omega (arith, f.ended x, f.active)),
      )

      finished : (s.queue ≡ []) × (ws ≡ []) → s.finished ≡ true
      finished (q, w) = elim (Bool-cases s.finished) [
        | inl x ↦ x
        | inr x ↦ absurd (
            ground (
              arith,
              f.going x,
              f.active,
              ap (λ (l : List T). length l) q,
              ap (λ (l : List (Worker T)). length l) w,
            ))
      ]

  module _ (h : List Event) (s : Shared T) (i : Inv I p h s []) (f : Full I p h s [])
      (empty : s.queue ≡ []) where
    abbrev Stuck : String → Type 0
    Stuck v = (0 < count v (ids id p.dag.nodes)) × (count v (publications h) ≡ 0)

    -- A node that did not get its turn waits for another such node.
    predecessor : (v : String) → Stuck v → (u : String) × Edge I p.dag.edges u v × Stuck u
    predecessor v (named, absent) =
        let (u, edge) =
          in_degree_source id v (remaining (publications h) p.dag.edges)
            (remaining-KeysDistinct (publications h) p.dag.edges g.keys)
            (ground (
              arith,
              f.ready v,
              f.begun v,
              ap (λ q. count v (ids id q)) empty,
              i.degrees v,
              named,
              absent,
            )) in
        let kept = lookup-remaining u (publications h) p.dag.edges in
        let edge' : Edge I p.dag.edges u v = ground (arith, edge, kept) in
        (u, edge', (g.sources u v edge', ground (arith, edge, kept)))

    published_all :
        has_cycle I p.dag ≡ ok false
        → (v : String) → 0 < count v (ids id p.dag.nodes)
        → 0 < count v (publications h)
    published_all acyclic v named = elim (Bool-cases (ltb 0 (count v (publications h)))) [
      | inl x ↦ ltb→lt _ _ x
      | inr x ↦
          let (u, walk) =
            find_cycle I p.dag.edges (ids id p.dag.nodes) Stuck (λ w k. k.0) predecessor
              (length (ids id p.dag.nodes)) v [] (omega arith)
              (λ w. ground (arith, named, ==_iff v w)) tt (named, ground (arith, x)) in
          absurd ((has_cycle-false_iff I p.dag g).0 acyclic u walk)
    ]

  -- When the loop that starts nodes has ended, no worker is left, no node failed and nobody
  -- cancelled, then every node of a well-formed plan without cycles, none of whose barriers is a
  -- root, has run: it was started exactly once, and it succeeded.
  pub all_tasks_run :
      (h : List Event) (s : Shared T)
      → Run I p h s []
      → has_cycle I p.dag ≡ ok false
      → s.receiving ≡ false
      → s.cancelled ≡ false
      → failures h ≡ []
      → (v : String) → 0 < count v (ids id p.dag.nodes)
      → (count v (starts h) ≡ 1) × (0 < count v (successes h))
  all_tasks_run h s r acyclic closed c e v named =
      let i = Run-Inv I p g h s [] r in
      let f = Run-Full I p g rooted h s [] r c e in
      let idle = (finished_iff_idle h s [] r c e).0 (f.closed closed) in
      let told = published_all h s i f idle.0 acyclic v named in
      (omega (arith, told, f.begun v, starts_once I p g h s [] v r), omega (arith, told, i.known v))
