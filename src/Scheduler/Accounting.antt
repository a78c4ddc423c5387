-- ===== src/Scheduler/Accounting.antt =====
-- What the scheduler keeps as long as no node fails and nobody cancels: it counts every node that is
-- ready, and ends when none is left.
use octa.Common.{
  ℕ, suc, ◌+◌, ◌*◌, ◌<◌, String, ◌≡◌, refl, sym, subst, ap, ◌∙◌, Bool, true, false, Bool-cases, inl,
  inr, ◌⊎◌, Option-cases, none, some, List, [], ◌∷◌, ◌++◌, arith, ◌==◌, string_eq, nat_eq, ==_iff,
  if◌then◌else◌, count, length, length-append, lookup,
}
use octa.Dag.{Identifiable, DagResult, ok, panic, Degrees}
use octa.Dag.Edges.{ids, in_degree}
use octa.Dag.Relax.{degree_if, zero_degree}
use octa.Dag.Cycles.{IsWellFormed}
use octa.Scheduler.{
  Plan, Shared, begin, reach, record_task, send_ready, is_deferred, schedule_initial_tasks,
  initial_tasks,
}
use octa.Scheduler.Runs.{Event, Worker}
use octa.Scheduler.Lowering.{initialize-Counts, DagResult-ok, ok-injective}
use octa.Scheduler.Loads.{starts, publications, total, busy, pending}
use octa.Scheduler.Preserved.{counted_named}

module _ {T : Type 0} (I : Identifiable T) (p : Plan T) where
  open I use {id}

  -- No barrier is a root of the graph.
  abbrev pub DeferredHaveSources : Type 0
  DeferredHaveSources = (v : String) → is_deferred p v ≡ true → 0 < in_degree id v p.dag.edges

  pub record Full (h : List Event) (s : Shared T) (ws : List (Worker T)) : Type 0 where
    pub ready :
        (v : String)
        → zero_degree (lookup v s.in_degree)
          ≡ count v (starts h) + count v (ids id s.queue) + total (pending I v) ws
    pub begun : (v : String) → count v (starts h) ≡ total (busy I v) ws + count v (publications h)
    pub active : s.active_tasks ≡ length s.queue + length ws
    pub ended : s.finished ≡ true → s.active_tasks ≡ 0
    pub going : s.finished ≡ false → 0 < s.active_tasks
    pub closed : s.receiving ≡ false → s.finished ≡ true

  pub length-around :
      (before after : List (Worker T)) (w : Worker T)
      → length (before ++ w ∷ after) ≡ suc (length (before ++ after))
  length-around before after w =
      omega (arith, length-append before (w ∷ after), length-append before after)

  pub reach-cases :
      (s : Shared T) (n : T)
      → (reach I p n s ≡ s)
        ⊎ (reach I p n s ≡ record s { completed_tasks = record_task (id n) s.completed_tasks })
  unfolding reach
  reach-cases s n = elim (Bool-cases (is_deferred p (id n))) [
    | inl e ↦ inr (ground (arith, e))
    | inr e ↦ inl (ground (arith, e))
  ]

  initial_tasks-all :
      (ns initial : List T) (m : Degrees)
      → ((v : String) → is_deferred p v ≡ true → zero_degree (lookup v m) ≡ 0)
      → initial_tasks I p ns m ≡ ok initial
      → (v : String) → count v (ids id initial) ≡ count v (ids id ns) * zero_degree (lookup v m)
  unfolding initial_tasks
  initial_tasks-all [] initial m h e v =
      subst (λ q. count v (ids id q) ≡ 0 * zero_degree (lookup v m)) (ok-injective e) (omega arith)
  initial_tasks-all (n ∷ ns) initial m h e v =
      let (rest, e', step) = DagResult-ok (initial_tasks I p ns m) _ initial e in
      kept rest (is_deferred p (id n)) refl (initial_tasks-all ns rest m h e' v) step
    where
      Counted : List T → Type 0
      Counted q = count v (ids id q) ≡ count v (ids id (n ∷ ns)) * zero_degree (lookup v m)

      added :
          (rest : List T) (c : ℕ)
          → lookup (id n) m ≡ some c
          → count v (ids id rest) ≡ count v (ids id ns) * zero_degree (lookup v m)
          → Counted (if c == 0 then n ∷ rest else rest)
      added rest c found counted = ground (arith, found, counted, ==_iff (id n) v)

      kept :
          (rest : List T) (b : Bool)
          → is_deferred p (id n) ≡ b
          → count v (ids id rest) ≡ count v (ids id ns) * zero_degree (lookup v m)
          → (if b then ok rest else elim (lookup (id n) m) as (λ x. DagResult (List T)) [
            | none ↦ panic
            | some c ↦ ok (if c == 0 then n ∷ rest else rest)
          ])
            ≡ ok initial
          → Counted initial
      kept rest true d counted h2 =
          subst Counted (ok-injective h2) (ground (arith, counted, h (id n) d, ==_iff (id n) v))
      kept rest false d counted h2 = elim (Option-cases (lookup (id n) m)) [
        | inl e ↦ absurd (ground (arith, h2, e))
        | inr (c, e) ↦ subst Counted (ok-injective (ground (arith, h2, e))) (added rest c e counted)
      ]

  pub send_ready-cancelled : (next : T) (s : Shared T) → (send_ready next s).cancelled ≡ s.cancelled
  unfolding send_ready
  send_ready-cancelled next s = ground arith

  module _ (g : IsWellFormed I p.dag) (rooted : DeferredHaveSources) where
    pub start-Full : (s : Shared T) → begin I p ≡ ok s → Full [] s []
    unfolding begin schedule_initial_tasks
    start-Full s h =
        let (m, counted, rest) = DagResult-ok _ (schedule_initial_tasks I p) s h in
        let (initial, sent, built) = DagResult-ok (initial_tasks I p p.dag.nodes m) _ s rest in
        let (m', counted', degrees') = initialize-Counts I p.dag (counted_named I p g) in
        let same : m' ≡ m = ok-injective (sym counted' ∙ counted) in
        let known : (v : String)
            → lookup v m ≡ degree_if (count v (ids id p.dag.nodes)) (in_degree id v p.dag.edges) =
          λ v. ap (lookup v) (sym same) ∙ degrees' v in
        let none_deferred : (v : String) → is_deferred p v ≡ true → zero_degree (lookup v m) ≡ 0 =
          λ v d. ground (arith, known v, rooted v d) in
        subst (λ t. Full [] t []) (ok-injective built)
          (record {
            ready = λ v. ground (
              arith,
              initial_tasks-all p.dag.nodes initial m none_deferred sent v,
              known v,
              g.distinct v,
            );
            begun = λ v. omega arith;
            active = omega arith;
            ended = λ e. ground (arith, e, ==_iff (length initial) 0);
            going = λ e. ground (arith, e, ==_iff (length initial) 0);
            closed = λ e. absurd cc;
          })
