-- ===== src/Scheduler/Invariant.antt =====
-- What every run keeps: degrees, starts and the order of events, and what a step that only lets
-- workers go keeps of it.
use octa.Common.{
  ℕ, ◌+◌, ◌≤◌, ◌<◌, String, ◌≡◌, ap, ◌∙◌, Option, none, some, List, [], ◌∷◌, ◌++◌, arith, string_eq,
  nat_eq, count, lookup,
}
use octa.Dag.{Identifiable}
use octa.Dag.Edges.{ids, in_degree, remaining}
use octa.Dag.Relax.{zero_degree}
use octa.Dag.Start.{HasDegrees}
use octa.Dag.Sort.{Edge}
use octa.Scheduler.{Plan, Shared, reach, send_ready}
use octa.Scheduler.Runs.{Event, started, succeeded, failed, published, Worker}
use octa.Scheduler.Lowering.{count_ids-append}
use octa.Scheduler.Loads.{
  starts, successes, publications, total, total-append, is_node, busy, settled, pending,
}

pub zero_degree-le : (o : Option ℕ) → zero_degree o ≤ 1
zero_degree-le none = omega arith
zero_degree-le (some n) = ground arith

module _ {T : Type 0} (I : Identifiable T) (p : Plan T) where
  open I use {id}

  -- What a node depends on succeeded before it started.
  abbrev pub Ordered : List Event → Type 0
  Ordered [] = Unit
  Ordered (started v ∷ h) =
      ((u : String) → Edge I p.dag.edges u v → 0 < count u (successes h)) × Ordered h
  Ordered (succeeded v ∷ h) = Ordered h
  Ordered (failed v ∷ h) = Ordered h
  Ordered (published v ∷ h) = Ordered h

  pub Ordered-split :
      (later earlier : List Event) (v : String)
      → Ordered (later ++ started v ∷ earlier)
      → (u : String) → Edge I p.dag.edges u v
      → 0 < count u (successes earlier)
  Ordered-split [] earlier v o = o.0
  Ordered-split (started w ∷ later) earlier v o = Ordered-split later earlier v o.1
  Ordered-split (succeeded w ∷ later) earlier v o = Ordered-split later earlier v o
  Ordered-split (failed w ∷ later) earlier v o = Ordered-split later earlier v o
  Ordered-split (published w ∷ later) earlier v o = Ordered-split later earlier v o

  pub record Inv (h : List Event) (s : Shared T) (ws : List (Worker T)) : Type 0 where
    pub degrees :
        HasDegrees
          (ids id p.dag.nodes)
          (λ v. in_degree id v (remaining (publications h) p.dag.edges))
          s.in_degree
    pub once :
        (v : String)
        → count v (starts h) + count v (ids id s.queue) + total (pending I v) ws
          ≤ zero_degree (lookup v s.in_degree)
    pub begun : (v : String) → total (busy I v) ws + count v (publications h) ≤ count v (starts h)
    pub known :
        (v : String) → total (settled I v) ws + count v (publications h) ≤ count v (successes h)
    pub ordered : Ordered h

  -- A step that neither touches degrees nor queue and adds to no load.
  pub Inv-fewer :
      (h : List Event) (s t : Shared T) (ws us : List (Worker T))
      → Inv h s ws
      → t.in_degree ≡ s.in_degree
      → t.queue ≡ s.queue
      → ((v : String) → total (pending I v) us ≤ total (pending I v) ws)
      → ((v : String) → total (busy I v) us ≤ total (busy I v) ws)
      → ((v : String) → total (settled I v) us ≤ total (settled I v) ws)
      → Inv h t us
  Inv-fewer h s t ws us i hd hq fewer_pending fewer_busy fewer_settled = record {
    degrees = λ v. ap (lookup v) hd ∙ i.degrees v;
    once = λ v. ground (
      arith,
      i.once v,
      fewer_pending v,
      ap (λ q. count v (ids id q)) hq,
      ap (λ m. zero_degree (lookup v m)) hd,
    );
    begun = λ v. ground (arith, i.begun v, fewer_busy v);
    known = λ v. ground (arith, i.known v, fewer_settled v);
    ordered = i.ordered;
  }

  -- The loads of a list around one worker.
  pub around :
      (f : Worker T → ℕ) (before after : List (Worker T)) (w : Worker T)
      → total f (before ++ w ∷ after) ≡ total f (before ++ after) + f w
  around f before after w =
      omega (arith, total-append f before (w ∷ after), total-append f before after)

  -- What a change of one worker changes.
  pub exchange :
      (f : Worker T → ℕ) (before after : List (Worker T)) (v w : Worker T)
      → total f (before ++ v ∷ after) + f w ≡ total f (before ++ w ∷ after) + f v
  exchange f before after v w = omega (arith, around f before after v, around f before after w)

  pub reach-queue : (s : Shared T) (n : T) → (reach I p n s).queue ≡ s.queue
  unfolding reach
  reach-queue s n = ground arith

  pub reach-degrees : (s : Shared T) (n : T) → (reach I p n s).in_degree ≡ s.in_degree
  unfolding reach
  reach-degrees s n = ground arith

  pub send_ready-degrees : (next : T) (s : Shared T) → (send_ready next s).in_degree ≡ s.in_degree
  unfolding send_ready
  send_ready-degrees next s = ground arith

  pub send_ready-queue :
      (next : T) (s : Shared T) (v : String)
      → count v (ids id (send_ready next s).queue) ≤ count v (ids id s.queue) + is_node I v next
  unfolding send_ready
  send_ready-queue next s v = ground (arith, count_ids-append I v s.queue (next ∷ []))
