-- ===== src/Scheduler/Counting.antt =====
-- Every step of a run without failures and cancellations keeps the count of what is ready.
use octa.Common.{
  ℕ, zero, suc, ◌+◌, ◌<◌, String, ◌≡◌, refl, sym, subst, ap, ◌∙◌, true, false, Bool-cases, inl, inr,
  List, [], ◌∷◌, ◌++◌, arith, string_eq, nat_eq, ==_iff, count, length, length-append, lookup,
}
use octa.Dag.{Identifiable, Degrees}
use octa.Dag.Edges.{ids}
use octa.Dag.Relax.{zero_degree}
use octa.Dag.Cycles.{IsWellFormed}
use octa.Scheduler.{
  Plan, starting, executing, recorded, releasing, Shared, reach, record_success, record_task,
  send_ready, fetch_sub, retire,
}
use octa.Scheduler.Runs.{Event, started, succeeded, published, Worker, Run}
use octa.Scheduler.Lowering.{count_ids-append}
use octa.Scheduler.Loads.{failures, busy, pending}
use octa.Scheduler.Invariant.{around, exchange}
use octa.Scheduler.Publishing.{publish-Lowered}
use octa.Scheduler.Order.{Run-Inv}
use octa.Scheduler.Accounting.{
  DeferredHaveSources, Full, length-around, reach-cases, send_ready-cancelled, start-Full,
}

module _ {T : Type 0} (I : Identifiable T) (p : Plan T) where
  open I use {id}

  module _ (g : IsWellFormed I p.dag) (rooted : DeferredHaveSources I p) where
    receive-Full :
        (h : List Event) (s : Shared T) (ws : List (Worker T)) (n : T) (queue : List T)
        → Full I p h s ws
        → s.queue ≡ n ∷ queue
        → Full I p (started (id n) ∷ h) (record s { queue = queue }) ((n, starting) ∷ ws)
    receive-Full h s ws n queue f hq = record {
      ready = λ v. ground (arith, f.ready v, ap (λ q. count v (ids id q)) hq);
      begun = λ v. ground (arith, f.begun v);
      active = ground (arith, f.active, ap (λ (q : List T). length q) hq);
      ended = f.ended;
      going = f.going;
      closed = f.closed;
    }

    -- A worker that moves on with the same loads.
    moved-Full :
        (h : List Event) (s : Shared T) (before after : List (Worker T)) (w u : Worker T)
        → Full I p h s (before ++ w ∷ after)
        → ((v : String) → pending I v u ≡ pending I v w)
        → ((v : String) → busy I v u ≡ busy I v w)
        → Full I p h s (before ++ u ∷ after)
    moved-Full h s before after w u f same_pending same_busy = record {
      ready = λ v.
          omega (arith, f.ready v, same_pending v, exchange I p (pending I v) before after w u);
      begun = λ v. omega (arith, f.begun v, same_busy v, exchange I p (busy I v) before after w u);
      active =
          omega
            (arith, f.active, length-around I p before after w, length-around I p before after u);
      ended = f.ended;
      going = f.going;
      closed = f.closed;
    }

    with_tasks-Full :
        (h : List Event) (s : Shared T) (ws : List (Worker T)) (tasks : List String)
        → Full I p h s ws
        → Full I p h (record s { completed_tasks = tasks }) ws
    with_tasks-Full h s ws tasks f = record {
      ready = f.ready;
      begun = f.begun;
      active = f.active;
      ended = f.ended;
      going = f.going;
      closed = f.closed;
    }

    publish-Full :
        (h : List Event) (s : Shared T) (before after : List (Worker T)) (n : T) (m : Degrees)
        (ready : List T)
        → Full I p h s (before ++ (n, recorded) ∷ after)
        → ((v : String)
            → count v (ids id ready) + zero_degree (lookup v s.in_degree)
              ≡ zero_degree (lookup v m))
        → Full I p
            (published (id n) ∷ h)
            (record s { in_degree = m })
            (before ++ (n, releasing ready) ∷ after)
    publish-Full h s before after n m ready f released = record {
      ready = λ v. omega (
        arith,
        f.ready v,
        released v,
        exchange I p (pending I v) before after (n, recorded) (n, releasing ready),
      );
      begun = λ v. omega (
        arith,
        f.begun v,
        exchange I p (busy I v) before after (n, recorded) (n, releasing ready),
      );
      active = omega (
        arith,
        f.active,
        length-around I p before after (n, recorded),
        length-around I p before after (n, releasing ready),
      );
      ended = f.ended;
      going = f.going;
      closed = f.closed;
    }

    fetch_sub-pos : (n : ℕ) → 0 < n → n ≡ suc (fetch_sub n)
    fetch_sub-pos zero h = absurd (omega arith)
    fetch_sub-pos (suc n) h = refl

    unfinished :
        (h : List Event) (s : Shared T) (before after : List (Worker T)) (w : Worker T)
        → Full I p h s (before ++ w ∷ after)
        → s.finished ≡ false
    unfinished h s before after w f = elim (Bool-cases s.finished) [
      | inl e ↦ absurd (omega (arith, f.ended e, f.active, length-around I p before after w))
      | inr e ↦ e
    ]

    send-Full :
        (h : List Event) (s : Shared T) (before after : List (Worker T)) (n next : T)
        (ready : List T)
        → Full I p h s (before ++ (n, releasing (next ∷ ready)) ∷ after)
        → Full I p h (send_ready next s) (before ++ (n, releasing ready) ∷ after)
    unfolding send_ready
    send-Full h s before after n next ready f =
        subst (λ t. Full I p h t (before ++ (n, releasing ready) ∷ after)) sent
          (record {
            ready = λ v. omega (
              arith,
              f.ready v,
              count_ids-append I v s.queue (next ∷ []),
              exchange I p (pending I v) before after (n, releasing (next ∷ ready))
                  (n, releasing ready),
            );
            begun = λ v. omega (
              arith,
              f.begun v,
              exchange I p (busy I v) before after (n, releasing (next ∷ ready))
                  (n, releasing ready),
            );
            active = omega (
              arith,
              f.active,
              length-append s.queue (next ∷ []),
              length-around I p before after (n, releasing (next ∷ ready)),
              length-around I p before after (n, releasing ready),
            );
            ended = λ e. absurd (ground (arith, e, unended));
            going = λ e. omega arith;
            closed = λ e. f.closed e;
          })
      where
        unended : s.finished ≡ false
        unended = unfinished h s before after (n, releasing (next ∷ ready)) f

        sent :
            ◌≡◌ {A = Shared T}
              (record s { active_tasks = suc s.active_tasks; queue = s.queue ++ next ∷ [] })
              (send_ready next s)
        sent = ground (arith, unended)

    leave-Full :
        (h : List Event) (s : Shared T) (before after : List (Worker T)) (n : T)
        → Full I p h s (before ++ (n, releasing []) ∷ after)
        → Full I p h (retire s) (before ++ after)
    unfolding retire
    leave-Full h s before after n f = record {
      ready =
          λ v. omega (arith, f.ready v, around I p (pending I v) before after (n, releasing []));
      begun = λ v. omega (arith, f.begun v, around I p (busy I v) before after (n, releasing []));
      active = omega (arith, counted, one_less);
      ended = λ e. ground (
        arith,
        e,
        unfinished h s before after (n, releasing []) f,
        counted,
        one_less,
        ==_iff s.active_tasks 1,
      );
      going = λ e. ground (arith, e, counted, one_less, ==_iff s.active_tasks 1);
      closed = λ e. ground (arith, f.closed e);
    }
      where
        counted : s.active_tasks ≡ length s.queue + suc (length (before ++ after))
        counted = omega (arith, f.active, length-around I p before after (n, releasing []))

        one_less : s.active_tasks ≡ suc (fetch_sub s.active_tasks)
        one_less = fetch_sub-pos s.active_tasks (omega (arith, counted))

    stop-Full :
        (h : List Event) (s : Shared T) (ws : List (Worker T))
        → Full I p h s ws
        → s.finished ≡ true
        → Full I p h (record s { receiving = false }) ws
    stop-Full h s ws f e = record {
      ready = f.ready;
      begun = f.begun;
      active = f.active;
      ended = f.ended;
      going = f.going;
      closed = λ x. e;
    }

    execute-Full :
        (h : List Event) (s : Shared T) (before after : List (Worker T)) (n : T)
        → (reach I p n s).cancelled ≡ false
        → (s.cancelled ≡ false → Full I p h s (before ++ (n, starting) ∷ after))
        → Full I p h (reach I p n s) (before ++ (n, executing) ∷ after)
    execute-Full h s before after n c f = elim (reach-cases I p s n) [
      | inl e ↦
          subst (λ t. Full I p h t (before ++ (n, executing) ∷ after)) (sym e)
            (moved-Full h s before after (n, starting) (n, executing)
              (f (sym (ap (λ (t : Shared T). t.cancelled) e) ∙ c)) (λ v. refl) (λ v. refl))
      | inr e ↦
          subst (λ t. Full I p h t (before ++ (n, executing) ∷ after)) (sym e)
            (with_tasks-Full h s (before ++ (n, executing) ∷ after)
              (record_task (id n) s.completed_tasks)
              (moved-Full h s before after (n, starting) (n, executing)
                (f (sym (ap (λ (t : Shared T). t.cancelled) e) ∙ c)) (λ v. refl) (λ v. refl)))
    ]

    succeed-Full :
        (h : List Event) (s : Shared T) (before after : List (Worker T)) (n : T)
        → Full I p h s (before ++ (n, executing) ∷ after)
        → Full I p (succeeded (id n) ∷ h) (record_success I n s) (before ++ (n, recorded) ∷ after)
    unfolding record_success
    succeed-Full h s before after n f =
        let g' =
          with_tasks-Full h s (before ++ (n, recorded) ∷ after)
            (record_task (id n) s.completed_tasks)
            (moved-Full h s before after (n, executing) (n, recorded) f (λ v. refl) (λ v. refl)) in
        record {
          ready = g'.ready;
          begun = g'.begun;
          active = g'.active;
          ended = g'.ended;
          going = g'.going;
          closed = g'.closed;
        }

    pub Run-Full :
        (h : List Event) (s : Shared T) (ws : List (Worker T))
        → Run I p h s ws
        → s.cancelled ≡ false
        → failures h ≡ []
        → Full I p h s ws
    unfolding record_success retire
    Run-Full _ _ _ (Run.start s e) c none_failed = start-Full I p g rooted s e
    Run-Full _ _ _ (Run.receive h s ws n queue r o e) c none_failed =
        receive-Full h s ws n queue (Run-Full h s ws r c none_failed) e
    Run-Full _ _ _ (Run.stop_receiving h s ws r o) c none_failed =
        stop-Full h s ws (Run-Full h s ws r c none_failed) (ground (arith, o, c))
    Run-Full _ _ _ (Run.cancel h s ws r) c none_failed = absurd (ground (arith, c))
    Run-Full _ _ _ (Run.execute h s before after n r) c none_failed =
        execute-Full h s before after n c λ c'. Run-Full h s _ r c' none_failed
    Run-Full _ _ _ (Run.succeed h s before after n r o) c none_failed =
        succeed-Full h s before after n (Run-Full h s _ r c none_failed)
    Run-Full _ _ _ (Run.succeed_cancelled h s before after n r o) c none_failed =
        absurd (ground (arith, o, c))
    Run-Full _ _ _ (Run.fail_early h s before after n r) c none_failed = absurd cc
    Run-Full _ _ _ (Run.fail h s before after n r) c none_failed = absurd cc
    Run-Full _ _ _ (Run.publish h s before after n m ready r e) c none_failed =
        publish-Full h s before after n m ready (Run-Full h s _ r c none_failed)
          (publish-Lowered I p g h s before after n m ready (Run-Inv I p g h s _ r) e).released
    Run-Full _ _ _ (Run.send h s before after n next ready r) c none_failed =
        send-Full h s before after n next ready
          (Run-Full h s _ r (sym (send_ready-cancelled I p next s) ∙ c) none_failed)
    Run-Full _ _ _ (Run.send_refused h s before after n next ready r o closed) c none_failed =
        absurd (ground (arith, (Run-Full h s _ r c none_failed).closed closed, o))
    Run-Full _ _ _ (Run.leave h s before after n r) c none_failed =
        leave-Full h s before after n (Run-Full h s _ r c none_failed)
