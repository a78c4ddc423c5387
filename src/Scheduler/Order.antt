-- ===== src/Scheduler/Order.antt =====
-- A node starts once, and after all that it depends on has succeeded.
use octa.Common.{
  ◌≤◌, ◌<◌, String, refl, true, false, List, [], ◌∷◌, ◌++◌, arith, string_eq, nat_eq, count, lookup,
}
use octa.Dag.{Identifiable}
use octa.Dag.Sort.{Edge}
use octa.Dag.Cycles.{IsWellFormed}
use octa.Scheduler.{Plan, starting, executing, releasing, Shared, handle_error, retire}
use octa.Scheduler.Runs.{Event, started, Worker, Run}
use octa.Scheduler.Loads.{starts, successes}
use octa.Scheduler.Invariant.{zero_degree-le, Ordered-split, Inv}
use octa.Scheduler.Preserved.{
  start-Inv, receive-Inv, succeed-Inv, publish-Inv, send-Inv, same_Inv, gone-Inv, failed-Inv,
  execute-Inv,
}

module _ {T : Type 0} (I : Identifiable T) (p : Plan T) where
  open I use {id}

  module _ (g : IsWellFormed I p.dag) where
    pub Run-Inv :
        (h : List Event) (s : Shared T) (ws : List (Worker T)) → Run I p h s ws → Inv I p h s ws
    unfolding handle_error retire
    Run-Inv _ _ _ (Run.start s e) = start-Inv I p g s e
    Run-Inv _ _ _ (Run.receive h s ws n queue r o e) =
        receive-Inv I p g h s ws n queue (Run-Inv h s ws r) e
    Run-Inv _ _ _ (Run.stop_receiving h s ws r o) =
        same_Inv I p g h s (record s { receiving = false }) ws (Run-Inv h s ws r) refl refl
    Run-Inv _ _ _ (Run.cancel h s ws r) =
        same_Inv I p g h s (record s { cancelled = true }) ws (Run-Inv h s ws r) refl refl
    Run-Inv _ _ _ (Run.execute h s before after n r) =
        execute-Inv I p g h s before after n (Run-Inv h s _ r)
    Run-Inv _ _ _ (Run.succeed h s before after n r o) =
        succeed-Inv I p g h s before after n (Run-Inv h s _ r)
    Run-Inv _ _ _ (Run.succeed_cancelled h s before after n r o) =
        gone-Inv I p g h s s before after (n, executing) (Run-Inv h s _ r) refl refl
    Run-Inv _ _ _ (Run.fail_early h s before after n r) =
        failed-Inv I p g h _ (before ++ after) (id n)
          (gone-Inv I p g h s _ before after (n, starting) (Run-Inv h s _ r) refl refl)
    Run-Inv _ _ _ (Run.fail h s before after n r) =
        failed-Inv I p g h _ (before ++ after) (id n)
          (gone-Inv I p g h s _ before after (n, executing) (Run-Inv h s _ r) refl refl)
    Run-Inv _ _ _ (Run.publish h s before after n m ready r e) =
        publish-Inv I p g h s before after n m ready (Run-Inv h s _ r) e
    Run-Inv _ _ _ (Run.send h s before after n next ready r) =
        send-Inv I p g h s before after n next ready (Run-Inv h s _ r)
    Run-Inv _ _ _ (Run.send_refused h s before after n next ready r o c) =
        gone-Inv I p g h s _ before after (n, releasing (next ∷ ready)) (Run-Inv h s _ r) refl refl
    Run-Inv _ _ _ (Run.leave h s before after n r) =
        gone-Inv I p g h s _ before after (n, releasing []) (Run-Inv h s _ r) refl refl

    -- In every run of a well-formed plan, when a node starts, whatever it depends on has succeeded:
    -- the event of its start stands after those of their successes.
    pub dependencies_first :
        (later earlier : List Event) (s : Shared T) (ws : List (Worker T)) (u v : String)
        → Run I p (later ++ started v ∷ earlier) s ws
        → Edge I p.dag.edges u v
        → 0 < count u (successes earlier)
    dependencies_first later earlier s ws u v r edge =
        Ordered-split I p later earlier v (Run-Inv _ s ws r).ordered u edge

    -- In every run of a well-formed plan, each node starts at most once.
    pub starts_once :
        (h : List Event) (s : Shared T) (ws : List (Worker T)) (v : String)
        → Run I p h s ws
        → count v (starts h) ≤ 1
    starts_once h s ws v r =
        omega (arith, (Run-Inv h s ws r).once v, zero_degree-le (lookup v s.in_degree))
