-- ===== src/Scheduler/Runs.antt =====
-- The runs of a plan: every interleaving of what its workers do, of the loop that starts them, and
-- of a cancellation from outside.
use octa.Common.{String, suc, ◌≡◌, true, false, ◌||◌, List, [], ◌∷◌, ◌++◌, string_eq, lookup}
use octa.Dag.{Identifiable, ok, Degrees}
use octa.Scheduler.{
  Plan, Stage, starting, executing, recorded, releasing, Shared, begin, reach, record_success,
  handle_error, lower_dependants, send_ready, retire,
}

pub data Event : Type 0 where
  started succeeded failed published : String → Event

abbrev pub Worker : Type 0 → Type 0
Worker T = T × Stage T

module _ {T : Type 0} (I : Identifiable T) (p : Plan T) where
  open I use {id}

  -- The events, newest first, what is shared, and the workers.
  pub data Run : List Event → Shared T → List (Worker T) → Type 0 where
    start : (s : Shared T) → begin I p ≡ ok s → Run [] s []
    -- `receive_next_task` and `spawn_task`: `select!` can take a node after the end of the plan.
    receive :
        (h : List Event) (s : Shared T) (ws : List (Worker T)) (n : T) (queue : List T)
        → Run h s ws
        → s.receiving ≡ true
        → s.queue ≡ n ∷ queue
        → Run (started (id n) ∷ h) (record s { queue = queue }) ((n, starting) ∷ ws)
    stop_receiving :
        (h : List Event) (s : Shared T) (ws : List (Worker T))
        → Run h s ws
        → (s.finished || s.cancelled) ≡ true
        → Run h (record s { receiving = false }) ws
    cancel :
        (h : List Event) (s : Shared T) (ws : List (Worker T))
        → Run h s ws
        → Run h (record s { cancelled = true }) ws
    execute :
        (h : List Event) (s : Shared T) (before after : List (Worker T)) (n : T)
        → Run h s (before ++ (n, starting) ∷ after)
        → Run h (reach I p n s) (before ++ (n, executing) ∷ after)
    -- `handle_success`, on both sides of its test.
    succeed :
        (h : List Event) (s : Shared T) (before after : List (Worker T)) (n : T)
        → Run h s (before ++ (n, executing) ∷ after)
        → s.cancelled ≡ false
        → Run (succeeded (id n) ∷ h) (record_success I n s) (before ++ (n, recorded) ∷ after)
    succeed_cancelled :
        (h : List Event) (s : Shared T) (before after : List (Worker T)) (n : T)
        → Run h s (before ++ (n, executing) ∷ after)
        → s.cancelled ≡ true
        → Run h s (before ++ after)
    -- A node can fail before it runs: for its permit or its lifecycle.
    fail_early :
        (h : List Event) (s : Shared T) (before after : List (Worker T)) (n : T)
        → Run h s (before ++ (n, starting) ∷ after)
        → Run (failed (id n) ∷ h) (handle_error p n s) (before ++ after)
    fail :
        (h : List Event) (s : Shared T) (before after : List (Worker T)) (n : T)
        → Run h s (before ++ (n, executing) ∷ after)
        → Run (failed (id n) ∷ h) (handle_error p n s) (before ++ after)
    publish :
        (h : List Event) (s : Shared T) (before after : List (Worker T)) (n : T) (m : Degrees)
        (ready : List T)
        → Run h s (before ++ (n, recorded) ∷ after)
        → lower_dependants I (lookup (id n) p.dag.edges) s.in_degree ≡ ok (m, ready)
        → Run
            (published (id n) ∷ h)
            (record s { in_degree = m })
            (before ++ (n, releasing ready) ∷ after)
    send :
        (h : List Event) (s : Shared T) (before after : List (Worker T)) (n next : T)
        (ready : List T)
        → Run h s (before ++ (n, releasing (next ∷ ready)) ∷ after)
        → Run h (send_ready next s) (before ++ (n, releasing ready) ∷ after)
    -- The receiver is gone: the worker ends with a channel error, and the node it could not send is
    -- still counted as active, like the worker's own.
    send_refused :
        (h : List Event) (s : Shared T) (before after : List (Worker T)) (n next : T)
        (ready : List T)
        → Run h s (before ++ (n, releasing (next ∷ ready)) ∷ after)
        → s.finished ≡ false
        → s.receiving ≡ false
        → Run h (record s { active_tasks = suc s.active_tasks }) (before ++ after)
    leave :
        (h : List Event) (s : Shared T) (before after : List (Worker T)) (n : T)
        → Run h s (before ++ (n, releasing []) ∷ after)
        → Run h (retire s) (before ++ after)
