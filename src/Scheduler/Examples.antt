-- ===== src/Scheduler/Examples.antt =====
-- A whole run of a plan with a task and a barrier that waits for it, and the theorems at it.
use octa.Common.{
  ℕ, Mem, All, contains, Option, some, none, inl, String, ◌≡◌, ◌≤◌, ◌<◌, ◌↔◌, refl, List, [], ◌∷◌,
  ◌==◌, string_eq, nat_eq, count, true, false, arith, insert,
}
use octa.Dag.{
  Identifiable, Dag, ok, or_default, new, add_node, add_dependency, zero_degrees, has_cycle,
  count_targets, count_edges, calculate_in_degrees, roots, relax, visit, sort_loop,
  perform_topological_sort, node_count,
}
use octa.Dag.Cycles.{IsWellFormed}
use octa.Dag.History.{Built, Built-IsWellFormed}
use octa.Scheduler.{
  Plan, starting, executing, recorded, releasing, Shared, begin, reach, record_success,
  handle_error, lower, lower_dependants, send_ready, retire, add_dependencies,
  initialize_in_degrees, initial_tasks, schedule_initial_tasks,
}
use octa.Scheduler.Runs.{Event, started, succeeded, published, Run}
use octa.Scheduler.Loads.{starts, successes}
use octa.Scheduler.Deferred.{
  ExecutorError, task_cancelled, another_error, record_execution_error, Action, ActionOutcome,
  broken, insert_action, sort_actions, note_log, after_action, run_actions, run_deferred,
}
use octa.Scheduler.LastFirst.{LastFirst, times}
use octa.Scheduler.Cleanup.{run_deferred_iff, cleanup_after_success}
use octa.Scheduler.Results.{
  NodeResult, ended, failed, complete_execution, is_error, is_original, failure_is_original,
}
use octa.Scheduler.Order.{dependencies_first, starts_once}
use octa.Scheduler.Accounting.{DeferredHaveSources}
use octa.Scheduler.Completion.{all_tasks_run}

abbrev task : Identifiable String
task = record { id = λ s. s; node_eq = λ a b. a == b; node_eq-id = λ a b. refl }

abbrev two : Dag String
two = add_node task (add_node task (new task) "A") "B"

abbrev chain : Dag String
chain = record { nodes = "B" ∷ "A" ∷ []; edges = ("A", "B" ∷ []) ∷ ("B", []) ∷ [] }

abbrev plan : Plan String
plan = record {
  dag = chain;
  deferred = ("B", record { order = 0; registered_after = "A" ∷ [] }) ∷ [];
  failfast = false;
  task_failfast = λ n. false;
}

-- Unfolds the program for tests.
program : Unit {0}
unfolding insert or_default add_node add_dependency zero_degrees reach record_success handle_error
    lower lower_dependants send_ready retire add_dependencies initialize_in_degrees initial_tasks
    schedule_initial_tasks begin
program = tt

-- What happens to the task, and to both.
abbrev first : List Event
first = published "A" ∷ succeeded "A" ∷ started "A" ∷ []

abbrev both : List Event
both = published "B" ∷ succeeded "B" ∷ started "B" ∷ first

chain-Built : Built task chain
unfolding program
chain-Built =
    Built.dependency two chain "A" "B" (Built.node _ "B" (Built.node _ "A" Built.empty)) refl

chain-IsWellFormed : IsWellFormed task chain
chain-IsWellFormed = Built-IsWellFormed task chain chain-Built

plan-DeferredHaveSources : DeferredHaveSources task plan
plan-DeferredHaveSources v d = ground (arith, d)

initial : Shared String
initial = record {
  in_degree = ("A", 0) ∷ ("B", 1) ∷ [];
  active_tasks = 1;
  completed_tasks = [];
  finished = false;
  cancelled = false;
  queue = "A" ∷ [];
  receiving = true;
}

begin-initial : begin task plan ≡ ok initial
unfolding program initial
begin-initial = refl

run_0 : Run task plan [] initial []
run_0 = Run.start initial begin-initial

abbrev shared_1 : Shared String
shared_1 = record initial { queue = [] }

run_1 : Run task plan (started "A" ∷ []) shared_1 (("A", starting) ∷ [])
unfolding program initial
run_1 = Run.receive ([]) initial [] "A" [] run_0 refl refl

abbrev shared_2 : Shared String
shared_2 = reach task plan "A" shared_1

run_2 : Run task plan (started "A" ∷ []) shared_2 (("A", executing) ∷ [])
unfolding program initial
run_2 = Run.execute (started "A" ∷ []) shared_1 [] [] "A" run_1

abbrev shared_3 : Shared String
shared_3 = record_success task "A" shared_2

run_3 : Run task plan (succeeded "A" ∷ started "A" ∷ []) shared_3 (("A", recorded) ∷ [])
unfolding program initial
run_3 = Run.succeed (started "A" ∷ []) shared_2 [] [] "A" run_2 refl

abbrev shared_4 : Shared String
shared_4 = record shared_3 { in_degree = ("A", 0) ∷ ("B", 0) ∷ [] }

run_4 : Run task plan first shared_4 (("A", releasing ("B" ∷ [])) ∷ [])
unfolding program initial
run_4 =
    Run.publish (succeeded "A" ∷ started "A" ∷ []) shared_3 [] [] "A" (("A", 0) ∷ ("B", 0) ∷ [])
      ("B" ∷ []) run_3 refl

abbrev shared_5 : Shared String
shared_5 = send_ready "B" shared_4

run_5 : Run task plan first shared_5 (("A", releasing []) ∷ [])
unfolding program initial
run_5 = Run.send first shared_4 [] [] "A" "B" [] run_4

abbrev shared_6 : Shared String
shared_6 = retire shared_5

run_6 : Run task plan first shared_6 ([])
unfolding program initial
run_6 = Run.leave first shared_5 [] [] "A" run_5

abbrev shared_7 : Shared String
shared_7 = record shared_6 { queue = [] }

run_7 : Run task plan (started "B" ∷ first) shared_7 (("B", starting) ∷ [])
unfolding program initial
run_7 = Run.receive first shared_6 [] "B" [] run_6 refl refl

abbrev shared_8 : Shared String
shared_8 = reach task plan "B" shared_7

run_8 : Run task plan (started "B" ∷ first) shared_8 (("B", executing) ∷ [])
unfolding program initial
run_8 = Run.execute (started "B" ∷ first) shared_7 [] [] "B" run_7

abbrev shared_9 : Shared String
shared_9 = record_success task "B" shared_8

run_9 : Run task plan (succeeded "B" ∷ started "B" ∷ first) shared_9 (("B", recorded) ∷ [])
unfolding program initial
run_9 = Run.succeed (started "B" ∷ first) shared_8 [] [] "B" run_8 refl

abbrev shared_10 : Shared String
shared_10 = record shared_9 { in_degree = ("A", 0) ∷ ("B", 0) ∷ [] }

run_10 : Run task plan both shared_10 (("B", releasing ([])) ∷ [])
unfolding program initial
run_10 =
    Run.publish (succeeded "B" ∷ started "B" ∷ first) shared_9 [] [] "B" (("A", 0) ∷ ("B", 0) ∷ [])
      ([]) run_9 refl

abbrev shared_11 : Shared String
shared_11 = retire shared_10

run_11 : Run task plan both shared_11 ([])
unfolding program initial
run_11 = Run.leave both shared_10 [] [] "B" run_10

abbrev shared_12 : Shared String
shared_12 = record shared_11 { receiving = false }

run_12 : Run task plan both shared_12 ([])
unfolding program initial
run_12 = Run.stop_receiving both shared_11 [] run_11 refl

dependencies_first_example : 0 < count "A" (successes first)
dependencies_first_example =
    dependencies_first task plan chain-IsWellFormed [] first shared_7 (("B", starting) ∷ []) "A" "B"
      run_7 (omega arith)

starts_once_example : count "B" (starts both) ≤ 1
starts_once_example = starts_once task plan chain-IsWellFormed both shared_12 [] "B" run_12

has_cycle-chain : has_cycle task chain ≡ ok false
unfolding program count_targets count_edges calculate_in_degrees roots relax visit sort_loop
    perform_topological_sort has_cycle node_count
has_cycle-chain = refl

all_tasks_run_example : (count "B" (starts both) ≡ 1) × (0 < count "B" (successes both))
unfolding program initial
all_tasks_run_example =
    all_tasks_run task plan chain-IsWellFormed plan-DeferredHaveSources both shared_12 run_12
      has_cycle-chain refl refl refl "B" (omega arith)

abbrev clean_up : Action
clean_up = ("B", record { order = 0; registered_after = "A" ∷ [] })

abbrev perform : Action → ActionOutcome
perform x = broken (task_cancelled x.0)

abbrev log : Action → Option ExecutorError
log x = none

run_deferred_iff_example :
    LastFirst (run_deferred perform log ("A" ∷ []) plan.deferred).performed
    × (Mem clean_up (run_deferred perform log ("A" ∷ []) plan.deferred).performed ↔ (
        Mem clean_up plan.deferred
        × (Mem {A = String} "B" ("A" ∷ []) → ⊥)
        × All (λ (k : String). Mem k ("A" ∷ [])) ("A" ∷ [])))
    × (times "B" (run_deferred perform log ("A" ∷ []) plan.deferred).performed
        ≤ times "B" plan.deferred)
run_deferred_iff_example = run_deferred_iff perform log ("A" ∷ []) plan.deferred clean_up

cleanup_after_success_example :
    (contains (successes first) "A" ≡ true) × (contains (successes first) "B" ≡ false)
unfolding program initial insert_action sort_actions after_action run_actions run_deferred
    record_execution_error note_log
cleanup_after_success_example =
    cleanup_after_success task plan first shared_6 [] perform log clean_up "A" run_6 (inl refl) refl
      refl

abbrev results : List (ℕ × NodeResult)
results =
    (1, failed (task_cancelled "B"))
    ∷ (0, failed (another_error "exit 2"))
    ∷ (2, ended (some "done") [])
    ∷ []

failure_is_original_example :
    (is_error (complete_execution results).failure ≡ true)
    × (is_original (complete_execution results).failure ≡ true)
failure_is_original_example = failure_is_original results
