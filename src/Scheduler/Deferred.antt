-- ===== src/Scheduler/Deferred.antt =====
-- `run_deferred` and `record_execution_error` of crates/octa-executor/src/executor.rs: the cleanup
-- actions that a plan left undone. `perform` is what executing an action's own plan comes to, and
-- `log` the error, if any, of a message on the console. `performed` notes what was executed.
use octa.Common.{
  String, Bool, true, false, not, ◌&&◌, Option, none, some, List, [], ◌∷◌, ◌++◌, leb, if◌then◌else◌,
  string_eq, contains, all,
}
use octa.Scheduler.{DeferredAction}

-- The other errors are told apart by their text.
pub data ExecutorError : Type 0 where
  task_cancelled another_error : String → ExecutorError

abbrev pub is_cancellation : ExecutorError → Bool
is_cancellation (task_cancelled name) = true
is_cancellation (another_error text) = false

unfoldable pub record_execution_error : Option ExecutorError → ExecutorError → Option ExecutorError
record_execution_error none e = some e
record_execution_error (some r) e =
    if is_cancellation r && not (is_cancellation e) then some e else some r

-- What `execute_deferred_action` returns: the results of tasks and whether they failed, or an error.
pub data ActionOutcome : Type 0 where
  finished : List String → Bool → ActionOutcome
  broken : ExecutorError → ActionOutcome

abbrev pub Action : Type 0
Action = String × DeferredAction

pub record DeferredRun : Type 0 where
  pub performed : List Action
  pub tasks : List String
  pub first_error : Option ExecutorError

-- `sort_by_key` with `Reverse`, which is stable.
unfoldable pub insert_action : Action → List Action → List Action
insert_action x [] = x ∷ []
insert_action x (y ∷ ys) = if leb y.1.order x.1.order then x ∷ y ∷ ys else y ∷ insert_action x ys

unfoldable pub sort_actions : List Action → List Action
sort_actions [] = []
sort_actions (x ∷ xs) = insert_action x (sort_actions xs)

abbrev pub is_unfinished : List String → Action → Bool
is_unfinished completed (k, action) =
    not (contains completed k) && all (contains completed) action.registered_after

unfoldable pub note_log : Option ExecutorError → Option ExecutorError → Option ExecutorError
note_log none first_error = first_error
note_log (some e) first_error = record_execution_error first_error e

unfoldable pub after_action :
    ActionOutcome → Option ExecutorError → Action → DeferredRun → DeferredRun
after_action (finished tasks false) logged x r = record {
  performed = r.performed ++ x ∷ [];
  tasks = r.tasks ++ tasks;
  first_error = r.first_error;
}
after_action (finished tasks true) logged x r = record {
  performed = r.performed ++ x ∷ [];
  tasks = r.tasks ++ tasks;
  first_error = note_log logged r.first_error;
}
after_action (broken e) logged x r = record {
  performed = r.performed ++ x ∷ [];
  tasks = r.tasks;
  first_error = record_execution_error (note_log logged r.first_error) e;
}

module _ (perform : Action → ActionOutcome) (log : Action → Option ExecutorError)
    (completed : List String) where
  unfoldable pub run_actions : List Action → DeferredRun → DeferredRun
  run_actions [] r = r
  run_actions (x ∷ xs) r =
      run_actions xs (if is_unfinished completed x then after_action (perform x) (log x) x r else r)

  unfoldable pub run_deferred : List Action → DeferredRun
  run_deferred deferred =
      run_actions (sort_actions deferred)
        (record { performed = []; tasks = []; first_error = none })
