-- ===== src/Scheduler/Results.antt =====
-- `complete_execution` of crates/octa-executor/src/executor.rs: what the results of the workers, in
-- the order in which they end, come to. A result carries the position of its worker.
use octa.Common.{
  ℕ, String, ◌≡◌, Bool, true, false, not, ◌||◌, any, Option, none, some, List, [], ◌∷◌, ◌++◌, map,
  leb, if◌then◌else◌, arith,
}
use octa.Scheduler.Deferred.{ExecutorError, is_cancellation, record_execution_error}

-- What joining a worker gives; a `JoinError` is an error too.
pub data NodeResult : Type 0 where
  ended : Option String → List String → NodeResult
  failed : ExecutorError → NodeResult

pub record PlanExecution : Type 0 where
  pub stdout : List String
  pub nested_tasks : List String
  pub failure : Option ExecutorError
  pub cancelled : Bool

abbrev pub Outputs : Type 0
Outputs = List (ℕ × String)

-- `sort_by_key`.
unfoldable pub insert_output : ℕ × String → Outputs → Outputs
insert_output x [] = x ∷ []
insert_output x (y ∷ ys) = if leb x.0 y.0 then x ∷ y ∷ ys else y ∷ insert_output x ys

unfoldable pub sort_outputs : Outputs → Outputs
sort_outputs [] = []
sort_outputs (x ∷ xs) = insert_output x (sort_outputs xs)

abbrev pub output_of : ℕ → Option String → Outputs
output_of index none = []
output_of index (some text) = (index, text) ∷ []

-- The `while let` loop.
unfoldable pub collect_results :
    List (ℕ × NodeResult) → Outputs → List String → Option ExecutorError → PlanExecution
collect_results [] outputs nested first_error = record {
  stdout = map (λ o. o.1) (sort_outputs outputs);
  nested_tasks = nested;
  failure = first_error;
  cancelled = false;
}
collect_results ((index, ended output tasks) ∷ rest) outputs nested first_error =
    collect_results rest (outputs ++ output_of index output) (nested ++ tasks) first_error
collect_results ((index, failed e) ∷ rest) outputs nested first_error =
    collect_results rest outputs nested (record_execution_error first_error e)

unfoldable pub complete_execution : List (ℕ × NodeResult) → PlanExecution
complete_execution handles = collect_results handles [] [] none

abbrev pub is_failed : ℕ × NodeResult → Bool
is_failed (index, ended output tasks) = false
is_failed (index, failed e) = true

-- A failure that is no cancellation.
abbrev pub is_originating : ℕ × NodeResult → Bool
is_originating (index, ended output tasks) = false
is_originating (index, failed e) = not (is_cancellation e)

abbrev pub is_error : Option ExecutorError → Bool
is_error none = false
is_error (some e) = true

abbrev pub is_original : Option ExecutorError → Bool
is_original none = false
is_original (some e) = not (is_cancellation e)

collect_results-is_original :
    (rs : List (ℕ × NodeResult)) (outputs : Outputs) (nested : List String)
    (f : Option ExecutorError)
    → (is_error (collect_results rs outputs nested f).failure ≡ (is_error f || any is_failed rs))
      × (is_original (collect_results rs outputs nested f).failure
          ≡ (is_original f || any is_originating rs))
unfolding collect_results record_execution_error
collect_results-is_original [] outputs nested f = (ground arith, ground arith)
collect_results-is_original ((index, ended output tasks) ∷ rs) outputs nested f =
    collect_results-is_original rs _ _ f
collect_results-is_original ((index, failed e) ∷ rs) outputs nested none =
    let rest = collect_results-is_original rs outputs nested (some e) in
    (ground (arith, rest.0), ground (arith, rest.1))
collect_results-is_original ((index, failed e) ∷ rs) outputs nested (some g) =
    let rest = collect_results-is_original rs outputs nested (record_execution_error (some g) e) in
    (ground (arith, rest.0), ground (arith, rest.1))

-- In whatever order the workers end, the plan has failed just when one of them has, and its failure
-- is a cancellation only when every failure of a worker is one.
pub failure_is_original :
    (rs : List (ℕ × NodeResult))
    → (is_error (complete_execution rs).failure ≡ any is_failed rs)
      × (is_original (complete_execution rs).failure ≡ any is_originating rs)
unfolding complete_execution
failure_is_original rs = collect_results-is_original rs [] [] none
