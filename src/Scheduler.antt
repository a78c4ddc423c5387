-- ===== src/Scheduler.antt =====
-- crates/octa-executor/src/executor.rs: the scheduling of one plan. A plan's nodes pass through a
-- channel to workers; `Shared` is what the workers share. A `CancellationToken` is a Boolean, and
-- `cancelled` is the token of this execution. The methods below are what one worker does between
-- two points at which others can act; Scheduler/Runs puts them together.
pub mod Runs
pub mod Lowering
pub mod Loads
pub mod Invariant
pub mod Publishing
pub mod Preserved
pub mod Order
pub mod Accounting
pub mod Counting
pub mod Completion
pub mod Deferred
mod LastFirst
pub mod Cleanup
pub mod Results
mod Examples
use octa.Common.{
  ℕ, zero, suc, ◌+◌, ◌-◌, ◌^◌, String, Bool, true, false, not, ◌&&◌, ◌||◌, Option, none, some, List,
  [], ◌∷◌, ◌++◌, ◌==◌, string_eq, nat_eq, if◌then◌else◌, length, contains, lookup, insert,
}
use octa.Dag.{
  Identifiable, Dag, DagResult, ok, err, panic, ◌>>=◌, node_not_found, Degrees, zero_degrees,
}

pub record DeferredAction : Type 0 where
  pub order : ℕ
  pub registered_after : List String

pub record Plan (T : Type 0) : Type 0 where
  pub dag : Dag T
  pub deferred : List (String × DeferredAction)
  pub failfast : Bool
  -- `Executable::failfast`.
  pub task_failfast : T → Bool

-- Where a worker is: before its node runs, while it runs, after its success was recorded, and
-- when its dependants' degrees were lowered, with the dependants that it has yet to send.
pub data Stage (T : Type 0) : Type 0 where
  starting executing recorded : Stage T
  releasing : List T → Stage T

pub record Shared (T : Type 0) : Type 0 where
  pub in_degree : Degrees
  pub active_tasks : ℕ
  pub completed_tasks : List String
  pub finished : Bool
  pub cancelled : Bool
  -- The channel, and whether `process_tasks` still takes nodes from it.
  pub queue : List T
  pub receiving : Bool

-- `HashSet::insert`.
abbrev pub record_task : String → List String → List String
record_task k ks = if contains ks k then ks else k ∷ ks

-- `AtomicUsize::fetch_sub` of one, which wraps.
abbrev pub fetch_sub : ℕ → ℕ
fetch_sub zero = 2 ^ 64 - 1
fetch_sub (suc n) = n

abbrev pub is_deferred : {T : Type 0} → Plan T → String → Bool
is_deferred p k = elim (lookup k p.deferred) [ none ↦ false | some a ↦ true ]

module _ {T : Type 0} (I : Identifiable T) where
  open I use {id}

  pub add_dependencies : List T → Degrees → DagResult Degrees
  add_dependencies [] m = ok m
  add_dependencies (n ∷ ns) m = elim (lookup (id n) m) [
    | none ↦ err (node_not_found (id n))
    | some c ↦ add_dependencies ns (insert (id n) (c + 1) m)
  ]

  pub initialize_in_degrees : List (String × List T) → Degrees → DagResult Degrees
  initialize_in_degrees [] m = ok m
  initialize_in_degrees ((k, ns) ∷ es) m = add_dependencies ns m >>= initialize_in_degrees es

  -- The nodes that `schedule_initial_tasks` sends; `degrees[id]` panics on a missing key.
  pub initial_tasks : Plan T → List T → Degrees → DagResult (List T)
  initial_tasks p [] m = ok []
  initial_tasks p (n ∷ ns) m = initial_tasks p ns m >>= λ rest.
      if is_deferred p (id n)
      then ok rest
      else elim (lookup (id n) m) [ none ↦ panic | some c ↦ ok (if c == 0 then n ∷ rest else rest) ]

  pub schedule_initial_tasks : Plan T → Degrees → DagResult (Shared T)
  schedule_initial_tasks p m = initial_tasks p p.dag.nodes m >>= λ initial. ok (record {
    in_degree = m;
    active_tasks = length initial;
    completed_tasks = [];
    finished = length initial == 0;
    cancelled = false;
    queue = initial;
    receiving = true;
  })

  -- `Executor::new` and the start of `execute_plan`.
  pub begin : Plan T → DagResult (Shared T)
  begin p =
      initialize_in_degrees p.dag.edges (zero_degrees I p.dag.nodes) >>= schedule_initial_tasks p

  -- `execute_locked` up to the execution of the node: a barrier counts as completed from here on.
  pub reach : Plan T → T → Shared T → Shared T
  reach p n s =
      if is_deferred p (id n)
      then record s { completed_tasks = record_task (id n) s.completed_tasks }
      else s

  -- `handle_success` when the token is not cancelled, up to `process_task_success`.
  pub record_success : T → Shared T → Shared T
  record_success n s = record s { completed_tasks = record_task (id n) s.completed_tasks }

  -- The loop of `process_task_success` under the lock of the degrees, and what it has made ready.
  pub lower : List T → Degrees → List T → DagResult (Degrees × List T)
  lower [] m ready = ok (m, ready)
  lower (n ∷ ns) m ready = elim (lookup (id n) m) [
    | none ↦ err (node_not_found (id n))
    | some zero ↦ panic
    | some (suc c) ↦ lower ns (insert (id n) c m) (if c == 0 then ready ++ n ∷ [] else ready)
  ]

  -- `if let Some(deps) = self.context.dag.edges().get(self.task.id())`.
  pub lower_dependants : Option (List T) → Degrees → DagResult (Degrees × List T)
  lower_dependants none m = ok (m, [])
  lower_dependants (some deps) m = lower deps m []

module _ {T : Type 0} where
  pub handle_error : Plan T → T → Shared T → Shared T
  handle_error p n s = record s {
    cancelled = p.failfast || p.task_failfast n || s.cancelled;
    finished = true;
  }

  -- One round of the loop that sends the nodes made ready.
  pub send_ready : T → Shared T → Shared T
  send_ready n s =
      if s.finished
      then s
      else record s { active_tasks = suc s.active_tasks; queue = s.queue ++ n ∷ [] }

  -- The end of a worker, and of the plan with the last one.
  pub retire : Shared T → Shared T
  retire s = record s {
    active_tasks = fetch_sub s.active_tasks;
    finished = s.active_tasks == 1 || s.finished;
  }
