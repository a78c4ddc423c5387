-- ===== src/KeepOrder/Examples.antt =====
-- Two tasks whose output interleaves, and the theorems at that history.
use octa.Common.{ℕ, ◌≡◌, refl, List, [], ◌∷◌, ◌++◌, insert, remove, erase}
use octa.KeepOrder.{
  ConsoleScope, scope_eq, ConsoleEntry, ConsoleRecord, execution, scope_declared, scope_started,
  scope_finished, KeepOrderRenderer, new, cache_scope, record_scope, is_raw_output, activate_raw,
  advance_loop, advance, buffer, finish, render_ordered, render,
}
use octa.KeepOrder.Routing.{of_scope, buffered}
use octa.KeepOrder.Order.{Rendered, start, step, render_keeps_order}

program : Unit {0}
unfolding insert remove erase cache_scope record_scope is_raw_output activate_raw advance_loop
    advance buffer finish render_ordered render
program = tt

abbrev first_task : ConsoleScope
first_task = record { allocator_id = 0; id = 1 }

abbrev second_task : ConsoleScope
second_task = record { allocator_id = 0; id = 2 }

abbrev entry : ℕ → ConsoleRecord → ConsoleEntry
entry n r = record { sequence = n; content = r }

abbrev declare_first : ConsoleEntry
declare_first = entry 0 (execution (scope_declared first_task))

abbrev declare_second : ConsoleEntry
declare_second = entry 1 (execution (scope_declared second_task))

abbrev start_second : ConsoleEntry
start_second = entry 2 (execution (scope_started second_task))

abbrev finish_first : ConsoleEntry
finish_first = entry 3 (execution (scope_finished first_task))

abbrev waiting : KeepOrderRenderer
waiting = render (render (render new declare_first) declare_second) start_second

abbrev history : List ConsoleEntry
history = declare_first ∷ declare_second ∷ start_second ∷ []

waiting-Rendered : Rendered history waiting
waiting-Rendered =
    step _ _ start_second
      (step _ _ declare_second (step _ _ declare_first start (λ s h. refl)) (λ s h. refl))
      (λ s h. refl)

-- The second task starts first, and waits; once the first has finished, its output follows.
waits : waiting.renderer ≡ declare_first ∷ declare_second ∷ []
unfolding program
waits = refl

follows :
    (render waiting finish_first).renderer
    ≡ declare_first ∷ declare_second ∷ finish_first ∷ start_second ∷ []
unfolding program
follows = refl

render_keeps_order_example :
    of_scope second_task history
    ≡ of_scope second_task waiting.renderer ++ buffered waiting.scopes second_task
render_keeps_order_example = render_keeps_order history waiting second_task waiting-Rendered
