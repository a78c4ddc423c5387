-- ===== src/Dag/Examples.antt =====
-- Graphs of the unit tests of crates/octa-dag/src/dag.rs, and the theorems at them.
use octa.Common.{String, ◌≡◌, ◌↔◌, refl, List, ◌==◌, string_eq, nat_eq, insert, true, false}
use octa.Dag.{
  Identifiable, Dag, DagResult, ok, or_default, new, add_node, add_dependency, zero_degrees,
  count_targets, count_edges, calculate_in_degrees, roots, relax, visit, sort_loop,
  perform_topological_sort, has_cycle, linear_loop, is_linear, node_count,
}
use octa.Dag.Edges.{ids}
use octa.Dag.Cycles.{Walk, has_cycle-true_iff, has_cycle-false_iff}
use octa.Dag.History.{Built, Built-IsWellFormed}
use octa.Dag.Lines.{IsLine}
use octa.Dag.Linear.{is_linear-true_iff}

abbrev test_node : Identifiable String
test_node = record { id = λ s. s; node_eq = λ a b. a == b; node_eq-id = λ a b. refl }

-- Unfolds the program for tests.
program : Unit {0}
unfolding insert or_default add_node add_dependency zero_degrees count_targets count_edges
    calculate_in_degrees roots relax visit sort_loop perform_topological_sort has_cycle linear_loop
    is_linear node_count
program = tt

abbrev after : Dag String → DagResult (Dag String) → Dag String
after d (ok e) = e
after d _ = d

abbrev two : Dag String
two = add_node test_node (add_node test_node (new test_node) "A") "B"

abbrev line : Dag String
line = after two (add_dependency test_node two "A" "B")

abbrev cycle : Dag String
cycle = after line (add_dependency test_node line "B" "A")

two-Built : Built test_node two
two-Built = Built.node _ "B" (Built.node _ "A" Built.empty)

line-Built : Built test_node line
unfolding program
line-Built = Built.dependency two line "A" "B" two-Built refl

cycle-Built : Built test_node cycle
unfolding program
cycle-Built = Built.dependency line cycle "B" "A" line-Built refl

has_cycle-line : has_cycle test_node line ≡ ok false
unfolding program
has_cycle-line = refl

has_cycle-cycle : has_cycle test_node cycle ≡ ok true
unfolding program
has_cycle-cycle = refl

is_linear-line : is_linear test_node line ≡ ok true
unfolding program
is_linear-line = refl

is_linear-two : is_linear test_node two ≡ ok false
unfolding program
is_linear-two = refl

has_cycle-true_iff_example :
    (has_cycle test_node cycle ≡ ok true) ↔ ((v : String) × Walk test_node cycle.edges v v)
has_cycle-true_iff_example =
    has_cycle-true_iff test_node cycle (Built-IsWellFormed test_node cycle cycle-Built)

has_cycle-false_iff_example :
    (has_cycle test_node line ≡ ok false) ↔ ((v : String) → ¬ Walk test_node line.edges v v)
has_cycle-false_iff_example =
    has_cycle-false_iff test_node line (Built-IsWellFormed test_node line line-Built)

is_linear-true_iff_example :
    (is_linear test_node line ≡ ok true)
    ↔ ((p : List String) × IsLine test_node (ids (λ s. s) line.nodes) line.edges p)
is_linear-true_iff_example =
    is_linear-true_iff test_node line (Built-IsWellFormed test_node line line-Built)
