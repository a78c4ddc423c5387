-- ===== src/Dag.antt =====
-- crates/octa-dag/src/dag.rs: the dependency graph of tasks and its cycle detection.
-- A hash set is a list without equal members and a hash map an association list, in any order
-- of iteration. A `Vec` used as a stack has its last element first.
pub mod Edges
pub mod Relax
pub mod Start
pub mod Sort
pub mod Build
pub mod Cycles
pub mod History
pub mod Lines
pub mod Linear
mod Examples
use octa.Common.{
  ℕ, zero, suc, ◌+◌, String, ◌≡◌, Bool, true, false, not, ◌||◌, Option, none, some, List, [], ◌∷◌,
  ◌==◌, string_eq, nat_eq, ltb, if◌then◌else◌, length, lookup, insert,
}

-- `T: Eq + Hash + Identifiable`, where equality is by `id`, as `TaskNode` implements it
-- (crates/octa-executor/src/task.rs).
pub record Identifiable (T : Type 0) : Type 0 where
  pub id : T → String
  pub node_eq : T → T → Bool
  pub node_eq-id : (a b : T) → node_eq a b ≡ (id a == id b)

pub data DagError : Type 0 where
  node_not_found : String → DagError

-- `panic` stands for a missing key under `[]` or `unwrap` and for a count below zero.
pub data DagResult (A : Type 0) : Type 0 where
  ok : A → DagResult A
  err : DagError → DagResult A
  panic out_of_fuel : DagResult A

infixl 5 ◌>>=◌
abbrev pub ◌>>=◌ : {A B : Type 0} → DagResult A → (A → DagResult B) → DagResult B
ok a >>= f = f a
err e >>= f = err e
panic >>= f = panic
out_of_fuel >>= f = out_of_fuel

pub record Dag (T : Type 0) : Type 0 where
  pub nodes : List T
  pub edges : List (String × List T)

abbrev pub Degrees : Type 0
Degrees = List (String × ℕ)

module _ {T : Type 0} (I : Identifiable T) where
  open I use {id, node_eq}

  abbrev pub contains_node : List T → T → Bool
  contains_node [] n = false
  contains_node (x ∷ xs) n = node_eq x n || contains_node xs n

  -- `HashSet::insert`.
  abbrev pub insert_node : T → List T → List T
  insert_node n xs = if contains_node xs n then xs else n ∷ xs

  abbrev pub new : Dag T
  new = record { nodes = []; edges = [] }

  -- `entry(key).or_default()`.
  unfoldable pub or_default : String → List (String × List T) → List T
  or_default k es = elim (lookup k es) [ none ↦ [] | some deps ↦ deps ]

  unfoldable pub add_node : Dag T → T → Dag T
  add_node d n = record {
    nodes = insert_node n d.nodes;
    edges = insert (id n) (or_default (id n) d.edges) d.edges;
  }

  unfoldable pub add_dependency : Dag T → T → T → DagResult (Dag T)
  add_dependency d from to =
      if not (contains_node d.nodes from)
      then err (node_not_found (id from))
      else if not (contains_node d.nodes to)
      then err (node_not_found (id to))
      else ok (record d {
        edges = insert (id from) (insert_node to (or_default (id from) d.edges)) d.edges;
      })

  unfoldable pub node_count : Dag T → ℕ
  node_count d = length d.nodes

  unfoldable pub zero_degrees : List T → Degrees
  zero_degrees [] = []
  zero_degrees (n ∷ ns) = insert (id n) 0 (zero_degrees ns)

  unfoldable pub count_targets : List T → Degrees → DagResult Degrees
  count_targets [] m = ok m
  count_targets (n ∷ ns) m = elim (lookup (id n) m) [
    | none ↦ panic
    | some c ↦ count_targets ns (insert (id n) (c + 1) m)
  ]

  unfoldable pub count_edges : List (String × List T) → Degrees → DagResult Degrees
  count_edges [] m = ok m
  count_edges ((k, ns) ∷ es) m = count_targets ns m >>= count_edges es

  unfoldable pub calculate_in_degrees : Dag T → DagResult Degrees
  calculate_in_degrees d = count_edges d.edges (zero_degrees d.nodes)

  -- The ids of the nodes with no incoming edge, pushed in turn.
  unfoldable pub roots : List T → Degrees → List String → DagResult (List String)
  roots [] m queue = ok queue
  roots (n ∷ ns) m queue = elim (lookup (id n) m) [
    | none ↦ panic
    | some c ↦ roots ns m (if c == 0 then id n ∷ queue else queue)
  ]

  -- One round's inner loop: each dependant loses one incoming edge.
  unfoldable pub relax : List T → Degrees → List String → DagResult (Degrees × List String)
  relax [] m queue = ok (m, queue)
  relax (n ∷ ns) m queue = elim (lookup (id n) m) [
    | none ↦ err (node_not_found (id n))
    | some zero ↦ panic
    | some (suc c) ↦ relax ns (insert (id n) c m) (if c == 0 then id n ∷ queue else queue)
  ]

  -- `if let Some(deps) = self.edges.get(node)`.
  unfoldable pub visit : Option (List T) → Degrees → List String → DagResult (Degrees × List String)
  visit none m queue = ok (m, queue)
  visit (some deps) m queue = relax deps m queue

  -- The `while` loop of `perform_topological_sort`; the result is `visited`.
  unfoldable pub sort_loop : ℕ → List (String × List T) → Degrees → List String → ℕ → DagResult ℕ
  sort_loop zero es m queue visited = out_of_fuel
  sort_loop (suc fuel) es m [] visited = ok visited
  sort_loop (suc fuel) es m (node ∷ queue) visited =
      visit (lookup node es) m queue >>= λ (m', queue'). sort_loop fuel es m' queue' (visited + 1)

  unfoldable pub perform_topological_sort : Dag T → Degrees → DagResult Bool
  perform_topological_sort d m = roots d.nodes m [] >>= λ queue.
      sort_loop (suc (node_count d)) d.edges m queue 0 >>= λ visited.
      ok (not (visited == node_count d))

  unfoldable pub has_cycle : Dag T → DagResult Bool
  has_cycle d = calculate_in_degrees d >>= perform_topological_sort d

  -- The `while` loop of `is_linear`, with its early return.
  pub linear_loop : ℕ → ℕ → List (String × List T) → Degrees → List String → ℕ → DagResult Bool
  linear_loop zero total es m ready visited = out_of_fuel
  linear_loop (suc fuel) total es m [] visited = ok (visited == total)
  linear_loop (suc fuel) total es m (node ∷ ready) visited = elim (ltb 1 (length (node ∷ ready))) [
    | true ↦ ok false
    | false ↦ visit (lookup node es) m ready >>= λ (m', ready').
        linear_loop fuel total es m' ready' (visited + 1)
  ]

  pub is_linear : Dag T → DagResult Bool
  is_linear d = calculate_in_degrees d >>= λ m. roots d.nodes m [] >>= λ ready.
      linear_loop (suc (node_count d)) (node_count d) d.edges m ready 0
