-- ===== src/Dag/History.antt =====
-- The graphs that a client can build.
use octa.Common.{◌≡◌, subst, arith, true}
use octa.Dag.{Identifiable, Dag, ok, contains_node, new, add_node, add_dependency}
use octa.Dag.Build.{
  new-IsWellFormed, add_node-IsWellFormed, with_dependency, with_dependency-IsWellFormed,
}
use octa.Dag.Cycles.{IsWellFormed}

module _ {T : Type 0} (I : Identifiable T) where
  -- A graph that comes from `new` by calls of `add_node` and successful calls of `add_dependency`.
  pub data Built : Dag T → Type 0 where
    empty : Built (new I)
    node : (d : Dag T) (n : T) → Built d → Built (add_node I d n)
    dependency : (d e : Dag T) (from to : T) → Built d → add_dependency I d from to ≡ ok e → Built e

  add_dependency-ok :
      (d e : Dag T) (from to : T)
      → add_dependency I d from to ≡ ok e
      → (contains_node I d.nodes from ≡ true)
        × (contains_node I d.nodes to ≡ true)
        × (with_dependency I d from to ≡ e)
  unfolding add_dependency
  add_dependency-ok d e from to h = ground arith

  -- Every graph that was built so has distinct ids and keys, and its edges join its nodes.
  pub Built-IsWellFormed : (d : Dag T) → Built d → IsWellFormed I d
  Built-IsWellFormed _ empty = new-IsWellFormed I
  Built-IsWellFormed _ (node d n b) = add_node-IsWellFormed I d n (Built-IsWellFormed d b)
  Built-IsWellFormed e (dependency d _ from to b h) =
      let (has_from, has_to, same) = add_dependency-ok d e from to h in
      subst (IsWellFormed I) same
        (with_dependency-IsWellFormed I d from to (Built-IsWellFormed d b) has_from has_to)
