-- ===== src/Circuit/Examples.antt =====
-- A breaker that two failures open, and the theorems at it.
use octa.Common.{◌≡◌, refl, arith, nat_eq}
use octa.Circuit.{CircuitPermit, permit, success, failure, checked_add}
use octa.Circuit.History.{World, Reach, Step, permitted, start, open_is_settled}

abbrev first : CircuitPermit
first = record { generation = 0 }

abbrev entered : World
entered = permitted (start 1 30) 5

abbrev failed : World
failed = record entered { breaker = failure 1000 entered.breaker first 9 }

failed-Reach : Reach 1000 (start 1 30) failed
unfolding permit
failed-Reach =
    Reach.next (Reach.next Reach.here (Step.permits (start 1 30) 5 (omega arith)))
      (Step.fails entered first 9 (omega arith) (omega arith) (omega arith))

open_is_settled_example :
    (success failed.breaker first ≡ failed.breaker)
    × (failure 1000 failed.breaker first 20 ≡ failed.breaker)
unfolding permit failure checked_add
open_is_settled_example =
    open_is_settled 1000 1 30 failed 39 20 first (omega arith) (omega arith) failed-Reach refl
      (omega arith)

entered-Reach : Reach 1000 (start 1 30) entered
entered-Reach = Reach.next Reach.here (Step.permits (start 1 30) 5 (omega arith))
