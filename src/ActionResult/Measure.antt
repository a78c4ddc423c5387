-- ===== src/ActionResult/Measure.antt =====
-- The bounded counter measures exactly.
use octa.Common.{ℕ, ◌+◌, ◌≤◌, ◌<◌, ◌≡◌, ◌↔◌, true, List, [], ◌∷◌, arith, ltb, Bool-cases, inl, inr}
use octa.ActionResult.{ok, BoundedCounter, new_counter, write, write_all, measure_json, usize_range}

abbrev pub sum : List ℕ → ℕ
sum [] = 0
sum (n ∷ ns) = n + sum ns

write_all_iff :
    (c : BoundedCounter) (sizes : List ℕ)
    → c.maximum < usize_range
    → c.bytes ≤ c.maximum
    → (write_all c sizes ≡ true) ↔ (c.bytes + sum sizes ≤ c.maximum)
unfolding write_all write
write_all_iff c [] small fits = ground arith
write_all_iff c (n ∷ ns) small fits = elim (Bool-cases (ltb c.maximum (c.bytes + n))) [
  | inl over ↦ ground arith
  | inr under ↦
      ground (arith, write_all_iff (record c { bytes = c.bytes + n }) ns small (ground arith))
]

-- A value is within the limit exactly when the sum of all its writes is.
pub measure_json_iff :
    (maximum : ℕ) (sizes : List ℕ)
    → maximum < usize_range
    → (measure_json maximum sizes ≡ ok) ↔ (sum sizes ≤ maximum)
unfolding measure_json
measure_json_iff maximum sizes small =
    ground (arith, write_all_iff (new_counter maximum) sizes small (omega arith))
