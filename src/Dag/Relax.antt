-- ===== src/Dag/Relax.antt =====
-- One visit of a node, and the degrees and roots that the loop starts from.
use octa.Common.{
  ℕ, suc, ◌+◌, ◌<◌, String, ◌≡◌, refl, Option, none, some, List, [], ◌∷◌, arith, ◌==◌, string_eq,
  nat_eq, ==_iff, ==_refl, if◌then◌else◌, count, lookup, insert, lookup-insert,
}
use octa.Dag.{Identifiable, DagResult, ok, Degrees, relax, visit}
use octa.Dag.Edges.{ids, targets_of}

-- What the degree map holds for `v` if `n` edges into it are left: it has the nodes' ids for keys.
abbrev pub degree_if : ℕ → ℕ → Option ℕ
degree_if occurrences n = if occurrences == 0 then none else some n

abbrev pub zero_degree : Option ℕ → ℕ
zero_degree none = 0
zero_degree (some n) = if n == 0 then 1 else 0

-- `names` are the nodes' ids, `left` counts the edges into each node that stay, and `popped`
-- how often it was taken from the queue.
pub record Relaxed (names : List String) (left popped : String → ℕ) (m : Degrees)
    (queue : List String) : Type 0 where
  pub degrees : (v : String) → lookup v m ≡ degree_if (count v names) (left v)
  pub queued : (v : String) → count v queue + popped v ≡ zero_degree (lookup v m)

abbrev pub Relaxes :
    List String → (String → ℕ) → (String → ℕ) → DagResult (Degrees × List String) → Type 0
Relaxes names left popped r =
    (m : Degrees) × (queue : List String) × (r ≡ ok (m, queue)) × Relaxed names left popped m queue

push_zero : String → ℕ → List String → List String
push_zero k c queue = if c == 0 then k ∷ queue else queue

-- One edge less into `k`.
decrement-Relaxed :
    (names : List String) (before left popped : String → ℕ) (m : Degrees) (queue : List String)
    (k : String)
    → ((v : String) → before v ≡ (if k == v then 1 else 0) + left v)
    → Relaxed names before popped m queue
    → 0 < count k names
    → Relaxed names left popped (insert k (left k) m) (push_zero k (left k) queue)
unfolding push_zero
decrement-Relaxed names before left popped m queue k split inv named = record {
  degrees = λ v. ground (arith, inv.degrees v, lookup-insert k v (left k) m, ==_iff k v, split v);
  queued = λ v.
      ground
        (arith, inv.degrees v, inv.queued v, lookup-insert k v (left k) m, ==_iff k v, split v);
}

module _ {T : Type 0} (I : Identifiable T) where
  open I use {id}

  pub relax_lem :
      (names : List String) (left popped : String → ℕ) (ns : List T) (m : Degrees)
      (queue : List String)
      → ((v : String) → 0 < count v (ids id ns) → 0 < count v names)
      → Relaxed names (λ v. count v (ids id ns) + left v) popped m queue
      → Relaxes names left popped (relax I ns m queue)
  unfolding relax
  relax_lem names left popped [] m queue known inv =
      (m, queue, refl, record { degrees = λ v. ground (arith, inv.degrees v); queued = inv.queued })
  relax_lem names left popped (n ∷ ns) m queue known inv =
      rw (found, relax)
        (relax_lem names left popped ns _ _ (λ v h. known v (omega arith))
          (unfold push_zero in
            decrement-Relaxed names _ (λ v. count v (ids id ns) + left v) popped m queue (id n)
              (λ v. omega arith) inv named))
    where
      named : 0 < count (id n) names
      named = known (id n) (ground (arith, ==_refl (id n)))

      found : lookup (id n) m ≡ some (suc (count (id n) (ids id ns) + left (id n)))
      found = ground (arith, inv.degrees (id n), ==_refl (id n), named)

  pub visit_lem :
      (names : List String) (left popped : String → ℕ) (deps : Option (List T)) (m : Degrees)
      (queue : List String)
      → ((v : String) → 0 < count v (targets_of id deps) → 0 < count v names)
      → Relaxed names (λ v. count v (targets_of id deps) + left v) popped m queue
      → Relaxes names left popped (visit I deps m queue)
  unfolding visit
  visit_lem names left popped none m queue known inv =
      (m, queue, refl, record { degrees = λ v. ground (arith, inv.degrees v); queued = inv.queued })
  visit_lem names left popped (some deps) m queue known inv =
      relax_lem names left popped deps m queue known inv
