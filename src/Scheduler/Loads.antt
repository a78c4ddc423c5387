-- ===== src/Scheduler/Loads.antt =====
-- What a run's events and workers amount to, node by node.
use octa.Common.{
  ℕ, ◌+◌, String, ◌≡◌, List, [], ◌∷◌, ◌++◌, arith, ◌==◌, string_eq, nat_eq, if◌then◌else◌, count,
}
use octa.Dag.{Identifiable}
use octa.Dag.Edges.{ids}
use octa.Scheduler.{starting, executing, recorded, releasing}
use octa.Scheduler.Runs.{Event, started, succeeded, failed, published, Worker}

-- The nodes that were started, that succeeded, that failed, and whose dependants were told so.
abbrev pub starts : List Event → List String
starts [] = []
starts (started k ∷ h) = k ∷ starts h
starts (succeeded k ∷ h) = starts h
starts (failed k ∷ h) = starts h
starts (published k ∷ h) = starts h

abbrev pub successes : List Event → List String
successes [] = []
successes (started k ∷ h) = successes h
successes (succeeded k ∷ h) = k ∷ successes h
successes (failed k ∷ h) = successes h
successes (published k ∷ h) = successes h

abbrev pub publications : List Event → List String
publications [] = []
publications (started k ∷ h) = publications h
publications (succeeded k ∷ h) = publications h
publications (failed k ∷ h) = publications h
publications (published k ∷ h) = k ∷ publications h

abbrev pub failures : List Event → List String
failures [] = []
failures (started k ∷ h) = failures h
failures (succeeded k ∷ h) = failures h
failures (failed k ∷ h) = k ∷ failures h
failures (published k ∷ h) = failures h

abbrev pub total : {W : Type 0} → (W → ℕ) → List W → ℕ
total f [] = 0
total f (w ∷ ws) = f w + total f ws

pub total-append :
    {W : Type 0} (f : W → ℕ) (xs ys : List W) → total f (xs ++ ys) ≡ total f xs + total f ys
total-append f [] ys = omega arith
total-append f (x ∷ xs) ys = omega (arith, total-append f xs ys)

module _ {T : Type 0} (I : Identifiable T) where
  open I use {id}

  abbrev pub is_node : String → T → ℕ
  is_node v n = if id n == v then 1 else 0

  -- A worker that has yet to lower its dependants' degrees.
  abbrev pub busy : String → Worker T → ℕ
  busy v (n, starting) = is_node v n
  busy v (n, executing) = is_node v n
  busy v (n, recorded) = is_node v n
  busy v (n, releasing ready) = 0

  -- A worker whose node succeeded, and that has yet to lower its dependants' degrees.
  abbrev pub settled : String → Worker T → ℕ
  settled v (n, starting) = 0
  settled v (n, executing) = 0
  settled v (n, recorded) = is_node v n
  settled v (n, releasing ready) = 0

  -- How often a worker is about to send `v`.
  abbrev pub pending : String → Worker T → ℕ
  pending v (n, starting) = 0
  pending v (n, executing) = 0
  pending v (n, recorded) = 0
  pending v (n, releasing ready) = count v (ids id ready)
