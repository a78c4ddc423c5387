-- ===== src/Scheduler/Cleanup.antt =====
-- The cleanup after a run: which of its deferred actions are executed, and in which order.
use octa.Common.{
  ++_nil, ++_assoc, String, ◌≡◌, ◌↔◌, ◌⊎◌, refl, sym, ap, ◌∙◌, true, false, ◌&&◌, ◌||◌, Bool-cases,
  inl, inr, Option, List, [], ◌∷◌, ◌++◌, arith, ◌==◌, string_eq, nat_eq, ==_iff, contains, filter,
  Mem, All, all, ◌≤◌, subst, Mem-filter, Mem-of_filter, contains-all,
}
use octa.Dag.{Identifiable, ok}
use octa.Scheduler.{
  Plan, Shared, begin, reach, record_success, handle_error, send_ready, retire, is_deferred,
  record_task, schedule_initial_tasks, initial_tasks,
}
use octa.Scheduler.Runs.{Event, Worker, Run}
use octa.Scheduler.Lowering.{DagResult-ok, ok-injective}
use octa.Scheduler.Loads.{successes}
use octa.Scheduler.Deferred.{
  ExecutorError, ActionOutcome, finished, broken, Action, DeferredRun, sort_actions, is_unfinished,
  after_action, run_actions, run_deferred,
}
use octa.Scheduler.LastFirst.{
  LastFirst, Mem-sort_actions, sort_actions-LastFirst, filter-LastFirst, times, times-filter,
  times-sort_actions,
}

contains-cons :
    (k j : String) (ks : List String)
    → (contains ks k ≡ true) ↔ Mem k ks
    → (contains (j ∷ ks) k ≡ true) ↔ Mem k (j ∷ ks)
contains-cons k j ks rest = (found (Bool-cases (j == k)), there)
  where
    found : ((j == k) ≡ true) ⊎ ((j == k) ≡ false) → contains (j ∷ ks) k ≡ true → Mem k (j ∷ ks)
    found (inl e) h = inl ((==_iff j k).0 e)
    found (inr e) h = inr (rest.0 (ground (arith, e, h)))

    there : Mem k (j ∷ ks) → contains (j ∷ ks) k ≡ true
    there (inl e) = ground (arith, (==_iff j k).1 e)
    there (inr m) = ground (arith, rest.1 m, Bool-cases (j == k))

contains-Mem : (k : String) (ks : List String) → (contains ks k ≡ true) ↔ Mem k ks
contains-Mem k [] = (λ h. absurd cc, λ m. elim m [ ])
contains-Mem k (j ∷ ks) = contains-cons k j ks (contains-Mem k ks)

all-contains :
    (completed ks : List String)
    → (all (contains completed) ks ≡ true) ↔ All (λ k. Mem k completed) ks
all-contains completed [] = (λ h. tt, λ h. refl)
all-contains completed (k ∷ ks) = (
  λ h. (
    (contains-Mem k completed).0 (ground (arith, h, Bool-cases (contains completed k))),
    (all-contains completed ks).0 (ground (arith, h, Bool-cases (contains completed k))),
  ),
  λ h. ground (arith, (contains-Mem k completed).1 h.0, (all-contains completed ks).1 h.1),
)

module _ (perform : Action → ActionOutcome) (log : Action → Option ExecutorError)
    (completed : List String) where
  after_action-performed :
      (o : ActionOutcome) (l : Option ExecutorError) (x : Action) (r : DeferredRun)
      → (after_action o l x r).performed ≡ r.performed ++ x ∷ []
  unfolding after_action
  after_action-performed (finished tasks true) l x r = refl
  after_action-performed (finished tasks false) l x r = refl
  after_action-performed (broken e) l x r = refl

  run_actions-performed :
      (xs : List Action) (r : DeferredRun)
      → (run_actions perform log completed xs r).performed
        ≡ r.performed ++ filter (is_unfinished completed) xs
  unfolding run_actions
  run_actions-performed [] r = sym (++_nil r.performed)
  run_actions-performed (x ∷ xs) r = elim (Bool-cases (is_unfinished completed x)) [
    | inl e ↦
        rw (e, run_actions)
          (run_actions-performed xs (after_action (perform x) (log x) x r)
            ∙ ap (λ l. l ++ filter (is_unfinished completed) xs)
                (after_action-performed (perform x) (log x) x r)
            ∙ ++_assoc r.performed (x ∷ []) (filter (is_unfinished completed) xs))
    | inr e ↦ rw (e, run_actions) (run_actions-performed xs r)
  ]

  performed-filter :
      (deferred : List Action)
      → (run_deferred perform log completed deferred).performed
        ≡ filter (is_unfinished completed) (sort_actions deferred)
  unfolding run_deferred
  performed-filter deferred = run_actions-performed (sort_actions deferred) _

  performed_iff :
      (deferred : List Action) (x : Action)
      → Mem x (run_deferred perform log completed deferred).performed
        ↔ (Mem x deferred × (is_unfinished completed x ≡ true))
  performed_iff deferred x =
      let q = is_unfinished completed in
      let sorted = Mem-sort_actions x deferred in
      rw (performed-filter deferred) (
        λ m. let (k, u) = Mem-of_filter q x _ m in (sorted.0 k, u),
        λ m. Mem-filter q x _ (sorted.1 m.0) m.1,
      )

  -- What the plan has not reached, and what stands behind completed tasks only.
  abbrev IsLeft : Action → Type 0
  IsLeft x = (Mem x.0 completed → ⊥) × All (λ k. Mem k completed) x.1.registered_after

  is_unfinished_iff : (x : Action) → (is_unfinished completed x ≡ true) ↔ IsLeft x
  is_unfinished_iff x = (
    λ u. (
      λ m. absurd (ground (arith, u, (contains-Mem x.0 completed).1 m)),
      (all-contains completed x.1.registered_after).0
          (ground (arith, u, Bool-cases (contains completed x.0))),
    ),
    λ l. unreached l (Bool-cases (contains completed x.0)),
  )
    where
      unreached :
          IsLeft x
          → (contains completed x.0 ≡ true) ⊎ (contains completed x.0 ≡ false)
          → is_unfinished completed x ≡ true
      unreached l (inl e) = absurd (l.0 ((contains-Mem x.0 completed).0 e))
      unreached l (inr e) = ground (arith, e, (all-contains completed x.1.registered_after).1 l.1)

  -- The cleanup executes exactly the deferred actions whose own barriers have not completed and all of
  -- whose tasks in `registered_after` have, none more often than it is registered, and the last
  -- declared comes first.
  pub run_deferred_iff :
      (deferred : List Action) (x : Action)
      → LastFirst (run_deferred perform log completed deferred).performed
        × (Mem x (run_deferred perform log completed deferred).performed ↔ (
            Mem x deferred
            × (Mem x.0 completed → ⊥)
            × All (λ k. Mem k completed) x.1.registered_after))
        × (times x.0 (run_deferred perform log completed deferred).performed ≤ times x.0 deferred)
  run_deferred_iff deferred x =
      let q = is_unfinished completed in
      let left = is_unfinished_iff x in
      let iff = performed_iff deferred x in
      (
        subst LastFirst (sym (performed-filter deferred))
            (filter-LastFirst q _ (sort_actions-LastFirst deferred)),
        (
          λ m. let (k, u) = iff.0 m in (k, (left.0 u).0, (left.0 u).1),
          λ m. iff.1 (m.0, left.1 (m.1, m.2)),
        ),
        omega (
          arith,
          ap (times x.0) (performed-filter deferred),
          times-filter q x.0 (sort_actions deferred),
          times-sort_actions x.0 deferred,
        ),
      )

module _ {T : Type 0} (I : Identifiable T) (p : Plan T) where
  open I use {id}

  -- What stands among the completed tasks, and is not a barrier, has succeeded; and what has
  -- succeeded stands there.
  record Recorded (h : List Event) (s : Shared T) : Type 0 where
    sound :
        (k : String)
        → is_deferred p k ≡ false
        → contains s.completed_tasks k ≡ true
        → contains (successes h) k ≡ true
    complete : (k : String) → contains (successes h) k ≡ true → contains s.completed_tasks k ≡ true

  contains-record_task :
      (j k : String) (ks : List String) → contains (record_task j ks) k ≡ (j == k || contains ks k)
  contains-record_task j k ks = ground (arith, ==_iff j k)

  begin-completed : (s : Shared T) → begin I p ≡ ok s → s.completed_tasks ≡ []
  unfolding begin schedule_initial_tasks
  begin-completed s h =
      let (m, counted, rest) = DagResult-ok _ (schedule_initial_tasks I p) s h in
      let (initial, sent, built) = DagResult-ok (initial_tasks I p p.dag.nodes m) _ s rest in
      ap (λ (t : Shared T). t.completed_tasks) (sym (ok-injective built))

  reach-contains :
      (s : Shared T) (n : T) (k : String)
      → contains (reach I p n s).completed_tasks k
        ≡ (is_deferred p (id n) && id n == k) || contains s.completed_tasks k
  unfolding reach
  reach-contains s n k = ground (arith, ==_iff (id n) k)

  send_ready-completed :
      (n : T) (s : Shared T) → (send_ready n s).completed_tasks ≡ s.completed_tasks
  unfolding send_ready
  send_ready-completed n s = ground arith

  Run-Recorded :
      (h : List Event) (s : Shared T) (ws : List (Worker T)) → Run I p h s ws → Recorded h s
  unfolding record_success handle_error retire
  Run-Recorded _ _ _ (Run.start s e) =
      let none_yet = begin-completed s e in
      record {
        sound =
            λ k d c. absurd (ground (arith, c, ap (λ (l : List String). contains l k) none_yet));
        complete = λ k c. absurd cc;
      }
  Run-Recorded _ _ _ (Run.receive h s ws n queue r o e) =
      let i = Run-Recorded h s ws r in record { sound = i.sound; complete = i.complete }
  Run-Recorded _ _ _ (Run.stop_receiving h s ws r o) =
      let i = Run-Recorded h s ws r in record { sound = i.sound; complete = i.complete }
  Run-Recorded _ _ _ (Run.cancel h s ws r) =
      let i = Run-Recorded h s ws r in record { sound = i.sound; complete = i.complete }
  Run-Recorded _ _ _ (Run.execute h s before after n r) =
      let i = Run-Recorded h s _ r in
      record {
        sound = λ k d c.
            let same : (id n == k) ≡ true → is_deferred p (id n) ≡ is_deferred p k =
              λ e. ap (is_deferred p) ((==_iff (id n) k).0 e) in
            i.sound k d (ground (arith, reach-contains s n k, c, d, same));
        complete = λ k c. ground (arith, reach-contains s n k, i.complete k c);
      }
  Run-Recorded _ _ _ (Run.succeed h s before after n r o) =
      let i = Run-Recorded h s _ r in
      record {
        sound = λ k d c.
            ground (arith, contains-record_task (id n) k s.completed_tasks, c, i.sound k d);
        complete =
            λ k c. ground (arith, contains-record_task (id n) k s.completed_tasks, c, i.complete k);
      }
  Run-Recorded _ _ _ (Run.succeed_cancelled h s before after n r o) = Run-Recorded h s _ r
  Run-Recorded _ _ _ (Run.fail_early h s before after n r) =
      let i = Run-Recorded h s _ r in record { sound = i.sound; complete = i.complete }
  Run-Recorded _ _ _ (Run.fail h s before after n r) =
      let i = Run-Recorded h s _ r in record { sound = i.sound; complete = i.complete }
  Run-Recorded _ _ _ (Run.publish h s before after n m ready r e) =
      let i = Run-Recorded h s _ r in record { sound = i.sound; complete = i.complete }
  Run-Recorded _ _ _ (Run.send h s before after n next ready r) =
      let i = Run-Recorded h s _ r in
      let same = send_ready-completed next s in
      record {
        sound = λ k d c. i.sound k d (ap (λ (l : List String). contains l k) (sym same) ∙ c);
        complete = λ k c. ap (λ (l : List String). contains l k) same ∙ i.complete k c;
      }
  Run-Recorded _ _ _ (Run.send_refused h s before after n next ready r o c) =
      let i = Run-Recorded h s _ r in record { sound = i.sound; complete = i.complete }
  Run-Recorded _ _ _ (Run.leave h s before after n r) =
      let i = Run-Recorded h s _ r in record { sound = i.sound; complete = i.complete }

  -- Let the cleanup after a run execute a deferred action, and let a task be registered before the
  -- action and be no barrier. Then the task had succeeded in the run, and the action had not.
  pub cleanup_after_success :
      (h : List Event) (s : Shared T) (ws : List (Worker T)) (perform : Action → ActionOutcome)
      (log : Action → Option ExecutorError) (x : Action) (k : String)
      → Run I p h s ws
      → Mem x (run_deferred perform log s.completed_tasks p.deferred).performed
      → contains x.1.registered_after k ≡ true
      → is_deferred p k ≡ false
      → (contains (successes h) k ≡ true) × (contains (successes h) x.0 ≡ false)
  cleanup_after_success h s ws perform log x k r m registered plain =
      let i = Run-Recorded h s ws r in
      let unfinished = ((performed_iff perform log s.completed_tasks p.deferred x).0 m).1 in
      (
        i.sound k plain (
            contains-all (contains s.completed_tasks) k x.1.registered_after
              (ground (arith, unfinished)) registered),
        not_done (Bool-cases (contains (successes h) x.0)) i unfinished,
      )
    where
      not_done :
          (contains (successes h) x.0 ≡ true) ⊎ (contains (successes h) x.0 ≡ false)
          → Recorded h s
          → is_unfinished s.completed_tasks x ≡ true
          → contains (successes h) x.0 ≡ false
      not_done (inl e) i u = absurd (ground (arith, u, i.complete x.0 e))
      not_done (inr e) i u = e
