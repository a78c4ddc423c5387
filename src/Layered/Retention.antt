-- ===== src/Layered/Retention.antt =====
-- Publishing an action record keeps every record that the local store holds.
use octa.Common.{
  ◌≡◌, refl, ◌∙◌, Bool, true, false, not, Option, none, some, Eq, ◌==◌, if◌then◌else◌,
}
use octa.Text.{Str}
use octa.Digest.{Digest}
use octa.Layered.{
  CacheLayer, cancelled, metadata, failure, CacheResult, ok, err, local, remote, WriteOutcome,
  written, already_present, conflict, ActionLookup, get_action, write_action, Reply, Steps, done,
  call, remote_warning, remote_success, or_return,
}
use octa.Layered.Actions.{
  combine, finish_write, remote_action_reply, existing_reply, write_action_if_absent,
}
use octa.Layered.Runs.{Stores, run}

-- A local store that creates a record if its action has none, and a remote store that leaves the
-- local one alone. `held` is the local mapping in one namespace.
pub record KeepsActions {R W : Type 0} ⦃e : Eq R⦄ (action : R → Digest) (stores : Stores R W)
    (namespace : Str) (held : Digest → W → Option R) : Type 0 where
  pub layer : Digest → W → CacheLayer
  pub read_absent :
      (a : Digest) (w : W)
      → held a w ≡ none
      → stores (get_action local namespace a) w ≡ (ok none, w)
  pub read_present :
      (a : Digest) (w : W) (q : R)
      → held a w ≡ some q
      → stores (get_action local namespace a) w
        ≡ (ok (some (record { result = q; layer = layer a w })), w)
  pub remote_law :
      (r : R) (a : Digest) (w : W)
      → held a (stores (write_action remote namespace r) w).1 ≡ held a w
  pub written_law :
      (r : R) (w : W)
      → (stores (write_action local namespace r) w).0 ≡ ok written
      → held (action r) (stores (write_action local namespace r) w).1 ≡ some r
  pub present_law :
      (r : R) (w : W)
      → (stores (write_action local namespace r) w).0 ≡ ok already_present
      → held (action r) (stores (write_action local namespace r) w).1 ≡ some r
  pub kept_law :
      (r q : R) (w : W) (a : Digest)
      → held a w ≡ some q
      → held a (stores (write_action local namespace r) w).1 ≡ some q

module _ {R W : Type 0} ⦃e : Eq R⦄ (action : R → Digest) (stores : Stores R W) (namespace : Str)
    (held : Digest → W → Option R) (laws : KeepsActions action stores namespace held) where
  -- Every call of the steps keeps the record `q` of `a`.
  abbrev Keeping : {A : Type 0} → Digest → R → Steps R A → Type 0
  Keeping a q (done x) = Unit
  Keeping a q (call c k) =
      ((w : W) → held a w ≡ some q → held a (stores c w).1 ≡ some q)
      × ((x : CacheResult (Reply c)) → Keeping a q (k x))
  Keeping a q (remote_warning s) = Keeping a q s
  Keeping a q (remote_success s) = Keeping a q s

  run_keeps :
      {A : Type 0} (a : Digest) (q : R) (s : Steps R A) (w : W) (flag : Bool)
      → Keeping a q s
      → held a w ≡ some q
      → held a (run stores s w flag).world ≡ some q
  unfolding run
  run_keeps a q (done x) w flag k h = h
  run_keeps a q (call c f) w flag k h =
      run_keeps a q (f (stores c w).0) (stores c w).1 flag (k.1 (stores c w).0) (k.0 w h)
  run_keeps a q (remote_warning s) w flag k h = run_keeps a q s w true k h
  run_keeps a q (remote_success s) w flag k h = run_keeps a q s w false k h

  read_keeps :
      (b a : Digest) (q : R) (w : W)
      → held a w ≡ some q
      → held a (stores (get_action local namespace b) w).1 ≡ some q
  read_keeps b a q w h = by_cases (held b w) refl
    where
      by_cases :
          (x : Option R)
          → held b w ≡ x
          → held a (stores (get_action local namespace b) w).1 ≡ some q
      by_cases none hx = rw (laws.read_absent b w hx) h
      by_cases (some p) hx = rw (laws.read_present b w p hx) h

  publish-Keeping :
      (r : R) (a : Digest) (q : R) → Keeping a q (write_action_if_absent action namespace r)
  unfolding write_action_if_absent existing_reply remote_action_reply finish_write
  publish-Keeping r a q = (read_keeps (action r) a q, existing_keeps)
    where
      second_keeps :
          (other : Option WriteOutcome) (x : CacheResult WriteOutcome)
          → Keeping a q (or_return {R = R} (λ outcome. done (ok (combine outcome other))) x)
      second_keeps other (ok x) = tt
      second_keeps other (err x) = tt

      finish_keeps :
          (l : Option (ActionLookup R)) (other : Option WriteOutcome)
          → Keeping a q (finish_write namespace r l other)
      finish_keeps (some l) other = tt
      finish_keeps none other = (λ w. laws.kept_law r q w a, second_keeps other)

      remote_keeps :
          (l : Option (ActionLookup R)) (x : CacheResult WriteOutcome)
          → Keeping a q (remote_action_reply namespace r l x)
      remote_keeps l (ok written) = finish_keeps l (some written)
      remote_keeps l (ok already_present) = finish_keeps l (some already_present)
      remote_keeps l (ok conflict) = tt
      remote_keeps l (err cancelled) = tt
      remote_keeps l (err metadata) = finish_keeps l none
      remote_keeps l (err failure) = finish_keeps l none

      write_keeps :
          (w : W)
          → held a w ≡ some q
          → held a (stores (write_action remote namespace r) w).1 ≡ some q
      write_keeps w h = laws.remote_law r a w ∙ h

      differs_keeps :
          (l : ActionLookup R) (t : Bool)
          → Keeping a q (
              if t
              then done (ok conflict)
              else call
                  (write_action remote namespace r)
                  (remote_action_reply namespace r (some l)))
      differs_keeps l true = tt
      differs_keeps l false = (write_keeps, remote_keeps (some l))

      existing_keeps :
          (x : CacheResult (Option (ActionLookup R)))
          → Keeping a q (or_return (existing_reply namespace r) x)
      existing_keeps (ok none) = (write_keeps, remote_keeps none)
      existing_keeps (ok (some l)) = differs_keeps l (not (l.result == r))
      existing_keeps (err x) = tt

  -- Publishing never replaces the local record of any action, whatever the remote store answers.
  pub publication_keeps_records :
      (r q : R) (a : Digest) (w : W) (flag : Bool)
      → held a w ≡ some q
      → held a (run stores (write_action_if_absent action namespace r) w flag).world ≡ some q
  publication_keeps_records r q a w flag h =
      run_keeps a q (write_action_if_absent action namespace r) w flag (publish-Keeping r a q) h
