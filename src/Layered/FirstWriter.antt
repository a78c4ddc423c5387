-- ===== src/Layered/FirstWriter.antt =====
-- What publishing an action record does to the local store's mapping of actions to records.
use octa.Common.{
  ◌≡◌, ◌≢◌, refl, ap, ◌∙◌, Bool, true, false, not, Option, none, some, arith, Eq, ◌==◌, ==_iff,
  if◌then◌else◌,
}
use octa.Text.{Str}
use octa.Digest.{Digest}
use octa.Layered.{
  cancelled, metadata, failure, CacheResult, ok, err, local, remote, WriteOutcome, written,
  already_present, conflict, is_conflict, ActionLookup, get_action, write_action, Steps, done, call,
  or_return,
}
use octa.Layered.Actions.{
  combine, finish_write, remote_action_reply, existing_reply, write_action_if_absent,
}
use octa.Layered.Runs.{Stores, run}

-- A local store whose answers about the action of `r` say what it holds, and a remote store that
-- leaves the local one alone. `held` is the local mapping in one namespace.
pub record HoldsActions {R W : Type 0} (action : R → Digest) (stores : Stores R W) (namespace : Str)
    (held : Digest → W → Option R) (r : R) : Type 0 where
  pub read_law :
      (w : W) (l : ActionLookup R)
      → (stores (get_action local namespace (action r)) w).0 ≡ ok (some l)
      → held (action r) (stores (get_action local namespace (action r)) w).1 ≡ some l.result
  pub remote_law :
      (w : W) → held (action r) (stores (write_action remote namespace r) w).1 ≡ held (action r) w
  pub written_law :
      (w : W)
      → (stores (write_action local namespace r) w).0 ≡ ok written
      → held (action r) (stores (write_action local namespace r) w).1 ≡ some r
  pub present_law :
      (w : W)
      → (stores (write_action local namespace r) w).0 ≡ ok already_present
      → held (action r) (stores (write_action local namespace r) w).1 ≡ some r

module _ {R W : Type 0} ⦃e : Eq R⦄ (action : R → Digest) (stores : Stores R W) (namespace : Str)
    (held : Digest → W → Option R) (r : R)
    (laws : HoldsActions action stores namespace held r) where
  -- Where the steps report a value without a conflict, the local store has `r` in the end.
  abbrev Durable : Steps R (CacheResult WriteOutcome) → W → Bool → Type 0
  Durable s w flag =
      (o : WriteOutcome)
      → (run stores s w flag).value ≡ ok o
      → is_conflict o ≡ false
      → held (action r) (run stores s w flag).world ≡ some r

  -- The local write, at the end of a publication.
  local_write :
      (other : Option WriteOutcome) (w : W) (flag : Bool)
      → Durable (finish_write namespace r none other) w flag
  unfolding finish_write run combine
  local_write other w flag =
      let reply = stores (write_action local namespace r) w in
      replied reply.0 reply.1 (laws.written_law w) (laws.present_law w)
    where
      replied :
          (x : CacheResult WriteOutcome) (v : W)
          → (x ≡ ok written → held (action r) v ≡ some r)
          → (x ≡ ok already_present → held (action r) v ≡ some r)
          → Durable (or_return (λ outcome. done (ok (combine outcome other))) x) v flag
      replied (ok written) v new same o h c = new refl
      replied (ok already_present) v new same o h c = same refl
      replied (ok conflict) v new same o h c = absurd (ground arith)
      replied (err x) v new same o h c = absurd (ground arith)

  -- The remote write, and what follows it.
  remote_write :
      (existing : Option (ActionLookup R)) (x : CacheResult WriteOutcome) (v : W) (flag : Bool)
      → (existing ≢ none → held (action r) v ≡ some r)
      → Durable (remote_action_reply namespace r existing x) v flag
  unfolding remote_action_reply finish_write run
  remote_write existing (ok conflict) v flag known o h c = absurd (ground arith)
  remote_write existing (err cancelled) v flag known o h c = absurd (ground arith)
  remote_write none (ok written) v flag known o h c = local_write (some written) v false o h c
  remote_write none (ok already_present) v flag known o h c =
      local_write (some already_present) v false o h c
  remote_write none (err metadata) v flag known o h c = local_write none v true o h c
  remote_write none (err failure) v flag known o h c = local_write none v true o h c
  remote_write (some l) (ok written) v flag known o h c = known (ground arith)
  remote_write (some l) (ok already_present) v flag known o h c = known (ground arith)
  remote_write (some l) (err metadata) v flag known o h c = known (ground arith)
  remote_write (some l) (err failure) v flag known o h c = known (ground arith)

  publish_lem : (w : W) (flag : Bool) → Durable (write_action_if_absent action namespace r) w flag
  unfolding write_action_if_absent existing_reply run
  publish_lem w flag =
      let reply = stores (get_action local namespace (action r)) w in
      got reply.0 reply.1 (laws.read_law w)
    where
      remote_reply : W → CacheResult WriteOutcome × W
      remote_reply v = stores (write_action remote namespace r) v

      differs :
          (l : ActionLookup R) (t : Bool) (v : W)
          → (l.result == r) ≡ t
          → held (action r) v ≡ some l.result
          → Durable
              (if not t
                then done (ok conflict)
                else call
                    (write_action remote namespace r)
                    (remote_action_reply namespace r (some l)))
              v
              flag
      differs l false v hl hw o h c = absurd (ground arith)
      differs l true v hl hw o h c =
          remote_write (some l) (remote_reply v).0 (remote_reply v).1 flag
            (λ n. laws.remote_law v ∙ (hw ∙ ap some ((==_iff l.result r).0 hl))) o h c

      got :
          (x : CacheResult (Option (ActionLookup R))) (v : W)
          → ((l : ActionLookup R) → x ≡ ok (some l) → held (action r) v ≡ some l.result)
          → Durable (or_return (existing_reply namespace r) x) v flag
      got (err e) v known o h c = absurd (ground arith)
      got (ok none) v known o h c =
          remote_write none (remote_reply v).0 (remote_reply v).1 flag (λ n. absurd (n refl)) o h c
      got (ok (some l)) v known o h c = differs l (l.result == r) v refl (known l refl) o h c

  -- Publishing a record that ends without a conflict leaves that record in the local store.
  pub publication_is_durable :
      (w : W) (flag : Bool) (o : WriteOutcome)
      → (run stores (write_action_if_absent action namespace r) w flag).value ≡ ok o
      → is_conflict o ≡ false
      → held (action r) (run stores (write_action_if_absent action namespace r) w flag).world
        ≡ some r
  publication_is_durable w flag = publish_lem w flag
