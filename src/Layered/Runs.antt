-- ===== src/Layered/Runs.antt =====
-- Runs of the layered cache: the two stores answer from a world `W`, which they may change. A run
-- records each call with whether it was cancelled, and each emitted warning and its reset.
use octa.Common.{Bool, true, false, List, [], ◌∷◌, Eq, if◌then◌else◌}
use octa.Text.{Str}
use octa.Digest.{Digest}
use octa.BlobDescriptor.{BlobDescriptor}
use octa.Layered.{
  cancelled, metadata, failure, CacheResult, ok, err, WriteOutcome, ActionLookup, Reader, Call,
  Reply, Steps, done, call, remote_warning, remote_success,
}
use octa.Common.{Option}
use octa.Layered.Lookup.{layered_get_action, find_missing_blobs}
use octa.Layered.Blobs.{layered_read_blob, recover_corrupt_blob, write_blob_if_absent}
use octa.Layered.Actions.{write_action_if_absent, commit_verified_hit}

abbrev pub Stores : (R W : Type 0) → Type 0
Stores R W = (c : Call R) → W → CacheResult (Reply c) × W

pub data Event : Type 0 where
  -- A reply of a store, and whether it is `Cancelled`.
  replied : Bool → Event
  -- `tracing::warn!`: the first failure of the remote store since it last worked.
  warned : Event
  -- `tracing::debug!`: a further failure.
  remains_degraded : Event
  -- The remote store worked.
  restored : Event

abbrev pub is_cancelled : {A : Type 0} → CacheResult A → Bool
is_cancelled (err cancelled) = true
is_cancelled (err metadata) = false
is_cancelled (err failure) = false
is_cancelled (ok a) = false

pub record Outcome (W A : Type 0) : Type 0 where
  pub value : A
  pub world : W
  -- `remote_warning_emitted`.
  pub warning_emitted : Bool
  pub events : List Event

abbrev pub prepend : {W A : Type 0} → Event → Outcome W A → Outcome W A
prepend e o = record o { events = e ∷ o.events }

-- `remote_warning` swaps the flag to true, and warns if it was false.
unfoldable pub run : {R W A : Type 0} → Stores R W → Steps R A → W → Bool → Outcome W A
run stores (done a) w flag = record { value = a; world = w; warning_emitted = flag; events = [] }
run stores (call c k) w flag =
    let (reply, after) = stores c w in
    prepend (replied (is_cancelled reply)) (run stores (k reply) after flag)
run stores (remote_warning s) w flag =
    prepend (if flag then remains_degraded else warned) (run stores s w true)
run stores (remote_success s) w flag = prepend restored (run stores s w false)

-- The operations of the `CacheStore` trait.
pub data Operation (R : Type 0) : Type 0 where
  get : Str → Digest → Operation R
  missing : List BlobDescriptor → Operation R
  read : BlobDescriptor → Operation R
  recover : BlobDescriptor → Operation R
  write : BlobDescriptor → Reader → Operation R
  publish_action : Str → R → Operation R
  commit : Str → R → Operation R

abbrev pub Output : {R : Type 0} → Operation R → Type 0
Output {R} (get n a) = Option (ActionLookup R)
Output (missing bs) = List BlobDescriptor
Output (read b) = Reader
Output (recover b) = Option Reader
Output (write b r) = WriteOutcome
Output (publish_action n r) = WriteOutcome
Output (commit n r) = Unit {0}

module _ {R : Type 0} ⦃e : Eq R⦄ (action : R → Digest) where
  unfoldable pub perform : (o : Operation R) → Steps R (CacheResult (Output o))
  perform (get n a) = layered_get_action n a
  perform (missing bs) = find_missing_blobs bs
  perform (read b) = layered_read_blob b
  perform (recover b) = recover_corrupt_blob b
  perform (write b r) = write_blob_if_absent b r
  perform (publish_action n r) = write_action_if_absent action n r
  perform (commit n r) = commit_verified_hit n r
