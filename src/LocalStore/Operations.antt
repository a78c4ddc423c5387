-- ===== src/LocalStore/Operations.antt =====
-- The operations of `LocalCacheStore` (crates/octa-cache/src/local/mod.rs): the methods of the
-- `CacheStore` trait, and the quarantine of a conflicting action.
use octa.Common.{
  ℕ, zero, suc, ◌*◌, ◌-◌, Bool, true, false, not, ◌&&◌, ◌||◌, Option, none, some, List, [], ◌∷◌,
  ◌==◌, nat_eq, ltb, leb, if◌then◌else◌, length,
}
use octa.Text.{Str, str_eq}
use octa.Digest.{Digest}
use octa.BlobDescriptor.{BlobDescriptor, validate_blob, digest_beq}
use octa.ActionResult
use octa.ActionResult.{ActionResultV1, Serde, Verdict, max_action_result_wire_bytes}
use octa.Layered.{WriteOutcome, written, already_present, conflict}
use octa.Ledger.{u64_range, saturating_add}
use octa.LocalStore.{
  protocol, limit, invalid_bundle, corrupt, io, CacheResult, ok, err, CachePath, path_eq, Entry,
  regular, irregular, Io, pure, raise, lift, attempt, ◌>>=◌, ◌>>◌, step, inspect, discard,
  or_discard, LocalCacheConfig, blob_path, Primitives, action_path, verify_encoded_blob,
}
use octa.LocalStore.Objects.{
  valid_blob, quarantine, quarantine_locked, quarantine_blob, publish_temporary, publish_bytes,
  reserve_capacity, finish_reservation, verify_content, existing_blob_is_valid,
}

-- `take` of a stream, and `copy` of it.
abbrev pub take : ℕ → List ℕ → List ℕ
take zero bs = []
take (suc n) [] = []
take (suc n) (b ∷ bs) = b ∷ take n bs

-- `serde_json` on action records, with the sizes of what it writes.
pub record Json (V : Type 0) : Type 0 where
  pub serde : Serde V
  pub to_vec : ActionResultV1 V → List ℕ
  pub from_slice : List ℕ → Option (ActionResultV1 V)

-- `u64::saturating_mul`.
abbrev pub saturating_mul : ℕ → ℕ → ℕ
saturating_mul m n = if ltb (m * n) u64_range then m * n else u64_range - 1

module _ (config : LocalCacheConfig) where
  unfoldable pub validate_blob_resources : BlobDescriptor → Io (Unit {0})
  validate_blob_resources b =
      if ltb config.max_expanded_blob_bytes b.expanded_size_bytes
        || ltb (saturating_mul b.encoded_size_bytes config.max_blob_compression_ratio)
            b.expanded_size_bytes
      then raise limit
      else pure tt

module _ (x : Primitives) (config : LocalCacheConfig) where
  -- A resident blob that another writer published meanwhile.
  unfoldable pub verify_resident : BlobDescriptor → Option Entry → Io (Unit {0})
  verify_resident b none = raise io
  verify_resident b (some irregular) = raise io
  verify_resident b (some (regular content)) =
      lift (verify_encoded_blob x b config.max_expanded_blob_bytes content)

  unfoldable pub after_resident : BlobDescriptor → CacheResult (Unit {0}) → Io WriteOutcome
  after_resident b (ok u) = discard >> pure already_present
  after_resident b (err e) = quarantine_blob b >> discard >> raise e

  unfoldable pub blob_published : BlobDescriptor → WriteOutcome → Io WriteOutcome
  blob_published b written = pure written
  blob_published b already_present =
      attempt (inspect (blob_path b) >>= verify_resident b) >>= after_resident b
  -- Unreachable in the code.
  blob_published b conflict = pure conflict

  -- The copied bytes are synchronized, verified and published.
  unfoldable pub publish_copied : BlobDescriptor → List ℕ → Io WriteOutcome
  publish_copied b bytes =
      if not (length bytes == b.encoded_size_bytes)
      then discard >> raise invalid_bundle
      else or_discard step
        >> or_discard (verify_content x config b bytes)
        >> or_discard (publish_temporary (blob_path b) bytes)
        >>= blob_published b

  -- One byte more than declared is read.
  unfoldable pub write_blob_reserved : BlobDescriptor → List ℕ → Io WriteOutcome
  write_blob_reserved b body =
      step
      >> or_discard step
      >> publish_copied b (take (saturating_add b.encoded_size_bytes 1) body)

module _ (x : Primitives) (config : LocalCacheConfig) (collect : Io (Unit {0})) where
  unfoldable pub write_absent_blob : BlobDescriptor → List ℕ → Bool → Io WriteOutcome
  write_absent_blob b body true = pure already_present
  write_absent_blob b body false =
      reserve_capacity config collect b.encoded_size_bytes
      >> attempt (write_blob_reserved x config b body)
      >>= finish_reservation b.encoded_size_bytes

  unfoldable pub write_blob_if_absent : BlobDescriptor → List ℕ → Io WriteOutcome
  write_blob_if_absent b body =
      valid_blob (validate_blob b)
      >> validate_blob_resources config b
      >> existing_blob_is_valid x config b
      >>= write_absent_blob b body

-- The blob of a record has to stand before the record.
unfoldable pub check_bundle_entry : BlobDescriptor → Option Entry → Io (Unit {0})
check_bundle_entry b none = raise corrupt
check_bundle_entry b (some irregular) = raise corrupt
check_bundle_entry b (some (regular content)) =
    if length content == b.encoded_size_bytes then pure tt else raise corrupt

unfoldable pub check_output_bundle : Option BlobDescriptor → Io (Unit {0})
check_output_bundle none = pure tt
check_output_bundle (some b) = step >> inspect (blob_path b) >>= check_bundle_entry b

unfoldable pub compare_existing : List ℕ → Option Entry → Io WriteOutcome
compare_existing bytes none = raise io
compare_existing bytes (some irregular) = raise corrupt
compare_existing bytes (some (regular content)) =
    if ltb max_action_result_wire_bytes (length content)
    then raise corrupt
    else step >> (if content == bytes then pure already_present else pure conflict)

unfoldable pub action_published : CachePath → List ℕ → WriteOutcome → Io WriteOutcome
action_published p bytes written = pure written
action_published p bytes already_present = inspect p >>= compare_existing bytes
-- Unreachable in the code.
action_published p bytes conflict = pure conflict

unfoldable pub write_action_reserved : CachePath → Option BlobDescriptor → List ℕ → Io WriteOutcome
write_action_reserved p bundle bytes =
    check_output_bundle bundle >> publish_bytes p bytes >>= action_published p bytes

abbrev pub valid_action : Verdict → Io (Unit {0})
valid_action ActionResult.ok = pure tt
valid_action (ActionResult.err e) = raise protocol

abbrev pub is_valid : Verdict → Bool
is_valid ActionResult.ok = true
is_valid (ActionResult.err e) = false

module _ {V : Type 0} (x : Primitives) (json : Json V) where
  module _ (config : LocalCacheConfig) (collect : Io (Unit {0})) where
    unfoldable pub write_action_at : ActionResultV1 V → CachePath → Io WriteOutcome
    write_action_at r p =
        reserve_capacity config collect (length (json.to_vec r))
        >> attempt (write_action_reserved p r.output_bundle (json.to_vec r))
        >>= finish_reservation (length (json.to_vec r))

    unfoldable pub write_action_if_absent : Str → ActionResultV1 V → Io WriteOutcome
    write_action_if_absent namespace r =
        valid_action (ActionResult.validate json.serde r)
        >> lift (action_path x namespace r.action)
        >>= write_action_at r

  abbrev pub quarantine_action : {A : Type 0} → CachePath → Io A
  quarantine_action p = quarantine p >> raise corrupt

  unfoldable pub decoded_action :
      CachePath → Digest → Option (ActionResultV1 V) → Io (Option (ActionResultV1 V))
  decoded_action p a none = quarantine_action p
  decoded_action p a (some r) =
      if is_valid (ActionResult.validate json.serde r) && digest_beq r.action a
      then step >> pure (some r)
      else quarantine_action p

  unfoldable pub action_entry : CachePath → Digest → Option Entry → Io (Option (ActionResultV1 V))
  action_entry p a none = pure none
  action_entry p a (some irregular) = quarantine_action p
  action_entry p a (some (regular content)) =
      if ltb max_action_result_wire_bytes (length content)
      then quarantine_action p
      else step >> decoded_action p a (json.from_slice content)

  unfoldable pub get_action : Str → Digest → Io (Option (ActionResultV1 V))
  get_action namespace a =
      lift (action_path x namespace a) >>= λ p. step >> step >> inspect p >>= action_entry p a

  unfoldable pub conflicting_entry : CachePath → List ℕ → Option Entry → Io Bool
  conflicting_entry p expected none = pure false
  conflicting_entry p expected (some irregular) = quarantine_locked p >> pure true
  conflicting_entry p expected (some (regular content)) =
      if leb (length content) max_action_result_wire_bytes
      then step >> (if content == expected then pure false else quarantine_locked p >> pure true)
      else quarantine_locked p >> pure true

  unfoldable pub quarantine_conflicting_action : Str → ActionResultV1 V → Io Bool
  quarantine_conflicting_action namespace r = lift (action_path x namespace r.action) >>= λ p.
      step >> step >> step >> inspect p >>= conflicting_entry p (json.to_vec r)

abbrev pub Scan : Type 0
Scan = List BlobDescriptor × List BlobDescriptor

-- What an entry adds to the missing and to the corrupt blobs.
unfoldable pub scan_entry : BlobDescriptor → Option Entry → Scan → Scan
scan_entry b none (missing, broken) = (b ∷ missing, broken)
scan_entry b (some irregular) (missing, broken) = (b ∷ missing, b ∷ broken)
scan_entry b (some (regular content)) (missing, broken) =
    if length content == b.encoded_size_bytes then (missing, broken) else (b ∷ missing, b ∷ broken)

unfoldable pub scan : List BlobDescriptor → Io Scan
scan [] = pure ([], [])
scan (b ∷ bs) = valid_blob (validate_blob b) >> step >> inspect (blob_path b) >>= λ e.
    scan bs >>= λ found. pure (scan_entry b e found)

unfoldable pub quarantine_all : List BlobDescriptor → Io (Unit {0})
quarantine_all [] = pure tt
quarantine_all (b ∷ bs) = quarantine_blob b >> quarantine_all bs

unfoldable pub find_missing_blobs : List BlobDescriptor → Io (List BlobDescriptor)
find_missing_blobs blobs = step >> scan blobs >>= λ found. quarantine_all found.1 >> pure found.0

unfoldable pub blob_entry : BlobDescriptor → Option Entry → Io (List ℕ)
blob_entry b none = raise io
blob_entry b (some irregular) = quarantine_blob b >> raise corrupt
blob_entry b (some (regular content)) =
    if length content == b.encoded_size_bytes
    then step >> step >> pure content
    else quarantine_blob b >> raise corrupt

unfoldable pub read_blob : BlobDescriptor → Io (List ℕ)
read_blob b = valid_blob (validate_blob b) >> step >> step >> inspect (blob_path b) >>= blob_entry b

module _ (x : Primitives) (config : LocalCacheConfig) where
  unfoldable pub recovered_blob : BlobDescriptor → Bool → Io (Option (List ℕ))
  recovered_blob b true = read_blob b >>= λ content. pure (some content)
  recovered_blob b false = pure none

  unfoldable pub recover_corrupt_blob : BlobDescriptor → Io (Option (List ℕ))
  recover_corrupt_blob b = existing_blob_is_valid x config b >>= recovered_blob b
