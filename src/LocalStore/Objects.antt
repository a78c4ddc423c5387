-- ===== src/LocalStore/Objects.antt =====
-- The helpers of crates/octa-cache/src/local/mod.rs that both kinds of objects share: quarantine,
-- publication without replacement, and the reservation of capacity.
use octa.Common.{
  ℕ, Bool, true, false, Option, none, some, List, [], ◌∷◌, ◌==◌, nat_eq, ltb, if◌then◌else◌, length,
  insert, remove,
}
use octa.BlobDescriptor.{BlobDescriptor, ValidateResult, validate_blob}
use octa.Layered.{WriteOutcome, written, already_present, conflict}
use octa.Ledger
use octa.Ledger.{WriteFault, sound, StateFile, Outcome, try_reserve, release, saturating_add}
use octa.LocalStore.{
  CacheError, protocol, limit, corrupt, io, capacity_release, CacheResult, ok, err, CachePath,
  path_eq, Entry, regular, irregular, Disk, Io, pure, raise, lift, attempt, ◌>>=◌, ◌>>◌, act, step,
  inspect, discard, or_discard, LocalCacheConfig, blob_path, Primitives, verify_encoded_blob,
}

-- `BlobDescriptor::validate`.
abbrev pub valid_blob : ValidateResult → Io (Unit {0})
valid_blob ValidateResult.ok = pure tt
valid_blob (ValidateResult.err e) = raise protocol

-- Rename into the quarantine, the file with the reason, and both directories.
unfoldable pub quarantine_entry : CachePath → Option Entry → Io (Unit {0})
quarantine_entry p none = pure tt
quarantine_entry p (some e) = act (remove p) >> step >> step >> step

-- After `validate_cache_parent`.
unfoldable pub quarantine_locked : CachePath → Io (Unit {0})
quarantine_locked p = step >> inspect p >>= quarantine_entry p

-- Both locks come first.
unfoldable pub quarantine : CachePath → Io (Unit {0})
quarantine p = step >> step >> quarantine_locked p

unfoldable pub quarantine_blob : BlobDescriptor → Io (Unit {0})
quarantine_blob b = valid_blob (validate_blob b) >> quarantine (blob_path b)

-- The entry at the destination, under its lock. A rename publishes, then the directory is synchronized.
unfoldable pub publish_entry : CachePath → List ℕ → Option Entry → Io WriteOutcome
publish_entry p bytes (some (regular content)) = pure already_present
publish_entry p bytes (some irregular) = discard >> raise corrupt
publish_entry p bytes none = act (insert p (regular bytes)) >> step >> pure written

-- `publish_temporary`: the ancestors, the lock of the object, and the entry.
unfoldable pub publish_temporary : CachePath → List ℕ → Io WriteOutcome
publish_temporary p bytes = step >> step >> inspect p >>= publish_entry p bytes

-- The temporary file of a blob outlives its publication.
unfoldable pub discard_present : WriteOutcome → Io WriteOutcome
discard_present already_present = discard >> pure already_present
discard_present written = pure written
discard_present conflict = pure conflict

-- `publish_bytes`: create, write and synchronize the temporary file, then publish it.
unfoldable pub publish_bytes : CachePath → List ℕ → Io WriteOutcome
publish_bytes p bytes =
    step >> or_discard (step >> step) >> or_discard (publish_temporary p bytes) >>= discard_present

abbrev pub ledger_error : Ledger.CacheError → CacheError
ledger_error Ledger.limit = limit
ledger_error Ledger.io = io
ledger_error Ledger.metadata = io
ledger_error Ledger.configuration = io

-- An operation of the capacity ledger.
unfoldable pub ledger_result : {A : Type 0} → Disk → Outcome A → CacheResult A × Disk
ledger_result d (Ledger.returns a file) = (ok a, record d { ledger = file })
ledger_result d (Ledger.fails e file) = (err (ledger_error e), record d { ledger = file })

-- The next answer of the script of writes.
abbrev pub next_write : List WriteFault → WriteFault
next_write [] = sound
next_write (w ∷ ws) = w

abbrev pub later_writes : List WriteFault → List WriteFault
later_writes [] = []
later_writes (w ∷ ws) = ws

abbrev pub on_ledger : {A : Type 0} → (WriteFault → StateFile → Outcome A) → Io A
on_ledger f = step >> λ d.
    ledger_result (record d { writes = later_writes d.writes }) (f (next_write d.writes) d.ledger)

module _ (config : LocalCacheConfig) (collect : Io (Unit {0})) where
  unfoldable pub reserve_last : Bool → Io (Unit {0})
  reserve_last true = pure tt
  reserve_last false = raise limit

  -- `gc::collect`, and the second attempt.
  unfoldable pub reserve_again : ℕ → Bool → Io (Unit {0})
  reserve_again incoming true = pure tt
  reserve_again incoming false =
      collect
      >> step
      >> on_ledger (λ w file. try_reserve w file incoming config.max_bytes)
      >>= reserve_last

  unfoldable pub reserve_capacity : ℕ → Io (Unit {0})
  reserve_capacity incoming =
      if ltb config.max_bytes incoming
      then raise limit
      else step
        >> on_ledger (λ w file. try_reserve w file incoming config.high_watermark_bytes)
        >>= reserve_again incoming

unfoldable pub released : CacheResult WriteOutcome → CacheResult (Unit {0}) → Io WriteOutcome
released result (ok u) = lift result
released (ok outcome) (err failure) = raise failure
released (err primary) (err failure) = raise (capacity_release primary failure)

unfoldable pub finish_reservation : ℕ → CacheResult WriteOutcome → Io WriteOutcome
finish_reservation bytes (ok written) = pure written
finish_reservation bytes result =
    attempt (on_ledger λ w file. release w file bytes) >>= released result

module _ (x : Primitives) (config : LocalCacheConfig) where
  -- `verify_blob_file`, on a file with this content.
  abbrev pub verify_content : BlobDescriptor → List ℕ → Io (Unit {0})
  verify_content b content =
      step >> lift (verify_encoded_blob x b config.max_expanded_blob_bytes content)

  unfoldable pub existing_verdict : BlobDescriptor → CacheResult (Unit {0}) → Io Bool
  existing_verdict b (ok u) = pure true
  existing_verdict b (err e) = quarantine_blob b >> pure false

  unfoldable pub existing_entry : BlobDescriptor → Option Entry → Io Bool
  existing_entry b none = pure false
  existing_entry b (some irregular) = quarantine_blob b >> pure false
  existing_entry b (some (regular content)) =
      if length content == b.encoded_size_bytes
      then attempt (verify_content b content) >>= existing_verdict b
      else quarantine_blob b >> pure false

  unfoldable pub existing_blob_is_valid : BlobDescriptor → Io Bool
  existing_blob_is_valid b = step >> inspect (blob_path b) >>= existing_entry b
