-- ===== src/LocalStore/Examples.antt =====
-- A small disk, and the theorems about the local store at it.
use octa.Common.{
  ℕ, Bool-cases, contains, inl, ◌+◌, ◌≡◌, ◌≢◌, refl, Bool, true, false, not, Option, none, some,
  List, [], ◌∷◌, arith, ==_iff, Eq, nat_eq, lookup, filter,
}
use octa.Text.{Str, as_bytes, str_eq}
use octa.Digest.{blake3, Digest, hex, hex_of}
use octa.BlobDescriptor.{BlobDescriptor, identity, validate_blob, blob_eq}
use octa.ActionResult
use octa.ActionResult.{ActionResultV1, Serde}
use octa.ActionResult.Equal.{result_eq}
use octa.Layered
use octa.Layered.{
  CacheLayer, local, remote, WriteOutcome, written, already_present, conflict, Call, get_action,
  find_missing, read_blob, write_blob, write_action, recover_corrupt, quarantine, failure,
}
use octa.Layered.Runs.{Stores, run}
use octa.Layered.Actions.{
  write_action_if_absent, existing_reply, remote_action_reply, finish_write, combine,
}
use octa.Ledger.{torn, regular, to_be_bytes}
use octa.LocalStore.{
  CacheError, corrupt, io, CacheResult, ok, err, CachePath, action_file, path_eq, Entry, irregular,
  happens, fails, Disk, LocalCacheConfig, blob_path, Primitives, Chunks, end, chunk,
}
use octa.LocalStore
use octa.LocalStore.Operations
use octa.LocalStore.Operations.{Json, write_blob_if_absent, find_missing_blobs}
use octa.LocalStore.Ends.{Ends}
use octa.LocalStore.Blobs.{Stored}
use octa.LocalStore.Reserved.{Unreadable, Counts}
use octa.LocalStore.Writes.{written_blob_is_verified}
use octa.LocalStore.Written.{Kept, Ordered, Shrunk, record_follows_bundle}
use octa.LocalStore.Records.{get_action_lem, Found}
use octa.Layered.Missing.{Truthful, find_missing_blobs_lem}
use octa.Layered.Publication.{LocalWorks}
use octa.Layered.Lookup
use octa.Layered.Blobs
use octa.LocalStore.Missing.{missing_blobs_are_exact, stands, is_wrong, on, cleared}
use octa.LocalStore.Tier.{tiers, on_disk, published_on_disk}

program : Unit {0}
unfolding hex hex_of octa.Text.as_bytes octa.Ledger.write_bytes octa.Text.len octa.Text.is_control
    octa.RelativePath.is_root ActionResult.validate_result_string ActionResult.write
    ActionResult.write_all ActionResult.measure_json ActionResult.check_outputs
    ActionResult.check_artifacts ActionResult.check_reports ActionResult.validate validate_blob
    to_be_bytes octa.Ledger.from_be_bytes octa.Ledger.read_sync octa.Ledger.write_sync
    octa.Ledger.store octa.Ledger.reserve_from octa.Ledger.try_reserve octa.Ledger.release_from
    octa.Ledger.release octa.Common.insert octa.Common.remove LocalStore.caught LocalStore.continue
    LocalStore.answer LocalStore.discard_on_error blob_path LocalStore.action_path
    LocalStore.verify_chunks LocalStore.check_digest LocalStore.verify_encoded_blob
    octa.LocalStore.Objects.quarantine_entry octa.LocalStore.Objects.quarantine_locked
    octa.LocalStore.Objects.quarantine octa.LocalStore.Objects.quarantine_blob
    octa.LocalStore.Objects.publish_entry octa.LocalStore.Objects.publish_temporary
    octa.LocalStore.Objects.discard_present octa.LocalStore.Objects.publish_bytes
    octa.LocalStore.Objects.ledger_result octa.LocalStore.Objects.reserve_last
    octa.LocalStore.Objects.reserve_again octa.LocalStore.Objects.reserve_capacity
    octa.LocalStore.Objects.released octa.LocalStore.Objects.finish_reservation
    octa.LocalStore.Objects.existing_verdict octa.LocalStore.Objects.existing_entry
    octa.LocalStore.Objects.existing_blob_is_valid Operations.validate_blob_resources
    Operations.verify_resident Operations.after_resident Operations.blob_published
    Operations.publish_copied Operations.write_blob_reserved Operations.write_absent_blob
    write_blob_if_absent Operations.check_bundle_entry Operations.check_output_bundle
    Operations.compare_existing Operations.action_published Operations.write_action_reserved
    Operations.write_action_at Operations.write_action_if_absent Operations.decoded_action
    Operations.action_entry Operations.get_action Operations.scan_entry Operations.scan
    Operations.quarantine_all find_missing_blobs tiers on_disk octa.LocalStore.Tier.answered
    octa.LocalStore.Tier.decoded run write_action_if_absent Operations.read_blob
    Operations.blob_entry existing_reply remote_action_reply finish_write combine
program = tt

-- The digest of a content is the content, and a decoder gives the file back in one piece.
abbrev primitives : Primitives
primitives = record { hash = λ bytes. bytes; reader = λ encoding content. chunk content end }

abbrev config : LocalCacheConfig
config = record {
  max_bytes = 200;
  max_expanded_blob_bytes = 100;
  max_blob_compression_ratio = 10;
  high_watermark_bytes = 150;
}

abbrev no_collection : Disk → CacheResult (Unit {0}) × Disk
no_collection d = (ok tt, d)

abbrev digest_of : List ℕ → Digest
digest_of bytes = record { algorithm = blake3; hash = bytes; size_bytes = 2 }

abbrev blob : BlobDescriptor
blob = record {
  digest = digest_of (7 ∷ 8 ∷ []);
  encoding = identity;
  encoded_size_bytes = 2;
  expanded_size_bytes = 2;
  entry_count = 1;
}

-- Something of the wrong kind stands at the path of the blob, and the counter is at 100.
abbrev disk : Disk
disk = record {
  files = (blob_path blob, irregular) ∷ [];
  ledger = regular (to_be_bytes 8 100);
  faults = happens ∷ happens ∷ [];
  writes = [];
}

written_blob :
    (write_blob_if_absent primitives config no_collection blob (7 ∷ 8 ∷ []) disk).0 ≡ ok written
unfolding program
written_blob = refl

-- The same write when the second action on the file system fails.
failed_blob :
    (write_blob_if_absent primitives config no_collection blob
      (7 ∷ 8 ∷ [])
      (record disk { faults = happens ∷ fails io ∷ [] })).0
    ≡ err io
unfolding program
failed_blob = refl

written_blob_is_verified_example :
    (written ≢ conflict)
    × Stored primitives config blob
        (write_blob_if_absent primitives config no_collection blob (7 ∷ 8 ∷ []) disk).1
written_blob_is_verified_example =
    written_blob_is_verified primitives config no_collection blob (7 ∷ 8 ∷ []) disk written
      written_blob

abbrev result : ActionResultV1 ℕ
result = record {
  result_version = 1;
  action = digest_of (5 ∷ []);
  output_bundle = none;
  stdout = none;
  task_outputs = [];
  artifacts = [];
  reports = [];
}

abbrev json : Json ℕ
json = record {
  serde = record {
    is_null = λ v. false;
    metadata_writes = λ r. 10 ∷ [];
    result_writes = λ r. 60 ∷ [];
  };
  to_vec = λ r. 1 ∷ 2 ∷ 3 ∷ [];
  from_slice = λ bytes. some result;
}

abbrev name : Str
name = b'n' ∷ []

-- The bundle is in place.
abbrev stored : Disk
stored = record disk { files = (blob_path blob, LocalStore.regular (7 ∷ 8 ∷ [])) ∷ [] }

abbrev bundled : ActionResultV1 ℕ
bundled = record result { output_bundle = some blob }

written_result :
    (Operations.write_action_if_absent primitives json config no_collection name bundled stored).0
    ≡ ok written
unfolding program
written_result = refl

-- Without its bundle the record is refused.
refused_result :
    (Operations.write_action_if_absent primitives json config no_collection name bundled
      (record disk { files = [] })).0
    ≡ err corrupt
unfolding program
refused_result = refl

nothing_removed : (d : Disk) → Shrunk d d
nothing_removed d p = inl refl

record_follows_bundle_example :
    Ends
      (Kept primitives json config no_collection name bundled)
      (Ordered primitives json config no_collection name bundled stored)
      (Operations.write_action_if_absent primitives json config no_collection name bundled stored)
record_follows_bundle_example =
    record_follows_bundle primitives json config no_collection name nothing_removed bundled stored

abbrev filled : Disk
filled = record disk {
  files =
      (
        action_file (hex_of (as_bytes name)) (hex (digest_of (5 ∷ []))) 2,
        LocalStore.regular (1 ∷ 2 ∷ 3 ∷ []),
      )
      ∷ [];
}

found_result :
    (Operations.get_action primitives json name (digest_of (5 ∷ [])) filled).0 ≡ ok (some result)
unfolding program
found_result = refl

get_action_lem_example :
    Found primitives json name
      (digest_of (5 ∷ []))
      result
      (Operations.get_action primitives json name (digest_of (5 ∷ [])) filled).1
get_action_lem_example =
    get_action_lem primitives json name (digest_of (5 ∷ [])) filled result found_result

missing_blob : (find_missing_blobs (blob ∷ []) disk).0 ≡ ok (blob ∷ [])
unfolding program
missing_blob = refl

missing_blobs_are_exact_example :
    (blob ∷ [] ≡ filter (λ b. not (stands b (on disk b))) (blob ∷ []))
    × ((p : CachePath)
        → lookup p (find_missing_blobs (blob ∷ []) disk).1.files
          ≡ cleared (filter (λ b. is_wrong b (on disk b)) (blob ∷ [])) p (lookup p disk.files))
missing_blobs_are_exact_example = missing_blobs_are_exact (blob ∷ []) disk (blob ∷ []) missing_blob

-- A remote store that always fails.
abbrev away : Stores (ActionResultV1 ℕ) (Unit {0})
away c w = (Layered.err failure, w)

published_result :
    (run
      (tiers primitives json config no_collection away)
      (write_action_if_absent (λ q. q.action) name result)
      (disk, tt)
      false).value
    ≡ Layered.ok written
unfolding program
published_result = refl

published_on_disk_example :
    on_disk primitives json config no_collection away name
      (digest_of (5 ∷ []))
      (run
        (tiers primitives json config no_collection away)
        (write_action_if_absent (λ q. q.action) name result)
        (disk, tt)
        false).world
    ≡ some result
published_on_disk_example =
    published_on_disk primitives json config no_collection away name result refl (disk, tt) false
      written published_result refl

-- A remote store that has no blob.
abbrev empty_remote : Stores (ActionResultV1 ℕ) (Unit {0})
empty_remote (get_action l n a) w = (Layered.err failure, w)
empty_remote (find_missing l bs) w = (Layered.ok bs, w)
empty_remote (read_blob l b) w = (Layered.err failure, w)
empty_remote (write_blob l b body) w = (Layered.err failure, w)
empty_remote (write_action l n r) w = (Layered.err failure, w)
empty_remote (recover_corrupt b) w = (Layered.err failure, w)
empty_remote (quarantine n r) w = (Layered.err failure, w)

abbrev other_blob : BlobDescriptor
other_blob = record blob { digest = digest_of (9 ∷ []) }

abbrev has : CacheLayer → BlobDescriptor → Bool
has local b = stands b (on stored b)
has remote b = false

tiers-Truthful :
    Truthful
      (tiers primitives json config no_collection empty_remote)
      has
      (blob ∷ other_blob ∷ [])
      (stored, tt)
unfolding program
tiers-Truthful = record {
  local_law = refl;
  reported = other_blob ∷ [];
  remote_law = refl;
  remote_exact = λ b. ground (arith, Bool-cases (contains (other_blob ∷ []) b));
}

find_missing_blobs_lem_example :
    (run
      (tiers primitives json config no_collection empty_remote)
      (Lookup.find_missing_blobs (blob ∷ other_blob ∷ []))
      (stored, tt)
      false).value
    ≡ Layered.ok (other_blob ∷ [])
unfolding program
find_missing_blobs_lem_example =
    find_missing_blobs_lem (tiers primitives json config no_collection empty_remote) has
      (blob ∷ other_blob ∷ []) (stored, tt) false tiers-Truthful

-- The remote store has not the blob, and refuses it.
tiers-LocalWorks :
    LocalWorks
      (tiers primitives json config no_collection empty_remote)
      blob
      (7 ∷ 8 ∷ [])
      (disk, tt)
unfolding program
tiers-LocalWorks = record {
  outcome = written;
  write_law = refl;
  stored = 7 ∷ 8 ∷ [];
  read_law = refl;
  asked_law = refl;
  sent_law = refl;
}

-- Nothing stands, and the last action of a publication fails: the directory is not synchronized.
abbrev unsynchronized : Disk
unsynchronized = record disk {
  files = [];
  faults =
      happens
      ∷ happens
      ∷ happens
      ∷ happens
      ∷ happens
      ∷ happens
      ∷ happens
      ∷ happens
      ∷ happens
      ∷ happens
      ∷ happens
      ∷ happens
      ∷ fails io
      ∷ [];
}

-- The blob stays, and its bytes are released.
directory_failure :
    let after =
      write_blob_if_absent primitives config no_collection blob (7 ∷ 8 ∷ []) unsynchronized in
    (after.0 ≡ err io)
    × (lookup (blob_path blob) after.1.files ≡ some (LocalStore.regular (7 ∷ 8 ∷ [])))
    × Counts 100 after.1
unfolding program
directory_failure = (refl, refl, refl)

-- A torn write of the counter: the reservation fails, and the counter cannot be read.
torn_counter :
    let after =
      write_blob_if_absent primitives config no_collection blob
        (7 ∷ 8 ∷ [])
        (record disk { writes = torn 3 ∷ [] }) in
    (after.0 ≡ err io) × Unreadable after.1
unfolding program
torn_counter = (refl, refl)
