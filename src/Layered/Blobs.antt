-- ===== src/Layered/Blobs.antt =====
-- The blob operations of crates/octa-cache/src/layered.rs: `read_remote_into_local`, `read_blob`,
-- `recover_corrupt_blob` and `write_blob_if_absent`.
use octa.Common.{Option, none, some, List, [], ◌∷◌, if◌then◌else◌, ◌==◌}
use octa.BlobDescriptor.{BlobDescriptor, blob_eq}
use octa.Layered.{
  cancelled, metadata, failure, CacheResult, ok, err, local, remote, WriteOutcome, written,
  already_present, conflict, is_conflict, Reader, find_missing, read_blob, write_blob,
  recover_corrupt, Steps, done, call, remote_warning, remote_success, after, or_return,
}

module _ {R : Type 0} where
  unfoldable pub read_remote_into_local : BlobDescriptor → Steps R (CacheResult Reader)
  read_remote_into_local blob = call (read_blob remote blob) (
      or_return λ reader.
        call (write_blob local blob reader) (or_return λ outcome. call (read_blob local blob) done))

  -- The `match` on the result of `read_remote_into_local`, in `read_blob`.
  unfoldable pub read_fallback : CacheResult Reader → Steps R (CacheResult Reader)
  read_fallback (ok reader) = remote_success (done (ok reader))
  read_fallback (err cancelled) = done (err cancelled)
  read_fallback (err metadata) = remote_warning (done (err metadata))
  read_fallback (err failure) = remote_warning (done (err failure))

  unfoldable pub read_reply : BlobDescriptor → CacheResult Reader → Steps R (CacheResult Reader)
  read_reply blob (ok reader) = done (ok reader)
  read_reply blob (err cancelled) = done (err cancelled)
  read_reply blob (err metadata) = after (read_remote_into_local blob) read_fallback
  read_reply blob (err failure) = after (read_remote_into_local blob) read_fallback

  -- `LayeredCacheStore::read_blob`.
  unfoldable pub layered_read_blob : BlobDescriptor → Steps R (CacheResult Reader)
  layered_read_blob blob = call (read_blob local blob) (read_reply blob)

  unfoldable pub recovered : CacheResult Reader → Steps R (CacheResult (Option Reader))
  recovered (ok reader) = remote_success (done (ok (some reader)))
  recovered (err cancelled) = done (err cancelled)
  recovered (err metadata) = remote_warning (done (err metadata))
  recovered (err failure) = remote_warning (done (err failure))

  unfoldable pub recover_reply :
      BlobDescriptor → Option Reader → Steps R (CacheResult (Option Reader))
  recover_reply blob (some reader) = done (ok (some reader))
  recover_reply blob none = after (read_remote_into_local blob) recovered

  -- `LayeredCacheStore::recover_corrupt_blob`.
  unfoldable pub recover_corrupt_blob : BlobDescriptor → Steps R (CacheResult (Option Reader))
  recover_corrupt_blob blob = call (recover_corrupt blob) (or_return (recover_reply blob))

  -- The reply to the remote write.
  unfoldable pub remote_written :
      WriteOutcome → CacheResult WriteOutcome → Steps R (CacheResult WriteOutcome)
  remote_written outcome (ok conflict) = remote_success (done (ok conflict))
  remote_written outcome (ok written) = remote_success (done (ok outcome))
  remote_written outcome (ok already_present) = remote_success (done (ok outcome))
  remote_written outcome (err cancelled) = done (err cancelled)
  remote_written outcome (err metadata) = remote_warning (done (ok outcome))
  remote_written outcome (err failure) = remote_warning (done (ok outcome))

  unfoldable pub publish : BlobDescriptor → WriteOutcome → Steps R (CacheResult WriteOutcome)
  publish blob outcome =
      call (read_blob local blob)
        (or_return λ reader. call (write_blob remote blob reader) (remote_written outcome))

  -- The reply to the question whether the remote store lacks `blob`.
  unfoldable pub missing_reply :
      BlobDescriptor
      → WriteOutcome
      → CacheResult (List BlobDescriptor)
      → Steps R (CacheResult WriteOutcome)
  missing_reply blob outcome (ok []) = remote_success (done (ok outcome))
  missing_reply blob outcome (ok (b ∷ [])) =
      if b == blob
      then remote_success (publish blob outcome)
      else remote_warning (done (ok outcome))
  missing_reply blob outcome (ok (b ∷ c ∷ bs)) = remote_warning (done (ok outcome))
  missing_reply blob outcome (err cancelled) = done (err cancelled)
  missing_reply blob outcome (err metadata) = remote_warning (done (ok outcome))
  missing_reply blob outcome (err failure) = remote_warning (done (ok outcome))

  unfoldable pub local_written : BlobDescriptor → WriteOutcome → Steps R (CacheResult WriteOutcome)
  local_written blob outcome =
      if is_conflict outcome
      then done (ok outcome)
      else call (find_missing remote (blob ∷ [])) (missing_reply blob outcome)

  -- `LayeredCacheStore::write_blob_if_absent`.
  unfoldable pub write_blob_if_absent : BlobDescriptor → Reader → Steps R (CacheResult WriteOutcome)
  write_blob_if_absent blob body =
      call (write_blob local blob body) (or_return (local_written blob))
