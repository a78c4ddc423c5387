-- ===== src/Layered/Lookup.antt =====
-- `get_action` and `find_missing_blobs` of crates/octa-cache/src/layered.rs.
use octa.Common.{
  not, ◌||◌, Option, none, some, List, [], ◌∷◌, ltb, if◌then◌else◌, contains, length, all,
}
use octa.Text.{Str}
use octa.Digest.{Digest}
use octa.BlobDescriptor.{BlobDescriptor, blob_eq}
use octa.Layered.{
  cancelled, metadata, failure, CacheResult, ok, err, local, remote, ActionLookup, get_action,
  find_missing, Steps, done, call, remote_warning, remote_success, filter, to_set,
}

-- What the remote store reports missing, checked against what was asked.
unfoldable pub check_missing :
    List BlobDescriptor → List BlobDescriptor → CacheResult (List BlobDescriptor)
check_missing local_missing remote_missing =
    let reported = to_set remote_missing in
    let requested = to_set local_missing in
    if ltb (length requested) (length reported) || not (all (contains requested) reported)
    then err metadata
    else ok (filter (contains reported) local_missing)

module _ {R : Type 0} where
  abbrev with_layer : Option (ActionLookup R) → Option (ActionLookup R)
  with_layer none = none
  with_layer (some l) = some (record l { layer = remote })

  -- `LayeredCacheStore::get_action`.
  unfoldable pub get_action_remote :
      CacheResult (Option (ActionLookup R)) → Steps R (CacheResult (Option (ActionLookup R)))
  get_action_remote (ok lookup) = remote_success (done (ok (with_layer lookup)))
  get_action_remote (err cancelled) = done (err cancelled)
  get_action_remote (err metadata) = remote_warning (done (err metadata))
  get_action_remote (err failure) = remote_warning (done (err failure))

  unfoldable pub get_action_local :
      Str
      → Digest
      → CacheResult (Option (ActionLookup R))
      → Steps R (CacheResult (Option (ActionLookup R)))
  get_action_local namespace action (ok (some result)) = done (ok (some result))
  get_action_local namespace action (ok none) =
      call (get_action remote namespace action) get_action_remote
  get_action_local namespace action (err cancelled) = done (err cancelled)
  get_action_local namespace action (err metadata) =
      call (get_action remote namespace action) get_action_remote
  get_action_local namespace action (err failure) =
      call (get_action remote namespace action) get_action_remote

  unfoldable pub layered_get_action : Str → Digest → Steps R (CacheResult (Option (ActionLookup R)))
  layered_get_action namespace action =
      call (get_action local namespace action) (get_action_local namespace action)

  unfoldable pub find_missing_reply :
      List BlobDescriptor
      → CacheResult (List BlobDescriptor)
      → Steps R (CacheResult (List BlobDescriptor))
  find_missing_reply local_missing (ok missing) =
      remote_success (done (check_missing local_missing missing))
  find_missing_reply local_missing (err cancelled) = done (err cancelled)
  find_missing_reply local_missing (err metadata) = remote_warning (done (err metadata))
  find_missing_reply local_missing (err failure) = remote_warning (done (err failure))

  unfoldable pub find_missing_remote :
      List BlobDescriptor → Steps R (CacheResult (List BlobDescriptor))
  find_missing_remote [] = done (ok [])
  find_missing_remote (b ∷ bs) = call (find_missing remote (b ∷ bs)) (find_missing_reply (b ∷ bs))

  unfoldable pub find_missing_local :
      List BlobDescriptor
      → CacheResult (List BlobDescriptor)
      → Steps R (CacheResult (List BlobDescriptor))
  find_missing_local blobs (ok missing) = find_missing_remote missing
  find_missing_local blobs (err cancelled) = done (err cancelled)
  find_missing_local blobs (err metadata) = find_missing_remote blobs
  find_missing_local blobs (err failure) = find_missing_remote blobs

  -- `LayeredCacheStore::find_missing_blobs`.
  unfoldable pub find_missing_blobs :
      List BlobDescriptor → Steps R (CacheResult (List BlobDescriptor))
  find_missing_blobs blobs = call (find_missing local blobs) (find_missing_local blobs)
