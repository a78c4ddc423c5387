-- ===== src/Layered/CancelSafe.antt =====
-- Steps that a cancelled reply ends at once, and the lookups among them.
use octa.Common.{
  ◌≡◌, refl, ap, Bool, true, false, Option, none, some, List, [], ◌∷◌, arith, any, if◌then◌else◌,
}
use octa.Text.{Str}
use octa.Digest.{Digest}
use octa.BlobDescriptor.{BlobDescriptor, blob_eq}
use octa.Layered.{
  CacheError, cancelled, metadata, failure, CacheResult, ok, err, local, WriteOutcome, or_return,
  ActionLookup, Reader, Call, Reply, Steps, done, call, remote_warning, remote_success, after,
  read_blob,
}
use octa.Layered.Lookup.{
  layered_get_action, get_action_local, get_action_remote, find_missing_blobs, find_missing_local,
  find_missing_remote, find_missing_reply,
}
use octa.Layered.Blobs.{
  read_remote_into_local, read_fallback, read_reply, layered_read_blob, recovered, recover_reply,
  recover_corrupt_blob,
}
use octa.Layered.Runs.{Stores, Event, replied, warned, remains_degraded, is_cancelled, run}

-- A cancelled reply ends the steps at once, with the same error.
abbrev pub CancelSafe : {R A : Type 0} → Steps R (CacheResult A) → Type 0
CancelSafe (done a) = Unit
CancelSafe (call c k) =
    (k (err cancelled) ≡ done (err cancelled)) × ((r : CacheResult (Reply c)) → CancelSafe (k r))
CancelSafe (remote_warning s) = CancelSafe s
CancelSafe (remote_success s) = CancelSafe s

abbrev pub was_cancelled : Event → Bool
was_cancelled (replied b) = b
was_cancelled _ = false

pub run-cancelled :
    {R W A : Type 0} (stores : Stores R W) (s : Steps R (CacheResult A)) (w : W) (flag : Bool)
    → CancelSafe s
    → any was_cancelled (run stores s w flag).events ≡ true
    → (run stores s w flag).value ≡ err cancelled
unfolding run
run-cancelled stores (done a) w flag safe h = absurd (ground arith)
run-cancelled stores (remote_warning s) w flag safe h =
    run-cancelled stores s w true safe (warning_lem flag (run stores s w true).events h)
  where
    warning_lem :
        (b : Bool) (es : List Event)
        → any was_cancelled ((if b then remains_degraded else warned) ∷ es) ≡ true
        → any was_cancelled es ≡ true
    warning_lem true es e = e
    warning_lem false es e = e
run-cancelled stores (remote_success s) w flag safe h = run-cancelled stores s w false safe h
run-cancelled {R = R} {W = W} {A = A} stores (call c k) w flag safe h =
    replied_lem (stores c w).0 (stores c w).1 h
      (λ r v. run-cancelled stores (k r) v flag (safe.1 r))
  where
    replied_lem :
        (r : CacheResult (Reply c)) (v : W)
        → any was_cancelled (replied (is_cancelled r) ∷ (run stores (k r) v flag).events) ≡ true
        → ((s : CacheResult (Reply c)) (u : W)
            → any was_cancelled (run stores (k s) u flag).events ≡ true
            → (run stores (k s) u flag).value ≡ err cancelled)
        → (run stores (k r) v flag).value ≡ err cancelled
    replied_lem (ok a) v e later = later (ok a) v e
    replied_lem (err metadata) v e later = later (err metadata) v e
    replied_lem (err failure) v e later = later (err failure) v e
    replied_lem (err cancelled) v e later =
        ap (λ (s : Steps R (CacheResult A)). (run stores s v flag).value) safe.0

module _ (R : Type 0) where
  pub get_safe : (n : Str) (a : Digest) → CancelSafe (layered_get_action {R = R} n a)
  unfolding layered_get_action get_action_local get_action_remote
  get_safe n a = (refl, local_safe)
    where
      remote_safe : (r : CacheResult (Option (ActionLookup R))) → CancelSafe (get_action_remote r)
      remote_safe (ok l) = tt
      remote_safe (err cancelled) = tt
      remote_safe (err metadata) = tt
      remote_safe (err failure) = tt

      local_safe : (r : CacheResult (Option (ActionLookup R))) → CancelSafe (get_action_local n a r)
      local_safe (ok (some l)) = tt
      local_safe (ok none) = (refl, remote_safe)
      local_safe (err cancelled) = tt
      local_safe (err metadata) = (refl, remote_safe)
      local_safe (err failure) = (refl, remote_safe)

  pub missing_safe : (bs : List BlobDescriptor) → CancelSafe (find_missing_blobs {R = R} bs)
  unfolding find_missing_blobs find_missing_local find_missing_remote find_missing_reply
  missing_safe bs = (refl, local_safe)
    where
      reply_safe :
          (cs : List BlobDescriptor) (r : CacheResult (List BlobDescriptor))
          → CancelSafe (find_missing_reply {R = R} cs r)
      reply_safe cs (ok l) = tt
      reply_safe cs (err cancelled) = tt
      reply_safe cs (err metadata) = tt
      reply_safe cs (err failure) = tt

      remote_safe : (cs : List BlobDescriptor) → CancelSafe (find_missing_remote {R = R} cs)
      remote_safe [] = tt
      remote_safe (c ∷ cs) = (refl, reply_safe (c ∷ cs))

      local_safe :
          (r : CacheResult (List BlobDescriptor)) → CancelSafe (find_missing_local {R = R} bs r)
      local_safe (ok m) = remote_safe m
      local_safe (err cancelled) = tt
      local_safe (err metadata) = remote_safe bs
      local_safe (err failure) = remote_safe bs

  pub fetch_safe :
      {A : Type 0} (b : BlobDescriptor) (f : CacheResult Reader → Steps R (CacheResult A))
      → ((r : CacheResult Reader) → CancelSafe (f r))
      → f (err cancelled) ≡ done (err cancelled)
      → ((e : CacheError) → CancelSafe (f (err e)))
      → CancelSafe (after (read_remote_into_local b) f)
  unfolding after read_remote_into_local
  fetch_safe b f safe stops fails = (stops, remote_safe)
    where
      stored_safe :
          (r : CacheResult WriteOutcome)
          → CancelSafe (after (or_return (λ outcome. call (read_blob local b) done) r) f)
      stored_safe (ok outcome) = (stops, safe)
      stored_safe (err x) = fails x

      remote_safe :
          (r : CacheResult Reader)
          → CancelSafe (
              after
                (or_return
                  (λ reader.
                    call
                      (Call.write_blob local b reader)
                      (or_return λ outcome. call (read_blob local b) done))
                  r)
                f)
      remote_safe (ok reader) = (stops, stored_safe)
      remote_safe (err x) = fails x

  pub read_safe : (b : BlobDescriptor) → CancelSafe (layered_read_blob {R = R} b)
  unfolding layered_read_blob read_reply read_fallback
  read_safe b = (refl, local_safe)
    where
      fallback_safe : (r : CacheResult Reader) → CancelSafe (read_fallback {R = R} r)
      fallback_safe (ok l) = tt
      fallback_safe (err cancelled) = tt
      fallback_safe (err metadata) = tt
      fallback_safe (err failure) = tt

      fetch : CancelSafe (after (read_remote_into_local {R = R} b) read_fallback)
      fetch = fetch_safe b read_fallback fallback_safe refl (λ x. fallback_safe (err x))

      local_safe : (r : CacheResult Reader) → CancelSafe (read_reply {R = R} b r)
      local_safe (ok m) = tt
      local_safe (err cancelled) = tt
      local_safe (err metadata) = fetch
      local_safe (err failure) = fetch

  pub recover_safe : (b : BlobDescriptor) → CancelSafe (recover_corrupt_blob {R = R} b)
  unfolding recover_corrupt_blob recover_reply recovered
  recover_safe b = (refl, local_safe)
    where
      recovered_safe : (r : CacheResult Reader) → CancelSafe (recovered {R = R} r)
      recovered_safe (ok l) = tt
      recovered_safe (err cancelled) = tt
      recovered_safe (err metadata) = tt
      recovered_safe (err failure) = tt

      local_safe :
          (r : CacheResult (Option Reader)) → CancelSafe (or_return (recover_reply {R = R} b) r)
      local_safe (ok (some m)) = tt
      local_safe (ok none) =
          fetch_safe b recovered recovered_safe refl (λ x. recovered_safe (err x))
      local_safe (err x) = tt
