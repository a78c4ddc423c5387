-- ===== src/Layered/Cancellation.antt =====
-- No operation of the layered cache swallows a cancellation.
use octa.Common.{
  ◌≡◌, refl, Bool, true, false, not, Option, none, some, List, [], ◌∷◌, Eq, ◌==◌, any,
  if◌then◌else◌,
}
use octa.Text.{Str}
use octa.Digest.{Digest}
use octa.BlobDescriptor.{BlobDescriptor, blob_eq}
use octa.Layered.{
  cancelled, metadata, failure, CacheResult, ok, err, local, remote, WriteOutcome, written,
  already_present, conflict, or_return, ActionLookup, Reader, Call, done, call, remote_warning,
  remote_success, write_action,
}
use octa.Layered.Blobs.{remote_written, publish, missing_reply, local_written, write_blob_if_absent}
use octa.Layered.Actions.{
  combine, finish_write, remote_action_reply, commit_again, commit_outcome, commit_verified_hit,
  existing_reply, write_action_if_absent,
}
use octa.Layered.Runs.{
  Stores, run, Operation, get, missing, read, recover, write, publish_action, commit, perform,
}
use octa.Layered.CancelSafe.{
  CancelSafe, was_cancelled, run-cancelled, get_safe, missing_safe, read_safe, recover_safe,
}

module _ (R : Type 0) where
  write_safe : (b : BlobDescriptor) (r : Reader) → CancelSafe (write_blob_if_absent {R = R} b r)
  unfolding write_blob_if_absent local_written missing_reply publish remote_written
  write_safe b body = (refl, local_safe)
    where
      written_safe :
          (o : WriteOutcome) (r : CacheResult WriteOutcome)
          → CancelSafe (remote_written {R = R} o r)
      written_safe o (ok written) = tt
      written_safe o (ok already_present) = tt
      written_safe o (ok conflict) = tt
      written_safe o (err cancelled) = tt
      written_safe o (err metadata) = tt
      written_safe o (err failure) = tt

      read_back :
          (o : WriteOutcome) (r : CacheResult Reader)
          → CancelSafe (
              or_return
                (λ reader. call (Call.write_blob remote b reader) (remote_written {R = R} o))
                r)
      read_back o (ok reader) = (refl, written_safe o)
      read_back o (err x) = tt

      reported_safe :
          (o : WriteOutcome) (t : Bool)
          → CancelSafe
              (if t then remote_success (publish {R = R} b o) else remote_warning (done (ok o)))
      reported_safe o true = (refl, read_back o)
      reported_safe o false = tt

      reply_safe :
          (o : WriteOutcome) (r : CacheResult (List BlobDescriptor))
          → CancelSafe (missing_reply {R = R} b o r)
      reply_safe o (ok []) = tt
      reply_safe o (ok (c ∷ [])) = reported_safe o (c == b)
      reply_safe o (ok (c ∷ d ∷ cs)) = tt
      reply_safe o (err cancelled) = tt
      reply_safe o (err metadata) = tt
      reply_safe o (err failure) = tt

      local_safe :
          (r : CacheResult WriteOutcome) → CancelSafe (or_return (local_written {R = R} b) r)
      local_safe (ok written) = (refl, reply_safe written)
      local_safe (ok already_present) = (refl, reply_safe already_present)
      local_safe (ok conflict) = tt
      local_safe (err x) = tt

  commit_safe : (n : Str) (r : R) → CancelSafe (commit_verified_hit n r)
  unfolding commit_verified_hit commit_outcome commit_again
  commit_safe n result = (refl, first_safe)
    where
      again_safe : (r : CacheResult WriteOutcome) → CancelSafe (commit_again {R = R} r)
      again_safe (ok written) = tt
      again_safe (ok already_present) = tt
      again_safe (ok conflict) = tt
      again_safe (err x) = tt

      quarantined_safe :
          (r : CacheResult (Unit {0}))
          → CancelSafe (or_return (λ u. call (write_action local n result) commit_again) r)
      quarantined_safe (ok u) = (refl, again_safe)
      quarantined_safe (err x) = tt

      first_safe :
          (r : CacheResult WriteOutcome) → CancelSafe (or_return (commit_outcome n result) r)
      first_safe (ok written) = tt
      first_safe (ok already_present) = tt
      first_safe (ok conflict) = (refl, quarantined_safe)
      first_safe (err x) = tt

module _ {R : Type 0} ⦃e : Eq R⦄ (action : R → Digest) where
  publish_safe : (n : Str) (r : R) → CancelSafe (write_action_if_absent action n r)
  unfolding write_action_if_absent existing_reply remote_action_reply finish_write
  publish_safe n result = (refl, local_safe)
    where
      second_safe :
          (o : Option WriteOutcome) (r : CacheResult WriteOutcome)
          → CancelSafe (or_return {R = R} (λ outcome. done (ok (combine outcome o))) r)
      second_safe o (ok x) = tt
      second_safe o (err x) = tt

      finish_safe :
          (l : Option (ActionLookup R)) (o : Option WriteOutcome)
          → CancelSafe (finish_write n result l o)
      finish_safe (some l) o = tt
      finish_safe none o = (refl, second_safe o)

      remote_safe :
          (l : Option (ActionLookup R)) (r : CacheResult WriteOutcome)
          → CancelSafe (remote_action_reply n result l r)
      remote_safe l (ok written) = finish_safe l (some written)
      remote_safe l (ok already_present) = finish_safe l (some already_present)
      remote_safe l (ok conflict) = tt
      remote_safe l (err cancelled) = tt
      remote_safe l (err metadata) = finish_safe l none
      remote_safe l (err failure) = finish_safe l none

      differs_safe :
          (l : ActionLookup R) (t : Bool)
          → CancelSafe (
              if t
              then done (ok conflict)
              else call (write_action remote n result) (remote_action_reply n result (some l)))
      differs_safe l true = tt
      differs_safe l false = (refl, remote_safe (some l))

      local_safe :
          (r : CacheResult (Option (ActionLookup R)))
          → CancelSafe (or_return (existing_reply n result) r)
      local_safe (ok none) = (refl, remote_safe none)
      local_safe (ok (some l)) = differs_safe l (not (l.result == result))
      local_safe (err x) = tt

  operation_safe : (o : Operation R) → CancelSafe (perform action o)
  unfolding perform
  operation_safe (get n a) = get_safe R n a
  operation_safe (missing bs) = missing_safe R bs
  operation_safe (read b) = read_safe R b
  operation_safe (recover b) = recover_safe R b
  operation_safe (write b r) = write_safe R b r
  operation_safe (publish_action n r) = publish_safe n r
  operation_safe (commit n r) = commit_safe R n r

-- Whatever the two stores do, an operation during which a store reported a cancellation returns
-- that cancellation, for each of the seven operations.
pub cancellation_propagates :
    {R W : Type 0} ⦃e : Eq R⦄ (action : R → Digest) (stores : Stores R W) (o : Operation R) (w : W)
    (flag : Bool)
    → any was_cancelled (run stores (perform action o) w flag).events ≡ true
    → (run stores (perform action o) w flag).value ≡ err cancelled
cancellation_propagates action stores o w flag h =
    run-cancelled stores (perform action o) w flag (operation_safe action o) h
