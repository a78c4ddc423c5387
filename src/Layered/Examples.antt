-- ===== src/Layered/Examples.antt =====
-- Small stores, and the theorems about the layered cache at them.
use octa.Common.{
  ℕ, ◌≡◌, refl, Bool, true, false, not, Option, none, some, [], ◌∷◌, arith, ◌==◌, ==_iff, nat_eq,
  any, if◌then◌else◌,
}
use octa.Text.{str_eq}
use octa.Digest.{blake3, Digest}
use octa.BlobDescriptor.{BlobDescriptor, identity, blob_eq}
use octa.Layered.{
  CacheError, cancelled, failure, CacheResult, ok, err, CacheLayer, local, remote, WriteOutcome,
  written, already_present, conflict, get_action, find_missing, read_blob, write_blob, write_action,
  recover_corrupt, quarantine, ActionLookup, filter,
}
use octa.Layered.Lookup.{layered_get_action, get_action_local, get_action_remote}
use octa.Layered.Actions.{
  commit_verified_hit, commit_outcome, commit_again, write_action_if_absent, existing_reply,
  remote_action_reply, finish_write, combine,
}
use octa.Layered.Runs.{Stores, run, Operation, get, perform}
use octa.Layered.CancelSafe.{was_cancelled}
use octa.Layered.Cancellation.{cancellation_propagates}
use octa.Layered.Warnings.{is_warned, total, session}
use octa.Layered.FirstWriter.{HoldsActions}

program : Unit {0}
unfolding commit_verified_hit commit_outcome commit_again layered_get_action get_action_local
    get_action_remote run perform session write_action_if_absent existing_reply remote_action_reply
    finish_write combine
program = tt

abbrev digest_of : ℕ → Digest
digest_of n = record { algorithm = blake3; hash = n ∷ []; size_bytes = 4 }

abbrev blob_of : ℕ → BlobDescriptor
blob_of n = record {
  digest = digest_of n;
  encoding = identity;
  encoded_size_bytes = 4;
  expanded_size_bytes = 4;
  entry_count = 1;
}

-- The local store misses every action and holds blob 1. The remote store holds blob 2 and answers
-- actions with `answer`. The world is the record that the local store holds for action 7.
abbrev lacking : CacheLayer → BlobDescriptor → Option ℕ → Bool
lacking local b w = b == blob_of 1
lacking remote b w = b == blob_of 2

abbrev hold : ℕ → Option ℕ → CacheResult WriteOutcome × Option ℕ
hold r none = (ok written, some r)
hold r (some q) = (if q == r then ok already_present else ok conflict, some q)

abbrev lookup_of : Option ℕ → Option (ActionLookup ℕ)
lookup_of none = none
lookup_of (some q) = some (record { result = q; layer = local })

abbrev stores : CacheError → Stores ℕ (Option ℕ)
stores answer (get_action local n a) w = (ok (lookup_of w), w)
stores answer (get_action remote n a) w = (err answer, w)
stores answer (find_missing l bs) w = (ok (filter (λ b. not (lacking l b w)) bs), w)
stores answer (read_blob local b) w = (ok (4 ∷ []), w)
stores answer (read_blob remote b) w = (err failure, w)
stores answer (write_blob local b r) w = (ok written, w)
stores answer (write_blob remote b r) w = (err failure, w)
stores answer (write_action local n r) w = hold r w
stores answer (write_action remote n r) w = (err failure, w)
stores answer (recover_corrupt b) w = (ok none, w)
stores answer (quarantine n r) w = (ok tt, none)

abbrev get_seven : Operation ℕ
get_seven = get [] (digest_of 7)

was_cancelled_seven :
    any was_cancelled (run (stores cancelled) (perform digest_of get_seven) none false).events
    ≡ true
unfolding program
was_cancelled_seven = refl

cancellation_propagates_example :
    (run (stores cancelled) (perform digest_of get_seven) none false).value ≡ err cancelled
cancellation_propagates_example =
    cancellation_propagates digest_of (stores cancelled) get_seven none false was_cancelled_seven

-- Two failures, one warning.
two_failures :
    total is_warned (session digest_of (stores failure) (get_seven ∷ get_seven ∷ []) none false).0
    ≡ 1
unfolding program
two_failures = refl

abbrev held : Digest → Option ℕ → Option ℕ
held a w = w

stores-HoldsActions : HoldsActions digest_of (stores failure) [] held 7
stores-HoldsActions = record {
  read_law = found;
  remote_law = λ w. refl;
  written_law = new 7;
  present_law = same 7;
}
  where
    found : (w : Option ℕ) (l : ActionLookup ℕ) → ok (lookup_of w) ≡ ok (some l) → w ≡ some l.result
    found none l h = absurd (ground arith)
    found (some q) l h = ground (arith, h)

    new : (r : ℕ) (w : Option ℕ) → (hold r w).0 ≡ ok written → (hold r w).1 ≡ some r
    new r none h = refl
    new r (some q) h = absurd (ground arith)

    same : (r : ℕ) (w : Option ℕ) → (hold r w).0 ≡ ok already_present → (hold r w).1 ≡ some r
    same r none h = refl
    same r (some q) h = ground (arith, ==_iff q r)

publish_seven :
    (run (stores failure) (write_action_if_absent digest_of [] 7) none false).value ≡ ok written
unfolding program
publish_seven = refl

commit_over_conflict :
    (run (stores failure) (commit_verified_hit [] 7) (some 5) false).value ≡ ok tt
unfolding program
commit_over_conflict = refl
