-- ===== src/Layered/Actions.antt =====
-- The action records of crates/octa-cache/src/layered.rs: `write_action_if_absent` and
-- `commit_verified_hit`.
use octa.Common.{Bool, false, not, Option, none, some, if◌then◌else◌, Eq, ◌==◌}
use octa.Text.{Str}
use octa.Digest.{Digest}
use octa.Layered.{
  cancelled, metadata, failure, CacheResult, ok, err, local, remote, WriteOutcome, written,
  already_present, conflict, is_written, ActionLookup, get_action, write_action, quarantine, Steps,
  done, call, remote_warning, remote_success, or_return,
}

abbrev is_some_written : Option WriteOutcome → Bool
is_some_written (some outcome) = is_written outcome
is_some_written none = false

-- The outcome of both tiers, local first.
unfoldable pub combine : WriteOutcome → Option WriteOutcome → WriteOutcome
combine conflict other = conflict
combine written other = written
combine already_present other = if is_some_written other then written else already_present

module _ {R : Type 0} where
  -- Once the remote store has answered, or failed.
  unfoldable pub finish_write :
      Str → R → Option (ActionLookup R) → Option WriteOutcome → Steps R (CacheResult WriteOutcome)
  finish_write namespace result (some existing) other = done (ok (combine already_present other))
  finish_write namespace result none other =
      call (write_action local namespace result)
        (or_return λ outcome. done (ok (combine outcome other)))

  unfoldable pub remote_action_reply :
      Str
      → R
      → Option (ActionLookup R)
      → CacheResult WriteOutcome
      → Steps R (CacheResult WriteOutcome)
  remote_action_reply namespace result existing (ok conflict) = remote_success (done (ok conflict))
  remote_action_reply namespace result existing (ok written) =
      remote_success (finish_write namespace result existing (some written))
  remote_action_reply namespace result existing (ok already_present) =
      remote_success (finish_write namespace result existing (some already_present))
  remote_action_reply namespace result existing (err cancelled) = done (err cancelled)
  remote_action_reply namespace result existing (err metadata) =
      remote_warning (finish_write namespace result existing none)
  remote_action_reply namespace result existing (err failure) =
      remote_warning (finish_write namespace result existing none)

  unfoldable pub commit_again : CacheResult WriteOutcome → Steps R (CacheResult (Unit {0}))
  commit_again (ok written) = done (ok tt)
  commit_again (ok already_present) = done (ok tt)
  commit_again (ok conflict) = done (err metadata)
  commit_again (err e) = done (err e)

  unfoldable pub commit_outcome : Str → R → WriteOutcome → Steps R (CacheResult (Unit {0}))
  commit_outcome namespace result written = done (ok tt)
  commit_outcome namespace result already_present = done (ok tt)
  commit_outcome namespace result conflict =
      call (quarantine namespace result)
        (or_return λ done_with. call (write_action local namespace result) commit_again)

  -- `LayeredCacheStore::commit_verified_hit`.
  unfoldable pub commit_verified_hit : Str → R → Steps R (CacheResult (Unit {0}))
  commit_verified_hit namespace result =
      call (write_action local namespace result) (or_return (commit_outcome namespace result))

module _ {R : Type 0} ⦃e : Eq R⦄ where
  -- The record that the local store holds, against the one to publish.
  unfoldable pub existing_reply :
      Str → R → Option (ActionLookup R) → Steps R (CacheResult WriteOutcome)
  existing_reply namespace result none =
      call (write_action remote namespace result) (remote_action_reply namespace result none)
  existing_reply namespace result (some existing) =
      if not (existing.result == result)
      then done (ok conflict)
      else call (write_action remote namespace result)
          (remote_action_reply namespace result (some existing))

  -- `LayeredCacheStore::write_action_if_absent`. `action` is the digest that a record names.
  unfoldable pub write_action_if_absent :
      (R → Digest) → Str → R → Steps R (CacheResult WriteOutcome)
  write_action_if_absent action namespace result =
      call (get_action local namespace (action result))
        (or_return (existing_reply namespace result))
