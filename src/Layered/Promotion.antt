-- ===== src/Layered/Promotion.antt =====
-- What promoting a verified remote hit leaves in the local store.
use octa.Common.{◌≡◌, refl, Bool, Option, some, arith, Eq}
use octa.Text.{Str}
use octa.Digest.{Digest}
use octa.Layered.{
  quarantine, CacheResult, ok, err, local, WriteOutcome, written, already_present, conflict,
  write_action, call, or_return,
}
use octa.Layered.Actions.{commit_verified_hit, commit_outcome, commit_again}
use octa.Layered.Runs.{Stores, run}
use octa.Layered.FirstWriter.{HoldsActions}

module _ {R W : Type 0} ⦃e : Eq R⦄ (action : R → Digest) (stores : Stores R W) (namespace : Str)
    (held : Digest → W → Option R) (r : R)
    (laws : HoldsActions action stores namespace held r) where
  -- Promoting a verified remote hit, if it succeeds, leaves that record in the local store, also
  -- where another record of the action stood there before.
  pub commit_is_durable :
      (w : W) (flag : Bool)
      → (run stores (commit_verified_hit namespace r) w flag).value ≡ ok tt
      → held (action r) (run stores (commit_verified_hit namespace r) w flag).world ≡ some r
  unfolding commit_verified_hit commit_outcome commit_again run
  commit_is_durable w flag h =
      let reply = stores (write_action local namespace r) w in
      first_reply reply.0 reply.1 (laws.written_law w) (laws.present_law w) h
    where
      second_reply :
          (x : CacheResult WriteOutcome) (v : W) (f : Bool)
          → (x ≡ ok written → held (action r) v ≡ some r)
          → (x ≡ ok already_present → held (action r) v ≡ some r)
          → (run stores (commit_again {R = R} x) v f).value ≡ ok tt
          → held (action r) (run stores (commit_again {R = R} x) v f).world ≡ some r
      second_reply (ok written) v f new same e = new refl
      second_reply (ok already_present) v f new same e = same refl
      second_reply (ok conflict) v f new same e = absurd (ground arith)
      second_reply (err x) v f new same e = absurd (ground arith)

      again :
          (x : CacheResult (Unit {0})) (v : W)
          → (run stores
              (or_return (λ u. call (write_action local namespace r) commit_again) x)
              v
              flag).value
            ≡ ok tt
          → held
              (action r)
              (run stores
                (or_return (λ u. call (write_action local namespace r) commit_again) x)
                v
                flag).world
            ≡ some r
      again (ok u) v e =
          let reply = stores (write_action local namespace r) v in
          second_reply reply.0 reply.1 flag (laws.written_law v) (laws.present_law v) e
      again (err x) v e = absurd (ground arith)

      first_reply :
          (x : CacheResult WriteOutcome) (v : W)
          → (x ≡ ok written → held (action r) v ≡ some r)
          → (x ≡ ok already_present → held (action r) v ≡ some r)
          → (run stores (or_return (commit_outcome namespace r) x) v flag).value ≡ ok tt
          → held (action r) (run stores (or_return (commit_outcome namespace r) x) v flag).world
            ≡ some r
      first_reply (ok written) v new same e = new refl
      first_reply (ok already_present) v new same e = same refl
      first_reply (ok conflict) v new same e =
          let moved = stores (quarantine namespace r) v in again moved.0 moved.1 e
      first_reply (err x) v new same e = absurd (ground arith)
