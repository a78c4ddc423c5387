-- ===== src/LocalStore/Tier.antt =====
-- The local store below crates/octa-cache/src/layered.rs: its operations answer the local calls.
use octa.Common.{◌≡◌, refl, ◌∙◌, ap, Eq, Bool, false, Option, none, some, arith, lookup}
use octa.Text.{Str, as_bytes}
use octa.Digest.{Digest, hex, hex_of}
use octa.ActionResult.{ActionResultV1}
use octa.ActionResult.Equal.{result_eq}
use octa.Layered
use octa.Layered.{
  CacheLayer, local, remote, WriteOutcome, written, already_present, conflict, is_conflict,
  ActionLookup, Call, Reply, get_action, find_missing, read_blob, write_blob, write_action,
  recover_corrupt, quarantine,
}
use octa.Layered.Runs.{Stores, run}
use octa.Layered.Actions.{write_action_if_absent, commit_verified_hit}
use octa.Layered.FirstWriter.{HoldsActions, publication_is_durable}
use octa.Layered.Promotion.{commit_is_durable}
use octa.LocalStore.{
  CacheError, CacheResult, ok, err, action_file, path_eq, Entry, regular, irregular, Disk, Io,
  LocalCacheConfig, Primitives,
}
use octa.LocalStore.Operations
use octa.LocalStore.Operations.{Json}
use octa.LocalStore.Written.{written_action_stands, Kept}
use octa.LocalStore.Records.{get_action_lem, Found}

-- The layered store tells a cancellation from the other errors.
abbrev pub error_of : CacheError → Layered.CacheError
error_of CacheError.cancelled = Layered.cancelled
error_of CacheError.configuration = Layered.failure
error_of CacheError.protocol = Layered.failure
error_of CacheError.limit = Layered.failure
error_of CacheError.invalid_bundle = Layered.failure
error_of CacheError.corrupt = Layered.failure
error_of CacheError.io = Layered.failure
error_of (CacheError.capacity_release primary release) = Layered.failure

unfoldable pub answered :
    {A B W : Type 0} → (A → B) → W → CacheResult A × Disk → Layered.CacheResult B × (Disk × W)
answered f w (ok a, d) = (Layered.ok (f a), (d, w))
answered f w (err e, d) = (Layered.err (error_of e), (d, w))

-- What the remote store answers, next to the disk.
abbrev pub beside :
    {B W : Type 0} → Disk → Layered.CacheResult B × W → Layered.CacheResult B × (Disk × W)
beside d (r, w) = (r, (d, w))

module _ {V W : Type 0} (x : Primitives) (json : Json V) (config : LocalCacheConfig)
    (collect : Io (Unit {0})) (away : Stores (ActionResultV1 V) W) where
  abbrev with_local : Option (ActionResultV1 V) → Option (ActionLookup (ActionResultV1 V))
  with_local none = none
  with_local (some r) = some (record { result = r; layer = local })

  -- The store in front is the local one, and the remote one is any store.
  unfoldable pub tiers : Stores (ActionResultV1 V) (Disk × W)
  tiers (get_action local n a) (d, w) = answered with_local w (Operations.get_action x json n a d)
  tiers (get_action remote n a) (d, w) = beside d (away (get_action remote n a) w)
  tiers (find_missing local bs) (d, w) = answered (λ m. m) w (Operations.find_missing_blobs bs d)
  tiers (find_missing remote bs) (d, w) = beside d (away (find_missing remote bs) w)
  tiers (read_blob local b) (d, w) = answered (λ m. m) w (Operations.read_blob b d)
  tiers (read_blob remote b) (d, w) = beside d (away (read_blob remote b) w)
  tiers (write_blob local b body) (d, w) =
      answered (λ m. m) w (Operations.write_blob_if_absent x config collect b body d)
  tiers (write_blob remote b body) (d, w) = beside d (away (write_blob remote b body) w)
  tiers (write_action local n r) (d, w) =
      answered (λ m. m) w (Operations.write_action_if_absent x json config collect n r d)
  tiers (write_action remote n r) (d, w) = beside d (away (write_action remote n r) w)
  tiers (recover_corrupt b) (d, w) =
      answered (λ m. m) w (Operations.recover_corrupt_blob x config b d)
  tiers (quarantine n r) (d, w) =
      answered (λ _. tt) w (Operations.quarantine_conflicting_action x json n r d)

  unfoldable pub decoded : Option Entry → Option (ActionResultV1 V)
  decoded none = none
  decoded (some irregular) = none
  decoded (some (regular content)) = json.from_slice content

  -- The record that the disk holds for an action.
  unfoldable pub on_disk : Str → Digest → Disk × W → Option (ActionResultV1 V)
  on_disk n a (d, w) =
      decoded (lookup (action_file (hex_of (x.hash (as_bytes n))) (hex a) a.size_bytes) d.files)

  module _ (namespace : Str) (r : ActionResultV1 V)
      (round_trip : json.from_slice (json.to_vec r) ≡ some r) where
    read_law :
        (a : Digest) (s : Disk × W) (l : ActionLookup (ActionResultV1 V))
        → (tiers (get_action local namespace a) s).0 ≡ Layered.ok (some l)
        → on_disk namespace a (tiers (get_action local namespace a) s).1 ≡ some l.result
    unfolding tiers on_disk answered decoded
    read_law a (d, w) l h =
        answer (Operations.get_action x json namespace a d) (get_action_lem x json namespace a d) h
      where
        answer :
            (o : CacheResult (Option (ActionResultV1 V)) × Disk)
            → ((q : ActionResultV1 V) → o.0 ≡ ok (some q) → Found x json namespace a q o.1)
            → (answered with_local w o).0 ≡ Layered.ok (some l)
            → on_disk namespace a (answered with_local w o).1 ≡ some l.result
        answer (ok none, e) f k = absurd (ground (arith, k))
        answer (ok (some q), e) f k = let g = f q refl in ap decoded g.1 ∙ (g.3 ∙ ground (arith, k))
        answer (err y, e) f k = absurd (ground (arith, k))

    write_law :
        (s : Disk × W) (o : WriteOutcome)
        → (tiers (write_action local namespace r) s).0 ≡ Layered.ok o
        → is_conflict o ≡ false
        → on_disk namespace r.action (tiers (write_action local namespace r) s).1 ≡ some r
    unfolding tiers on_disk answered decoded
    write_law (d, w) o h n =
        answer (Operations.write_action_if_absent x json config collect namespace r d)
          (written_action_stands x json config collect namespace r d) h
      where
        answer :
            (p : CacheResult WriteOutcome × Disk)
            → ((q : WriteOutcome) → p.0 ≡ ok q → Kept x json config collect namespace r q p.1)
            → (answered (λ m. m) w p).0 ≡ Layered.ok o
            → on_disk namespace r.action (answered (λ m. m) w p).1 ≡ some r
        answer (ok q, e) f k =
            ap decoded ((f q refl).1 (λ c. absurd (ground (arith, k, n, c)))) ∙ round_trip
        answer (err y, e) f k = absurd (ground (arith, k))

    tiers-HoldsActions : HoldsActions (λ q. q.action) tiers namespace (on_disk namespace) r
    unfolding tiers on_disk
    tiers-HoldsActions = record {
      read_law = read_law r.action;
      remote_law = λ s. refl;
      written_law = λ s h. write_law s written h refl;
      present_law = λ s h. write_law s already_present h refl;
    }

    -- The layered cache in front of the local store and any remote store: whatever fails on the disk
    -- and whatever the remote store answers, if the bytes of the record decode to it, publishing the
    -- record, when it ends without a conflict, leaves a file on the disk that decodes to the record.
    pub published_on_disk :
        ⦃v : Eq V⦄ (s : Disk × W) (flag : Bool) (o : WriteOutcome)
        → (run tiers (write_action_if_absent (λ q. q.action) namespace r) s flag).value
          ≡ Layered.ok o
        → is_conflict o ≡ false
        → on_disk namespace r.action
            (run tiers (write_action_if_absent (λ q. q.action) namespace r) s flag).world
          ≡ some r
    published_on_disk s flag =
        publication_is_durable (λ q. q.action) tiers namespace (on_disk namespace) r
          tiers-HoldsActions s flag

    -- Under the same condition, promoting the record as a verified remote hit, when that succeeds,
    -- leaves a file on the disk that decodes to the record, also where another stood before.
    pub promoted_on_disk :
        ⦃v : Eq V⦄ (s : Disk × W) (flag : Bool)
        → (run tiers (commit_verified_hit namespace r) s flag).value ≡ Layered.ok tt
        → on_disk namespace r.action (run tiers (commit_verified_hit namespace r) s flag).world
          ≡ some r
    promoted_on_disk s flag =
        commit_is_durable (λ q. q.action) tiers namespace (on_disk namespace) r tiers-HoldsActions s
          flag
