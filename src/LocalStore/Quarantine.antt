-- ===== src/LocalStore/Quarantine.antt =====
-- Quarantine, and the checks of a descriptor, as far as the ledger goes.
use octa.Common.{◌≡◌, refl, ◌∙◌, Option, none, some, nat_eq, remove}
use octa.BlobDescriptor.{BlobDescriptor, ValidateResult, validate_blob}
use octa.LocalStore.{CacheResult, CachePath, path_eq, Entry, Disk, Io, continue, blob_path}
use octa.LocalStore.Objects.{
  valid_blob, quarantine_entry, quarantine_locked, quarantine, quarantine_blob,
}
use octa.LocalStore.Ends.{
  Ends, returns, raises, Ends-map, Ends-continue, then-step, then-inspect, then-act, Ends-step,
}

-- The ledger is as it was.
abbrev pub Unspent : {A : Type 0} → Disk → CacheResult A × Disk → Type 0
Unspent d = Ends (λ _ e. e.ledger ≡ d.ledger) (λ e. e.ledger ≡ d.ledger)

quarantine_entry-Unspent :
    (p : CachePath) (x : Option Entry) (d : Disk) → Unspent d (quarantine_entry p x d)
unfolding quarantine_entry
quarantine_entry-Unspent p none d = returns tt d refl
quarantine_entry-Unspent p (some x) d =
    then-act (remove p) d _ (λ e s. s.ledger)
      λ e _ l.
        then-step e _ (λ f s. cc)
          λ f s. then-step f _ (λ g t. cc) λ g t. Ends-step g (λ h u. cc) λ h u. cc

-- What comes after an operation that left the ledger alone.
after_Unspent :
    {A : Type 0} (d e : Disk) (r : CacheResult A × Disk)
    → e.ledger ≡ d.ledger
    → Unspent e r
    → Unspent d r
after_Unspent d e r l u = Ends-map r (λ a f k. k ∙ l) (λ f k. k ∙ l) u

pub quarantine_locked-Unspent : (p : CachePath) (d : Disk) → Unspent d (quarantine_locked p d)
unfolding quarantine_locked
quarantine_locked-Unspent p d =
    then-step d _ (λ e s. s.ledger)
      λ e s.
        then-inspect p e _ (λ f t. cc)
          λ f t. after_Unspent d f _ (cc) (quarantine_entry-Unspent p _ f)

pub quarantine-Unspent : (p : CachePath) (d : Disk) → Unspent d (quarantine p d)
unfolding quarantine
quarantine-Unspent p d =
    then-step d _ (λ e s. s.ledger)
      λ e s.
        then-step e _ (λ f t. cc) λ f t. after_Unspent d f _ (cc) (quarantine_locked-Unspent p f)

pub valid_blob-Unspent : (v : ValidateResult) (d : Disk) → Unspent d (valid_blob v d)
valid_blob-Unspent ValidateResult.ok d = returns tt d refl
valid_blob-Unspent (ValidateResult.err e) d = raises _ d refl

pub quarantine_blob-Unspent : (b : BlobDescriptor) (d : Disk) → Unspent d (quarantine_blob b d)
unfolding quarantine_blob
quarantine_blob-Unspent b d =
    Ends-continue _ _ _ (valid_blob-Unspent (validate_blob b) d)
      λ a e l. after_Unspent d e _ l (quarantine-Unspent (blob_path b) e)

-- Quarantine, and then an answer.
pub quarantine_then :
    {A : Type 0} {Q : A → Disk → Type 0} (b : BlobDescriptor) (d c : Disk) (k : Unit {0} → Io A)
    → d.ledger ≡ c.ledger
    → ((e : Disk) → e.ledger ≡ c.ledger → Ends Q (λ e. e.ledger ≡ c.ledger) (k tt e))
    → Ends Q (λ e. e.ledger ≡ c.ledger) (continue (quarantine_blob b d) k)
quarantine_then b d c k l f =
    Ends-continue _ _ _ (after_Unspent c d _ l (quarantine_blob-Unspent b d)) λ a e m. f e m
