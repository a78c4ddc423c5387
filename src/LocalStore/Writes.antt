-- ===== src/LocalStore/Writes.antt =====
-- The writes of the local store: what a success says of the disk, and what a write costs.
use octa.Common.{ℕ, ◌≡◌, ◌≢◌, refl, Bool, true, false, List, nat_eq}
use octa.Text.{str_eq}
use octa.BlobDescriptor.{BlobDescriptor}
use octa.Layered.{WriteOutcome, already_present, conflict}
use octa.LocalStore.{CacheResult, ok, err, path_eq, Disk, Io, LocalCacheConfig, Primitives}
use octa.LocalStore.Operations.{write_absent_blob, write_blob_if_absent}
use octa.LocalStore.Ends.{Ends, returns, raises, Ends-map, Ends-ok, Ends-continue, Ends-attempt}
use octa.LocalStore.Blobs.{Stored, existing_blob_is_valid-Ends}
use octa.LocalStore.Publication.{write_blob_reserved-Ends, finish_reservation-Stored}
use octa.LocalStore.Reserved.{finish_reservation-err}

-- Any ending.
pub whatever : {A : Type 0} (r : CacheResult A × Disk) → Ends (λ _ _. Unit) (λ _. Unit) r
whatever (ok a, d) = returns a d tt
whatever (err x, d) = raises x d tt

module _ (x : Primitives) (config : LocalCacheConfig) (collect : Io (Unit {0})) where
  write_absent_blob-Stored :
      (b : BlobDescriptor) (body : List ℕ) (v : Bool) (d : Disk)
      → (v ≡ true → Stored x config b d)
      → Ends
          (λ o e. (o ≢ conflict) × Stored x config b e)
          (λ _. Unit)
          (write_absent_blob x config collect b body v d)
  unfolding write_absent_blob
  write_absent_blob-Stored b body true d h = returns already_present d ((λ e. absurd cc), h refl)
  write_absent_blob-Stored b body false d h =
      Ends-continue (λ _ _. Unit) _ _ (whatever _)
        λ u e t.
          Ends-attempt _ _ _ _ (write_blob_reserved-Ends x config b body e)
            (λ o f k. finish_reservation-Stored x config b b.encoded_size_bytes o f k.0.0 k.0.1)
            (λ y f k.
              Ends-map _ (λ o g l. l) (λ g l. tt) (finish_reservation-err b.encoded_size_bytes y f))

  -- Whatever stood on the disk and whatever fails: when a write of a blob returns, it has not found
  -- a conflict, and a regular file stands at the path of the blob that has the size, the expanded
  -- size and the digest of the descriptor.
  pub written_blob_is_verified :
      (b : BlobDescriptor) (body : List ℕ) (d : Disk) (o : WriteOutcome)
      → (write_blob_if_absent x config collect b body d).0 ≡ ok o
      → (o ≢ conflict) × Stored x config b (write_blob_if_absent x config collect b body d).1
  unfolding write_blob_if_absent
  written_blob_is_verified b body d o = Ends-ok _ o (
      Ends-continue (λ _ _. Unit) _ _ (whatever _)
        λ u e t.
          Ends-continue (λ _ _. Unit) _ _ (whatever _)
            λ v f s.
              Ends-continue (λ w i. w ≡ true → Stored x config b i) _ _
                (Ends-map _ (λ a i k. k.0) (λ i k. tt) (existing_blob_is_valid-Ends x config b f))
                λ w i k. write_absent_blob-Stored b body w i k)
