-- ===== src/Layered/Publication.antt =====
-- Publication degrades to the local store when the remote one fails.
use octa.Common.{◌≡◌, ◌⊎◌, false, [], ◌∷◌}
use octa.BlobDescriptor.{BlobDescriptor, blob_eq}
use octa.Layered.{
  CacheResult, ok, local, remote, WriteOutcome, conflict, Reader, find_missing, read_blob,
  write_blob,
}
use octa.Layered.Runs.{Stores, is_cancelled}

-- In the write of this blob at the world `w` the local store writes it, and reads it back after the
-- question to the remote store, and the remote store reports no cancellation. Otherwise the remote
-- store may fail or answer anything.
pub record LocalWorks {R W : Type 0} (stores : Stores R W) (b : BlobDescriptor) (body : Reader)
    (w : W) : Type 0 where
  pub outcome : WriteOutcome
  pub write_law : (stores (write_blob local b body) w).0 ≡ ok outcome
  pub stored : Reader
  pub read_law :
      let v = (stores (write_blob local b body) w).1 in
      let u = (stores (find_missing remote (b ∷ [])) v).1 in
      (stores (read_blob local b) u).0 ≡ ok stored
  pub asked_law :
      let v = (stores (write_blob local b body) w).1 in
      is_cancelled (stores (find_missing remote (b ∷ [])) v).0 ≡ false
  pub sent_law :
      let v = (stores (write_blob local b body) w).1 in
      let u = (stores (find_missing remote (b ∷ [])) v).1 in
      is_cancelled (stores (write_blob remote b stored) (stores (read_blob local b) u).1).0 ≡ false

module _ {R W : Type 0} (stores : Stores R W) where
  abbrev Published : WriteOutcome → CacheResult WriteOutcome → Type 0
  Published o r = (r ≡ ok o) ⊎ (r ≡ ok conflict)

  -- What the publication to the remote store needs at a world.
  abbrev Sends : BlobDescriptor → Reader → W → Type 0
  Sends b bytes u =
      ((stores (read_blob local b) u).0 ≡ ok bytes)
      × (is_cancelled (stores (write_blob remote b bytes) (stores (read_blob local b) u).1).0
          ≡ false)
