-- ===== src/BlobDescriptor/Validity.antt =====
-- Which descriptors `BlobDescriptor::validate` accepts.
use octa.Common.{◌<◌, ◌≡◌, ◌↔◌, arith, ==_iff, nat_eq}
use octa.Digest.{blake3}
use octa.BlobDescriptor.{
  identity, BlobDescriptor, algorithm_beq_iff, encoding_beq_iff, ok, validate_blob,
}

-- Native digest of the expanded bytes, nothing empty, and equal sizes where nothing is encoded.
pub record IsConsistent (b : BlobDescriptor) : Type 0 where
  pub native : b.digest.algorithm ≡ blake3
  pub digest_size : b.digest.size_bytes ≡ b.expanded_size_bytes
  pub encoded : 0 < b.encoded_size_bytes
  pub expanded : 0 < b.expanded_size_bytes
  pub entries : 0 < b.entry_count
  pub same_size : b.encoding ≡ identity → b.encoded_size_bytes ≡ b.expanded_size_bytes

-- `validate` accepts exactly the consistent descriptors.
pub validate_blob_iff : (b : BlobDescriptor) → (validate_blob b ≡ ok) ↔ IsConsistent b
unfolding validate_blob
validate_blob_iff b = (
  λ h. record {
    native = ground (arith, algorithm_beq_iff b.digest.algorithm blake3);
    digest_size = ground (arith, ==_iff b.digest.size_bytes b.expanded_size_bytes);
    encoded = ground (arith, ==_iff b.encoded_size_bytes 0);
    expanded = ground (arith, ==_iff b.expanded_size_bytes 0);
    entries = ground (arith, ==_iff b.entry_count 0);
    same_size = λ e. ground (
      arith,
      encoding_beq_iff b.encoding identity,
      ==_iff b.encoded_size_bytes b.expanded_size_bytes,
    );
  },
  λ c. ground (
    arith,
    algorithm_beq_iff b.digest.algorithm blake3,
    encoding_beq_iff b.encoding identity,
    c.native,
    c.digest_size,
    c.encoded,
    c.expanded,
    c.entries,
    c.same_size,
  ),
)
