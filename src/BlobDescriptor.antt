-- ===== src/BlobDescriptor.antt =====
-- crates/octa-cache-protocol/src/result.rs: the descriptor of an output bundle, with its derived
-- equality and `BlobDescriptor::validate`.
pub mod Validity
mod Examples
use octa.Common.{
  ℕ, ◌≡◌, ◌↔◌, refl, Bool, true, false, not, ◌&&◌, ◌||◌, List, [], ◌∷◌, arith, Eq, ◌==◌, ==_iff,
  nat_eq, if◌then◌else◌,
}
use octa.Text.{str_eq, str_beq_iff}
use octa.Digest.{DigestAlgorithm, blake3, sha256, Digest}

pub data BlobEncoding : Type 0 where
  identity zstd_v1 : BlobEncoding

pub record BlobDescriptor : Type 0 where
  pub digest : Digest
  pub encoding : BlobEncoding
  pub encoded_size_bytes : ℕ
  pub expanded_size_bytes : ℕ
  pub entry_count : ℕ

-- The derived `PartialEq`.
abbrev pub algorithm_beq : DigestAlgorithm → DigestAlgorithm → Bool
algorithm_beq blake3 blake3 = true
algorithm_beq sha256 sha256 = true
algorithm_beq blake3 sha256 = false
algorithm_beq sha256 blake3 = false

abbrev pub encoding_beq : BlobEncoding → BlobEncoding → Bool
encoding_beq identity identity = true
encoding_beq zstd_v1 zstd_v1 = true
encoding_beq identity zstd_v1 = false
encoding_beq zstd_v1 identity = false

abbrev pub digest_beq : Digest → Digest → Bool
digest_beq d e =
    algorithm_beq d.algorithm e.algorithm && d.hash == e.hash && d.size_bytes == e.size_bytes

abbrev pub blob_beq : BlobDescriptor → BlobDescriptor → Bool
blob_beq a b =
    digest_beq a.digest b.digest
    && encoding_beq a.encoding b.encoding
    && a.encoded_size_bytes == b.encoded_size_bytes
    && a.expanded_size_bytes == b.expanded_size_bytes
    && a.entry_count == b.entry_count

pub algorithm_beq_iff : (a b : DigestAlgorithm) → (algorithm_beq a b ≡ true) ↔ (a ≡ b)
algorithm_beq_iff blake3 blake3 = ground arith
algorithm_beq_iff sha256 sha256 = ground arith
algorithm_beq_iff blake3 sha256 = ground arith
algorithm_beq_iff sha256 blake3 = ground arith

pub encoding_beq_iff : (a b : BlobEncoding) → (encoding_beq a b ≡ true) ↔ (a ≡ b)
encoding_beq_iff identity identity = ground arith
encoding_beq_iff zstd_v1 zstd_v1 = ground arith
encoding_beq_iff identity zstd_v1 = ground arith
encoding_beq_iff zstd_v1 identity = ground arith

pub digest_beq_iff : (d e : Digest) → (digest_beq d e ≡ true) ↔ (d ≡ e)
digest_beq_iff d e = ground (
  arith,
  algorithm_beq_iff d.algorithm e.algorithm,
  str_beq_iff d.hash e.hash,
  ==_iff d.size_bytes e.size_bytes,
)

pub blob_beq_iff : (a b : BlobDescriptor) → (blob_beq a b ≡ true) ↔ (a ≡ b)
blob_beq_iff a b = ground (
  arith,
  digest_beq_iff a.digest b.digest,
  encoding_beq_iff a.encoding b.encoding,
  ==_iff a.encoded_size_bytes b.encoded_size_bytes,
  ==_iff a.expanded_size_bytes b.expanded_size_bytes,
  ==_iff a.entry_count b.entry_count,
)

instance abbrev pub blob_eq : Eq BlobDescriptor
blob_eq = record { same = blob_beq; same_iff = blob_beq_iff }

pub data ValidateError : Type 0 where
  foreign_digest digest_size_differs empty_bundle identity_sizes_differ : ValidateError

pub data ValidateResult : Type 0 where
  ok : ValidateResult
  err : ValidateError → ValidateResult

-- `BlobDescriptor::validate`.
unfoldable pub validate_blob : BlobDescriptor → ValidateResult
validate_blob b =
    if not (algorithm_beq b.digest.algorithm blake3)
    then err foreign_digest
    else if not (b.digest.size_bytes == b.expanded_size_bytes)
    then err digest_size_differs
    else if b.encoded_size_bytes == 0 || b.expanded_size_bytes == 0 || b.entry_count == 0
    then err empty_bundle
    else if encoding_beq b.encoding identity && not (b.encoded_size_bytes == b.expanded_size_bytes)
    then err identity_sizes_differ
    else ok
