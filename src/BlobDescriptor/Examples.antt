-- ===== src/BlobDescriptor/Examples.antt =====
-- A descriptor of an unencoded bundle, and one whose sizes differ.
use octa.Common.{◌≡◌, refl, []}
use octa.Digest.{blake3}
use octa.BlobDescriptor.{BlobDescriptor, identity, err, digest_size_differs, validate_blob}

abbrev sample : BlobDescriptor
sample = record {
  digest = record { algorithm = blake3; hash = []; size_bytes = 4 };
  encoding = identity;
  encoded_size_bytes = 4;
  expanded_size_bytes = 4;
  entry_count = 1;
}

size_differs : validate_blob (record sample { expanded_size_bytes = 5 }) ≡ err digest_size_differs
unfolding validate_blob
size_differs = refl
