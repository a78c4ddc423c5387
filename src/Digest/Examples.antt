-- ===== src/Digest/Examples.antt =====
-- A digest of 32 equal bytes, its wire form, and the theorems at them.
use octa.Common.{ℕ, zero, suc, ◌≡◌, refl, List, [], ◌∷◌, arith, nat_eq}
use octa.Text.{str_eq}
use octa.Digest.{
  blake3, sha256, ok, err, wrong_length, not_lowercase_hex, Digest, algorithm_name, parse_algorithm,
  decode_nibble, decode_pairs, from_hex, hex_of, hex, serialize, deserialize,
}
use octa.Digest.Hex.{IsDigest, deserialize-serialize}

program : Unit {0}
unfolding algorithm_name parse_algorithm decode_nibble decode_pairs from_hex hex_of hex serialize
    deserialize
program = tt

abbrev times {ℓ} : {A : Type ℓ} → ℕ → A → List A
times zero a = []
times (suc n) a = a ∷ times n a

abbrev sample : Digest
sample = record { algorithm = blake3; hash = times 32 0xab; size_bytes = 7 }

sample-IsDigest : IsDigest sample
sample-IsDigest = record { count = refl; bytes = omega arith }

sample_wire : serialize sample ≡ record {
  algorithm = b'b' ∷ b'l' ∷ b'a' ∷ b'k' ∷ b'e' ∷ b'3' ∷ [];
  hash = hex sample;
  size_bytes = 7;
}
unfolding program
sample_wire = refl

-- An upper-case digit, and a hash that is too short.
upper_case : from_hex blake3 (times 64 b'A') 7 ≡ err not_lowercase_hex
unfolding program
upper_case = refl

too_short : from_hex sha256 (times 63 b'a') 7 ≡ err wrong_length
unfolding program
too_short = refl

deserialize-serialize_example : deserialize (serialize sample) ≡ ok sample
deserialize-serialize_example = deserialize-serialize sample sample-IsDigest

read_sample : deserialize (serialize sample) ≡ ok sample
unfolding program
read_sample = refl
