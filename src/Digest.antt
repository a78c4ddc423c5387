-- ===== src/Digest.antt =====
-- crates/octa-cache-protocol/src/digest.rs: content digests and their hexadecimal form.
-- A text is the list of its bytes. The hash functions themselves are not modelled.
pub mod Hex
mod Examples
use octa.Common.{
  ℕ, ◌+◌, ◌-◌, ◌*◌, ◌/◌, ◌%◌, Bool, true, false, not, ◌&&◌, List, [], ◌∷◌, ◌++◌, ◌==◌, nat_eq, ltb,
  leb, if◌then◌else◌, length,
}
use octa.Text.{Str, str_eq}

abbrev pub hash_bytes : ℕ
hash_bytes = 32

pub data DigestAlgorithm : Type 0 where
  blake3 sha256 : DigestAlgorithm

abbrev pub blake3_name : Str
blake3_name = b'b' ∷ b'l' ∷ b'a' ∷ b'k' ∷ b'e' ∷ b'3' ∷ []

abbrev pub sha256_name : Str
sha256_name = b's' ∷ b'h' ∷ b'a' ∷ b'2' ∷ b'5' ∷ b'6' ∷ []

pub data DigestError : Type 0 where
  unsupported_algorithm wrong_length not_lowercase_hex : DigestError

pub data DigestResult (A : Type 0) : Type 0 where
  ok : A → DigestResult A
  err : DigestError → DigestResult A

infixl 5 ◌>>=◌
abbrev pub ◌>>=◌ : {A B : Type 0} → DigestResult A → (A → DigestResult B) → DigestResult B
ok a >>= f = f a
err e >>= f = err e

pub canonical_tag : DigestAlgorithm → ℕ
canonical_tag blake3 = 1
canonical_tag sha256 = 2

-- `Display` and `FromStr` of the algorithm.
pub algorithm_name : DigestAlgorithm → Str
algorithm_name blake3 = blake3_name
algorithm_name sha256 = sha256_name

pub parse_algorithm : Str → DigestResult DigestAlgorithm
parse_algorithm s =
    if s == blake3_name
    then ok blake3
    else if s == sha256_name
    then ok sha256
    else err unsupported_algorithm

pub record Digest : Type 0 where
  pub algorithm : DigestAlgorithm
  pub hash : List ℕ
  pub size_bytes : ℕ

pub decode_nibble : ℕ → DigestResult ℕ
decode_nibble byte =
    if leb b'0' byte && leb byte b'9'
    then ok (byte - b'0')
    else if leb b'a' byte && leb byte b'f'
    then ok (byte - b'a' + 10)
    else err not_lowercase_hex

-- The loop over the pairs of bytes.
pub decode_pairs : Str → DigestResult (List ℕ)
decode_pairs [] = ok []
decode_pairs (c ∷ []) = ok []
decode_pairs (c ∷ d ∷ rest) = do
  high ← decode_nibble c
  low ← decode_nibble d
  bytes ← decode_pairs rest
  ok ((high * 16 + low) ∷ bytes)

pub from_hex : DigestAlgorithm → Str → ℕ → DigestResult Digest
from_hex algorithm hash size_bytes =
    if not (length hash == hash_bytes * 2)
    then err wrong_length
    else decode_pairs hash >>= λ bytes.
        ok (record { algorithm = algorithm; hash = bytes; size_bytes = size_bytes })

-- `{byte:02x}`.
abbrev pub hex_digit : ℕ → ℕ
hex_digit n = if ltb n 10 then n + b'0' else n - 10 + b'a'

unfoldable pub hex_of : List ℕ → Str
hex_of [] = []
hex_of (b ∷ bs) = hex_digit (b / 16) ∷ hex_digit (b % 16) ∷ hex_of bs

unfoldable pub hex : Digest → Str
hex d = hex_of d.hash

-- `DigestWire`, with `Serialize` and `Deserialize` of a digest.
pub record DigestWire : Type 0 where
  pub algorithm : Str
  pub hash : Str
  pub size_bytes : ℕ

pub serialize : Digest → DigestWire
serialize d = record {
  algorithm = algorithm_name d.algorithm;
  hash = hex d;
  size_bytes = d.size_bytes;
}

pub deserialize : DigestWire → DigestResult Digest
deserialize w = parse_algorithm w.algorithm >>= λ algorithm. from_hex algorithm w.hash w.size_bytes
