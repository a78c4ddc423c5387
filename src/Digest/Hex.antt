-- ===== src/Digest/Hex.antt =====
-- The hexadecimal form is a bijection between digests and 64 lowercase digits.
use octa.Common.{
  ℕ, ◌+◌, ◌-◌, ◌*◌, ◌/◌, ◌%◌, ◌<◌, ◌≡◌, ◌∙◌, subst, sym, refl, ap, List, [], ◌∷◌, arith, nat_eq,
  ==_iff, All, length, true, ◌==◌, Bool-cases, inl, inr,
}
use octa.Text.{Str, str_eq, str_beq_iff}
use octa.Digest.{
  DigestAlgorithm, blake3, sha256, blake3_name, sha256_name, DigestResult, ok, err, ◌>>=◌, Digest,
  DigestWire, algorithm_name, parse_algorithm, decode_nibble, decode_pairs, from_hex, hex_digit,
  hex_of, hex, serialize, deserialize, hash_bytes,
}

abbrev pub IsByte : ℕ → Type 0
IsByte b = b < 256

-- A digest as its type holds it: 32 bytes.
pub record IsDigest (d : Digest) : Type 0 where
  pub count : length d.hash ≡ hash_bytes
  pub bytes : All IsByte d.hash

decode-hex_digit : (n : ℕ) → n < 16 → decode_nibble (hex_digit n) ≡ ok n
unfolding decode_nibble
decode-hex_digit n h = ground arith

hex_digit-decode : (c n : ℕ) → decode_nibble c ≡ ok n → (hex_digit n ≡ c) × (n < 16)
unfolding decode_nibble
hex_digit-decode c n h = ground arith

decode-hex_of : (bs : List ℕ) → All IsByte bs → decode_pairs (hex_of bs) ≡ ok bs
unfolding decode_pairs hex_of
decode-hex_of [] h = refl
decode-hex_of (b ∷ bs) h =
    rw
      (
        decode-hex_digit (b / 16) (omega arith),
        decode-hex_digit (b % 16) (omega arith),
        decode-hex_of bs h.1,
      )
      (ap (λ (n : ℕ). ok (n ∷ bs)) (omega arith))

length-hex_of : (bs : List ℕ) → length (hex_of bs) ≡ 2 * length bs
unfolding hex_of
length-hex_of [] = refl
length-hex_of (b ∷ bs) = omega (arith, length-hex_of bs)

pairs_nonempty :
    (r s : DigestResult ℕ) (t : DigestResult (List ℕ))
    → ¬ ((r >>= λ a. s >>= λ b. t >>= λ bytes. ok ((a * 16 + b) ∷ bytes)) ≡ ok [])
pairs_nonempty (ok a) (ok b) (ok t) h = ground arith
pairs_nonempty (ok a) (ok b) (err e) h = ground arith
pairs_nonempty (ok a) (err e) t h = ground arith
pairs_nonempty (err e) s t h = ground arith

pairs_parts :
    (r s : DigestResult ℕ) (t : DigestResult (List ℕ)) (b : ℕ) (bs : List ℕ)
    → (r >>= λ a. s >>= λ c. t >>= λ bytes. ok ((a * 16 + c) ∷ bytes)) ≡ ok (b ∷ bs)
    → (a : ℕ) × (c : ℕ) × (r ≡ ok a) × (s ≡ ok c) × (t ≡ ok bs) × (b ≡ a * 16 + c)
pairs_parts (ok a) (ok c) (ok t) b bs h = (a, c, refl, refl, ground arith, ground arith)
pairs_parts (ok a) (ok b) (err e) c bs h = absurd (ground arith)
pairs_parts (ok a) (err e) t b bs h = absurd (ground arith)
pairs_parts (err e) s t b bs h = absurd (ground arith)

decode_pairs-hex_of :
    (s : Str) (bs : List ℕ) (n : ℕ)
    → length s ≡ 2 * n
    → decode_pairs s ≡ ok bs
    → (hex_of bs ≡ s) × ((length bs ≡ n) × All IsByte bs)
unfolding decode_pairs hex_of
decode_pairs-hex_of [] [] n hn h = (refl, (omega arith, tt))
decode_pairs-hex_of [] (b ∷ bs) n hn h = absurd (ground arith)
decode_pairs-hex_of (c ∷ []) bs n hn h = absurd (omega arith)
decode_pairs-hex_of (c ∷ d ∷ rest) [] n hn h =
    absurd (pairs_nonempty (decode_nibble c) (decode_nibble d) (decode_pairs rest) h)
decode_pairs-hex_of (c ∷ d ∷ rest) (b ∷ bs) n hn h =
    let (x, y, hc, hd, ht, hb) =
      pairs_parts (decode_nibble c) (decode_nibble d) (decode_pairs rest) b bs h in
    ground (
      arith,
      hex_digit-decode c x hc,
      hex_digit-decode d y hd,
      decode_pairs-hex_of rest bs (n - 1) (omega arith) ht,
    )

parse_algorithm-algorithm_name : (a : DigestAlgorithm) → parse_algorithm (algorithm_name a) ≡ ok a
unfolding parse_algorithm algorithm_name
parse_algorithm-algorithm_name blake3 = refl
parse_algorithm-algorithm_name sha256 = refl

algorithm_name-parse_algorithm :
    (s : Str) (a : DigestAlgorithm) → parse_algorithm s ≡ ok a → algorithm_name a ≡ s
unfolding parse_algorithm algorithm_name
algorithm_name-parse_algorithm s blake3 h =
    ground (arith, str_beq_iff s blake3_name, str_beq_iff s sha256_name)
algorithm_name-parse_algorithm s sha256 h =
    ground (arith, str_beq_iff s blake3_name, str_beq_iff s sha256_name)

-- `from_hex` reads back what `hex` prints.
pub from_hex-hex : (d : Digest) → IsDigest d → from_hex d.algorithm (hex d) d.size_bytes ≡ ok d
unfolding from_hex hex
from_hex-hex d h = ground (arith, length-hex_of d.hash, decode-hex_of d.hash h.bytes, h.count)

-- `hex` prints back what `from_hex` accepts, and what it accepts has 32 bytes.
pub hex-from_hex :
    (algorithm : DigestAlgorithm) (s : Str) (size : ℕ) (d : Digest)
    → from_hex algorithm s size ≡ ok d
    → (hex d ≡ s) × (d.algorithm ≡ algorithm) × (d.size_bytes ≡ size) × IsDigest d
unfolding from_hex hex
hex-from_hex algorithm s size d h = elim (Bool-cases (length s == hash_bytes * 2)) [
  | inl e ↦ accepted e (decode_pairs s) refl
  | inr e ↦ absurd (ground arith)
]
  where
    accepted :
        (length s == hash_bytes * 2) ≡ true
        → (r : DigestResult (List ℕ)) → decode_pairs s ≡ r
        → (hex d ≡ s) × (d.algorithm ≡ algorithm) × (d.size_bytes ≡ size) × IsDigest d
    accepted e (ok bs) hr =
        let (same_text, (same_count, all_bytes)) = decode_pairs-hex_of s bs hash_bytes count hr in
        (
          ap hex_of hash_is ∙ same_text,
          ground arith,
          ground arith,
          record {
            count = ap length hash_is ∙ same_count;
            bytes = subst (All IsByte) (sym hash_is) all_bytes;
          },
        )
      where
        count : length s ≡ 2 * hash_bytes
        count = ground (arith, ==_iff (length s) (hash_bytes * 2))

        hash_is : d.hash ≡ bs
        hash_is = ground arith
    accepted e (err x) hr = absurd (ground arith)

-- A digest of 32 bytes survives its wire form.
pub deserialize-serialize : (d : Digest) → IsDigest d → deserialize (serialize d) ≡ ok d
unfolding serialize deserialize
deserialize-serialize d h = rw (parse_algorithm-algorithm_name d.algorithm) (from_hex-hex d h)

-- A wire form that `deserialize` accepts is the one that `serialize` makes of the result, and the
-- result has 32 bytes.
pub serialize-deserialize :
    (w : DigestWire) (d : Digest) → deserialize w ≡ ok d → (serialize d ≡ w) × IsDigest d
unfolding serialize deserialize
serialize-deserialize w d h = named (parse_algorithm w.algorithm) refl
  where
    named :
        (r : DigestResult DigestAlgorithm)
        → parse_algorithm w.algorithm ≡ r
        → (serialize d ≡ w) × IsDigest d
    named (ok a) ha =
        let (same_hash, same_algorithm, same_size, valid) =
          hex-from_hex a w.hash w.size_bytes d (ground arith) in
        (ground (arith, algorithm_name-parse_algorithm w.algorithm a ha), valid)
    named (err x) ha = absurd (ground arith)
