-- ===== src/Ledger/Bytes.antt =====
-- The counter's eight big-endian bytes.
use octa.Common.{
  ℕ, zero, suc, ◌+◌, ◌*◌, ◌/◌, ◌%◌, ◌<◌, ◌≡◌, ◌⊎◌, inl, inr, refl, ap, subst, ◌∙◌, List, [], ◌∷◌,
  ◌++◌, arith, nat_eq, length, length-append,
}
use octa.Ledger.{
  CacheError, metadata, ok, err, StateFile, missing, link, irregular, regular, to_be_bytes,
  from_be_bytes, read_sync, WriteFault, sound, refused, torn, returns, fails, prefix, write_bytes,
  write_sync, state_bytes, u64_range,
}

-- `256 ^ k`.
abbrev range : ℕ → ℕ
range zero = 1
range (suc k) = 256 * range k

from_be_bytes-append :
    (acc b : ℕ) (xs : List ℕ) → from_be_bytes acc (xs ++ b ∷ []) ≡ from_be_bytes acc xs * 256 + b
unfolding from_be_bytes
from_be_bytes-append acc b [] = refl
from_be_bytes-append acc b (x ∷ xs) = from_be_bytes-append (acc * 256 + x) b xs

from_be_bytes-to_be_bytes : (k n : ℕ) → n < range k → from_be_bytes 0 (to_be_bytes k n) ≡ n
unfolding to_be_bytes from_be_bytes
from_be_bytes-to_be_bytes zero n h = omega arith
from_be_bytes-to_be_bytes (suc k) n h = omega (
  arith,
  from_be_bytes-append 0 (n % 256) (to_be_bytes k (n / 256)),
  from_be_bytes-to_be_bytes k (n / 256) (omega arith),
)

length-to_be_bytes : (k n : ℕ) → length (to_be_bytes k n) ≡ k
unfolding to_be_bytes
length-to_be_bytes zero n = refl
length-to_be_bytes (suc k) n =
    omega (
      arith,
      length-append (to_be_bytes k (n / 256)) (n % 256 ∷ []),
      length-to_be_bytes k (n / 256),
    )

stored_lem : (n : ℕ) → n < u64_range → read_sync (regular (to_be_bytes state_bytes n)) ≡ ok n
unfolding read_sync
stored_lem n h =
    ground (arith, length-to_be_bytes state_bytes n, from_be_bytes-to_be_bytes state_bytes n h)

-- What `write_sync` stores, `read_sync` reads back.
pub read_sync-write_sync :
    (fault : WriteFault) (file after : StateFile) (n : ℕ)
    → n < u64_range
    → write_sync fault file n ≡ returns tt after
    → read_sync after ≡ ok n
unfolding write_sync write_bytes
read_sync-write_sync fault link after n h w = absurd (ground arith)
read_sync-write_sync fault irregular after n h w = absurd (ground arith)
read_sync-write_sync sound missing after n h w = ap read_sync (ground arith) ∙ stored_lem n h
read_sync-write_sync refused missing after n h w = absurd (ground arith)
read_sync-write_sync (torn k) missing after n h w = absurd (ground arith)
read_sync-write_sync sound (regular bytes) after n h w =
    ap read_sync (ground arith) ∙ stored_lem n h
read_sync-write_sync refused (regular bytes) after n h w = absurd (ground arith)
read_sync-write_sync (torn k) (regular bytes) after n h w = absurd (ground arith)

-- A prefix that is no shorter is the whole.
prefix-whole : (k : ℕ) (bs : List ℕ) → (prefix k bs ≡ bs) ⊎ (length (prefix k bs) < length bs)
prefix-whole zero [] = inl refl
prefix-whole zero (b ∷ bs) = inr (omega arith)
prefix-whole (suc k) [] = inl refl
prefix-whole (suc k) (b ∷ bs) = elim (prefix-whole k bs) [
  | inl e ↦ inl (ap (λ (cs : List ℕ). b ∷ cs) e)
  | inr l ↦ inr (omega (arith, l))
]

-- What is in the file of a write that failed: what was there, the value, or nothing that can be read.
abbrev pub After : StateFile → ℕ → StateFile → Type 0
After file n after = (after ≡ file) ⊎ ((read_sync after ≡ ok n) ⊎ (read_sync after ≡ err metadata))

torn-After :
    (k n : ℕ) (file : StateFile)
    → n < u64_range
    → After file n (regular (prefix k (to_be_bytes state_bytes n)))
unfolding read_sync
torn-After k n file h = elim (prefix-whole k (to_be_bytes state_bytes n)) [
  | inl e ↦ inr (inl (ap (λ bs. read_sync (regular bs)) e ∙ stored_lem n h))
  | inr l ↦ inr (inr (ground (arith, l, length-to_be_bytes state_bytes n)))
]

pub write_sync-After :
    (fault : WriteFault) (file after : StateFile) (n : ℕ) (e : CacheError)
    → n < u64_range
    → write_sync fault file n ≡ fails e after
    → After file n after
unfolding write_sync write_bytes
write_sync-After fault link after n e h w = inl (ground arith)
write_sync-After fault irregular after n e h w = inl (ground arith)
write_sync-After sound missing after n e h w = absurd (ground arith)
write_sync-After refused missing after n e h w = inl (ground arith)
write_sync-After (torn k) missing after n e h w =
    subst (After missing n) (ground arith) (torn-After k n missing h)
write_sync-After sound (regular bytes) after n e h w = absurd (ground arith)
write_sync-After refused (regular bytes) after n e h w = inl (ground arith)
write_sync-After (torn k) (regular bytes) after n e h w =
    subst (After (regular bytes) n) (ground arith) (torn-After k n (regular bytes) h)
