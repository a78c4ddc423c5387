-- ===== src/LocalStore.antt =====
-- crates/octa-cache/src/local/mod.rs and object.rs: the local store of action records and blobs, as
-- one process uses it. `Disk` is what stands at the paths of the store, with the capacity ledger.
-- Each action on the file system takes the next answer of a script: it happens, or fails with an
-- error and without an effect; it happens when the script has ended. A temporary file has a fresh
-- name and is no part of the state, nor are locks, access markers and the quarantine.
pub mod Objects
pub mod Operations
pub mod Ends
mod Quarantine
pub mod Blobs
mod Publication
pub mod Reserved
pub mod Writes
pub mod Actions
pub mod Written
pub mod Records
mod Missing
pub mod Tier
mod Examples
use octa.Common.{
  ℕ, ◌+◌, Bool, true, false, not, ◌&&◌, ◌||◌, Option, none, some, List, [], ◌∷◌, ◌++◌, ◌==◌, Eq,
  ==_iff, nat_eq, ltb, leb, if◌then◌else◌, length, any, ◌≡◌, ◌↔◌, arith, lookup, insert, remove,
}
use octa.Text.{Str, as_bytes, str_eq, len, is_control, is_empty}
use octa.RelativePath.{max_cache_string_bytes}
use octa.Digest.{DigestAlgorithm, blake3, Digest, hex, hex_of}
use octa.BlobDescriptor.{
  BlobEncoding, BlobDescriptor, algorithm_beq, encoding_beq, encoding_beq_iff, digest_beq,
}
use octa.Ledger.{StateFile, WriteFault, u64_range}

pub data CacheError : Type 0 where
  cancelled configuration protocol limit invalid_bundle corrupt io : CacheError
  capacity_release : (primary release : CacheError) → CacheError

pub data CacheResult (A : Type 0) : Type 0 where
  ok : A → CacheResult A
  err : CacheError → CacheResult A

-- Below the layout: `actions/<namespace>/<..>/<hash>-<size>.json` and
-- `blobs/blake3/<..>/<hash>-<expanded>-<encoding>-<encoded>.blob`.
pub data CachePath : Type 0 where
  action_file : (namespace hash : Str) (size_bytes : ℕ) → CachePath
  blob_file : (hash : Str) (expanded : ℕ) (encoding : BlobEncoding) (encoded : ℕ) → CachePath

abbrev pub path_beq : CachePath → CachePath → Bool
path_beq (action_file n h s) (action_file m k t) = n == m && h == k && s == t
path_beq (action_file n h s) (blob_file k x e c) = false
path_beq (blob_file k x e c) (action_file n h s) = false
path_beq (blob_file h x e c) (blob_file k y f d) = h == k && x == y && encoding_beq e f && c == d

pub path_beq_iff : (a b : CachePath) → (path_beq a b ≡ true) ↔ (a ≡ b)
path_beq_iff (action_file n h s) (action_file m k t) =
    ground (arith, ==_iff n m, ==_iff h k, ==_iff s t)
path_beq_iff (action_file n h s) (blob_file k x e c) = ground arith
path_beq_iff (blob_file k x e c) (action_file n h s) = ground arith
path_beq_iff (blob_file h x e c) (blob_file k y f d) =
    ground (arith, ==_iff h k, ==_iff x y, encoding_beq_iff e f, ==_iff c d)

instance abbrev pub path_eq : Eq CachePath
path_eq = record { same = path_beq; same_iff = path_beq_iff }

-- A link, a directory and whatever else is no regular file are `irregular`.
pub data Entry : Type 0 where
  regular : List ℕ → Entry
  irregular : Entry

pub data Fault : Type 0 where
  happens : Fault
  fails : CacheError → Fault

pub record Disk : Type 0 where
  pub files : List (CachePath × Entry)
  pub ledger : StateFile
  pub faults : List Fault
  -- What befalls the writes of the counter; nothing when the list has ended.
  pub writes : List WriteFault

abbrev pub Io : Type 0 → Type 0
Io A = Disk → CacheResult A × Disk

module _ {A : Type 0} where
  abbrev pub pure : A → Io A
  pure a d = (ok a, d)

  abbrev pub raise : CacheError → Io A
  raise e d = (err e, d)

  abbrev pub lift : CacheResult A → Io A
  lift r d = (r, d)

  -- The result of an operation as a value.
  unfoldable pub caught : CacheResult A × Disk → CacheResult (CacheResult A) × Disk
  caught (r, d) = (ok r, d)

  abbrev pub attempt : Io A → Io (CacheResult A)
  attempt m d = caught (m d)

module _ {A B : Type 0} where
  unfoldable pub continue : CacheResult A × Disk → (A → Io B) → CacheResult B × Disk
  continue (ok a, d) k = k a d
  continue (err e, d) k = (err e, d)

  infixr 5 ◌>>=◌ ◌>>◌
  abbrev pub ◌>>=◌ : Io A → (A → Io B) → Io B
  ◌>>=◌ m k d = continue (m d) k

  abbrev pub ◌>>◌ : Io A → Io B → Io B
  m >> n = m >>= λ _. n

unfoldable pub answer : {A : Type 0} → A → Disk → List Fault → Disk → CacheResult A × Disk
answer a d [] e = (ok a, e)
answer a d (happens ∷ fs) e = (ok a, record e { faults = fs })
answer a d (fails x ∷ fs) e = (err x, record d { faults = fs })

-- An atomic change of the files.
abbrev pub act : (List (CachePath × Entry) → List (CachePath × Entry)) → Io (Unit {0})
act f d = answer tt d d.faults (record d { files = f d.files })

-- An action whose effect is no part of the state.
abbrev pub step : Io (Unit {0})
step d = answer tt d d.faults d

-- `symlink_metadata`, which tells a missing file from other errors.
abbrev pub inspect : CachePath → Io (Option Entry)
inspect p d = answer (lookup p d.files) d d.faults d

-- `let _ = ...`.
abbrev pub ignoring : Io (Unit {0}) → Io (Unit {0})
ignoring m = attempt m >> pure tt

-- `remove_file` of the temporary file.
abbrev pub discard : Io (Unit {0})
discard = ignoring step

-- `if let Err(error) = ... { discard; return Err(error) }`.
unfoldable pub discard_on_error : {A : Type 0} → CacheResult A → Io A
discard_on_error (ok a) = pure a
discard_on_error (err e) = discard >> raise e

abbrev pub or_discard : {A : Type 0} → Io A → Io A
or_discard m = attempt m >>= discard_on_error

pub record LocalCacheConfig : Type 0 where
  pub max_bytes : ℕ
  pub max_expanded_blob_bytes : ℕ
  pub max_blob_compression_ratio : ℕ
  pub high_watermark_bytes : ℕ

-- `blob_relative_path`.
unfoldable pub blob_path : BlobDescriptor → CachePath
blob_path b = blob_file (hex b.digest) b.expanded_size_bytes b.encoding b.encoded_size_bytes

-- `validate_namespace` of octa-cache-protocol.
abbrev pub is_namespace : Str → Bool
is_namespace s = not (is_empty s || ltb max_cache_string_bytes (len s) || any is_control s)

-- What the reads from a file, or from a decoder on it, give in turn.
pub data Chunks : Type 0 where
  end broken : Chunks
  chunk : List ℕ → Chunks → Chunks

-- `blake3::hash`, and the reader that `verify_encoded_blob` opens for an encoding on a file.
pub record Primitives : Type 0 where
  pub hash : List ℕ → List ℕ
  pub reader : BlobEncoding → List ℕ → Chunks

module _ (x : Primitives) where
  -- `action_path`, with `validate_action_digest` and `namespace_directory`.
  unfoldable pub action_path : Str → Digest → CacheResult CachePath
  action_path namespace action =
      if not (algorithm_beq action.algorithm blake3)
      then err configuration
      else if not (is_namespace namespace)
      then err protocol
      else ok (action_file (hex_of (x.hash (as_bytes namespace))) (hex action) action.size_bytes)

  -- The loop of `verify_encoded_blob`: the bytes seen and their number, which is a `u64`.
  unfoldable pub verify_chunks : BlobDescriptor → ℕ → List ℕ → Chunks → CacheResult (List ℕ × ℕ)
  verify_chunks b expanded seen end = ok (seen, expanded)
  verify_chunks b expanded seen broken = err invalid_bundle
  verify_chunks b expanded seen (chunk bytes more) =
      let rest = verify_chunks b (expanded + length bytes) (seen ++ bytes) more in
      if length bytes == 0
      then ok (seen, expanded)
      else if leb u64_range (expanded + length bytes)
      then err limit
      else if ltb b.expanded_size_bytes (expanded + length bytes)
      then err invalid_bundle
      else rest

  unfoldable pub check_digest : BlobDescriptor → CacheResult (List ℕ × ℕ) → CacheResult (Unit {0})
  check_digest b (err e) = err e
  check_digest b (ok (seen, expanded)) =
      if digest_beq (record { algorithm = blake3; hash = x.hash seen; size_bytes = expanded })
        b.digest
      then ok tt
      else err invalid_bundle

  -- `verify_encoded_blob`, once the file is open.
  unfoldable pub verify_encoded_blob : BlobDescriptor → ℕ → List ℕ → CacheResult (Unit {0})
  verify_encoded_blob b max_expanded_bytes content =
      if ltb max_expanded_bytes b.expanded_size_bytes
      then err limit
      else if not (length content == b.encoded_size_bytes)
      then err invalid_bundle
      else check_digest b (verify_chunks b 0 [] (x.reader b.encoding content))
