-- ===== src/Layered.antt =====
-- crates/octa-cache/src/layered.rs: the local cache in front of one remote store.
-- An operation is the tree of its calls of the two stores: what a store answers is left to the
-- reader of the tree, so the theorems are about every behaviour of the stores. A record of an
-- action is of any type `R` with an equality; the code uses its action digest and nothing else.
pub mod Lookup
pub mod Blobs
pub mod Actions
pub mod Runs
mod Cancellation
mod Warnings
pub mod Missing
pub mod Publication
pub mod FirstWriter
mod Retention
pub mod Promotion
mod CancelSafe
mod Examples
use octa.Common.{
  ℕ, ◌≡◌, refl, Bool, true, false, not, ◌&&◌, ◌||◌, Option, none, some, List, [], ◌∷◌, arith, Eq,
  ◌==◌, ltb, if◌then◌else◌, contains, length, all, erase,
}
use octa.Text.{Str}
use octa.Digest.{Digest}
use octa.BlobDescriptor.{BlobDescriptor, blob_eq}

pub data CacheError : Type 0 where
  cancelled : CacheError
  metadata : CacheError
  -- Every other error of a store.
  failure : CacheError

pub data CacheResult (A : Type 0) : Type 0 where
  ok : A → CacheResult A
  err : CacheError → CacheResult A

pub data CacheLayer : Type 0 where
  local remote : CacheLayer

pub data WriteOutcome : Type 0 where
  written already_present conflict : WriteOutcome

pub record ActionLookup (R : Type 0) : Type 0 where
  pub result : R
  pub layer : CacheLayer

-- The bytes that a `BlobReader` yields.
abbrev pub Reader : Type 0
Reader = List ℕ

pub data Call (R : Type 0) : Type 0 where
  get_action : CacheLayer → Str → Digest → Call R
  find_missing : CacheLayer → List BlobDescriptor → Call R
  read_blob : CacheLayer → BlobDescriptor → Call R
  write_blob : CacheLayer → BlobDescriptor → Reader → Call R
  write_action : CacheLayer → Str → R → Call R
  -- The local store alone has these.
  recover_corrupt : BlobDescriptor → Call R
  quarantine : Str → R → Call R

abbrev pub Reply : {R : Type 0} → Call R → Type 0
Reply {R} (get_action l n a) = Option (ActionLookup R)
Reply (find_missing l bs) = List BlobDescriptor
Reply (read_blob l b) = Reader
Reply (write_blob l b r) = WriteOutcome
Reply (write_action l n r) = WriteOutcome
Reply (recover_corrupt b) = Option Reader
Reply (quarantine n r) = Unit {0}

-- A run of an operation: calls, and the two changes of `remote_warning_emitted`.
pub data Steps (R A : Type 0) : Type 0 where
  done : A → Steps R A
  call : (c : Call R) → (CacheResult (Reply c) → Steps R A) → Steps R A
  remote_warning : Steps R A → Steps R A
  remote_success : Steps R A → Steps R A

-- Goes on with the value of an operation that another awaits.
unfoldable pub after : {R A B : Type 0} → Steps R A → (A → Steps R B) → Steps R B
after (done a) f = f a
after (call c k) f = call c (λ r. after (k r) f)
after (remote_warning s) f = remote_warning (after s f)
after (remote_success s) f = remote_success (after s f)

-- `.await?`.
abbrev pub or_return :
    {R A B : Type 0} → (A → Steps R (CacheResult B)) → CacheResult A → Steps R (CacheResult B)
or_return f (ok a) = f a
or_return f (err e) = done (err e)

abbrev pub is_conflict : WriteOutcome → Bool
is_conflict conflict = true
is_conflict _ = false

abbrev pub is_written : WriteOutcome → Bool
is_written written = true
is_written _ = false

abbrev pub filter : {A : Type 0} → (A → Bool) → List A → List A
filter f [] = []
filter f (x ∷ xs) = if f x then x ∷ filter f xs else filter f xs

-- The members of a `BTreeSet`, each once.
abbrev pub to_set : List BlobDescriptor → List BlobDescriptor
to_set [] = []
to_set (b ∷ bs) = if contains bs b then to_set bs else b ∷ to_set bs
