-- ===== src/Ledger.antt =====
-- crates/octa-cache/src/local/capacity.rs: the persistent byte counter of the local cache, and
-- crates/octa-cache-protocol/src/capacity.rs: its limits.
-- The state file is what the file system shows at its path; the advisory lock makes each operation
-- one step. A write can fail, or stop after it has truncated the file. Errors of reading other than a
-- missing file, and a file that changes while it is opened, are not modelled.
pub mod Bytes
pub mod Operations
mod Examples
use octa.Common.{
  ℕ, zero, suc, ◌+◌, ◌-◌, ◌*◌, ◌/◌, ◌%◌, ◌^◌, Bool, true, false, ◌||◌, List, [], ◌∷◌, ◌++◌, ◌==◌,
  nat_eq, ltb, leb, if◌then◌else◌, length,
}

abbrev pub state_bytes : ℕ
state_bytes = 8

-- `u64::MAX + 1`.
abbrev pub u64_range : ℕ
u64_range = 18446744073709551616

pub data CacheError : Type 0 where
  -- Not found.
  io : CacheError
  metadata configuration limit : CacheError

pub data CacheResult (A : Type 0) : Type 0 where
  ok : A → CacheResult A
  err : CacheError → CacheResult A

-- What stands at the path of the state file.
pub data StateFile : Type 0 where
  missing : StateFile
  -- A symbolic link or a reparse point.
  link : StateFile
  -- A directory, or another thing that is no file.
  irregular : StateFile
  regular : List ℕ → StateFile

-- `u64::to_be_bytes` and `u64::from_be_bytes`, for `k` bytes.
unfoldable pub to_be_bytes : ℕ → ℕ → List ℕ
to_be_bytes zero n = []
to_be_bytes (suc k) n = to_be_bytes k (n / 256) ++ n % 256 ∷ []

unfoldable pub from_be_bytes : ℕ → List ℕ → ℕ
from_be_bytes acc [] = acc
from_be_bytes acc (b ∷ bs) = from_be_bytes (acc * 256 + b) bs

unfoldable pub read_sync : StateFile → CacheResult ℕ
read_sync missing = err io
read_sync link = err metadata
read_sync irregular = err metadata
read_sync (regular bytes) =
    if length bytes == state_bytes then ok (from_be_bytes 0 bytes) else err metadata

-- What befalls a write of the state: nothing, an error before the file is touched, or an error after
-- the truncation, with this many bytes in the file.
pub data WriteFault : Type 0 where
  sound refused : WriteFault
  torn : ℕ → WriteFault

-- A ledger operation's result and the state file afterwards.
pub data Outcome (A : Type 0) : Type 0 where
  returns : A → StateFile → Outcome A
  fails : CacheError → StateFile → Outcome A

abbrev pub prefix : ℕ → List ℕ → List ℕ
prefix zero bs = []
prefix (suc k) [] = []
prefix (suc k) (b ∷ bs) = b ∷ prefix k bs

-- The bytes go into a new or truncated file.
unfoldable pub write_bytes : WriteFault → StateFile → List ℕ → Outcome (Unit {0})
write_bytes sound file bytes = returns tt (regular bytes)
write_bytes refused file bytes = fails io file
write_bytes (torn k) file bytes = fails io (regular (prefix k bytes))

unfoldable pub write_sync : WriteFault → StateFile → ℕ → Outcome (Unit {0})
write_sync fault link used = fails configuration link
write_sync fault irregular used = fails configuration irregular
write_sync fault missing used = write_bytes fault missing (to_be_bytes state_bytes used)
write_sync fault (regular bytes) used =
    write_bytes fault (regular bytes) (to_be_bytes state_bytes used)

-- `u64::saturating_add`.
abbrev pub saturating_add : ℕ → ℕ → ℕ
saturating_add m n = if ltb (m + n) u64_range then m + n else u64_range - 1

module _ (fault : WriteFault) where
  -- The branch of `open` for a state that cannot be read. `measured` is the result of
  -- `gc::directory_bytes`.
  unfoldable pub rebuild : StateFile → CacheResult ℕ → Outcome (Unit {0})
  rebuild irregular measured = fails configuration irregular
  rebuild missing (err e) = fails e missing
  rebuild missing (ok measured) = write_sync fault missing (saturating_add measured state_bytes)
  -- The link is removed first.
  rebuild link (err e) = fails e missing
  rebuild link (ok measured) = write_sync fault missing (saturating_add measured state_bytes)
  rebuild (regular bytes) (err e) = fails e (regular bytes)
  rebuild (regular bytes) (ok measured) =
      write_sync fault (regular bytes) (saturating_add (measured - length bytes) state_bytes)

  unfoldable pub opened : StateFile → CacheResult ℕ → CacheResult ℕ → Outcome (Unit {0})
  opened file measured (ok used) = returns tt file
  opened file measured (err e) = rebuild file measured

  -- `CapacityLedger::open`.
  unfoldable pub open_ledger : StateFile → CacheResult ℕ → Outcome (Unit {0})
  open_ledger file measured = opened file measured (read_sync file)

  unfoldable pub store : {A : Type 0} → StateFile → ℕ → A → Outcome A
  store file used value = elim (write_sync fault file used) [
    | returns u after ↦ returns value after
    | fails e after ↦ fails e after
  ]

  unfoldable pub reserve_from : StateFile → ℕ → ℕ → CacheResult ℕ → Outcome Bool
  reserve_from file bytes limit_bytes (err e) = fails e file
  reserve_from file bytes limit_bytes (ok used) =
      if leb u64_range (used + bytes)
      then fails limit file
      else if ltb limit_bytes (used + bytes)
      then returns false file
      else store file (used + bytes) true

  unfoldable pub try_reserve : StateFile → ℕ → ℕ → Outcome Bool
  try_reserve file bytes limit_bytes = reserve_from file bytes limit_bytes (read_sync file)

  unfoldable pub release_from : StateFile → ℕ → CacheResult ℕ → Outcome (Unit {0})
  release_from file bytes (err e) = fails e file
  release_from file bytes (ok used) = store file (used - bytes) tt

  unfoldable pub release : StateFile → ℕ → Outcome (Unit {0})
  release file bytes = release_from file bytes (read_sync file)

  unfoldable pub reconcile : StateFile → ℕ → Outcome (Unit {0})
  reconcile file used = store file used tt

-- `LocalCacheCapacity`.
pub record LocalCacheCapacity : Type 0 where
  pub max_bytes : ℕ
  pub high_watermark_bytes : ℕ
  pub low_watermark_bytes : ℕ

unfoldable pub validate_capacity : LocalCacheCapacity → CacheResult (Unit {0})
validate_capacity c =
    if c.low_watermark_bytes == 0
      || ltb c.high_watermark_bytes c.low_watermark_bytes
      || ltb c.max_bytes c.high_watermark_bytes
    then err configuration
    else ok tt
