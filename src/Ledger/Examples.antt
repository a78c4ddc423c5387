-- ===== src/Ledger/Examples.antt =====
-- A counter of 100 bytes, and the theorems at it.
use octa.Common.{ℕ, ◌≡◌, refl, true, false, [], ◌∷◌, nat_eq, erase}
use octa.Ledger.{
  err, io, metadata, sound, torn, fails, prefix, write_bytes, ok, StateFile, missing, regular,
  to_be_bytes, from_be_bytes, read_sync, write_sync, rebuild, opened, open_ledger, returns, store,
  reserve_from, try_reserve, release_from, release, reconcile, state_bytes, LocalCacheCapacity,
  validate_capacity,
}
use octa.Ledger.Operations.{open_ledger-readable}

program : Unit {0}
unfolding write_bytes to_be_bytes from_be_bytes read_sync write_sync rebuild opened open_ledger
    store reserve_from try_reserve release_from release reconcile validate_capacity erase
program = tt

abbrev counter : ℕ → StateFile
counter n = regular (to_be_bytes state_bytes n)

read_hundred : read_sync (counter 100) ≡ ok 100
unfolding program
read_hundred = refl

reserve_fifty : try_reserve sound (counter 100) 50 200 ≡ returns true (counter 150)
unfolding program
reserve_fifty = refl

refuse_fifty : try_reserve sound (counter 100) 50 149 ≡ returns false (counter 100)
unfolding program
refuse_fifty = refl

write_hundred : write_sync sound missing 100 ≡ returns tt (counter 100)
unfolding program
write_hundred = refl

-- A write that stops after the truncation leaves a counter that cannot be read.
torn_counter : read_sync (regular (prefix 3 (to_be_bytes state_bytes 150))) ≡ err metadata
unfolding program
torn_counter = refl

torn_fifty :
    try_reserve (torn 3) (counter 100) 50 200
    ≡ fails io (regular (prefix 3 (to_be_bytes state_bytes 150)))
unfolding program
torn_fifty = refl

-- A truncated counter is rebuilt from the measured bytes, without its own.
rebuilt_counter : open_ledger sound (regular (1 ∷ 2 ∷ [])) (ok 102) ≡ returns tt (counter 108)
unfolding program
rebuilt_counter = refl

abbrev sample : LocalCacheCapacity
sample = record { max_bytes = 10; high_watermark_bytes = 8; low_watermark_bytes = 5 }

open_ledger-readable_example : (used : ℕ) × (read_sync (counter 108) ≡ ok used)
open_ledger-readable_example =
    open_ledger-readable sound (regular (1 ∷ 2 ∷ [])) (counter 108) (ok 102) rebuilt_counter
