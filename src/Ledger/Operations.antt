-- ===== src/Ledger/Operations.antt =====
-- What each operation does to the counter.
use octa.Common.{
  ℕ, ◌+◌, ◌-◌, ◌≤◌, ◌<◌, ◌≡◌, ◌↔◌, ◌⊎◌, inl, inr, refl, ap, sym, subst, ◌∙◌, Bool, true, false,
  arith, ==_iff, nat_eq, leb, ltb, if◌then◌else◌, length,
}
use octa.Ledger.{
  CacheError, limit, WriteFault, CacheResult, ok, err, StateFile, missing, link, irregular, regular,
  read_sync, write_sync, saturating_add, rebuild, opened, open_ledger, Outcome, returns, fails,
  store, reserve_from, try_reserve, release_from, release, reconcile, u64_range, state_bytes,
  LocalCacheCapacity, validate_capacity,
}
use octa.Ledger.Bytes.{read_sync-write_sync, After, write_sync-After}

module _ (fault : WriteFault) where
  store_lem :
      {A : Type 0} (file after : StateFile) (used : ℕ) (value result : A)
      → used < u64_range
      → store fault file used value ≡ returns result after
      → (result ≡ value) × (read_sync after ≡ ok used)
  unfolding store
  store_lem {A = A} file after used value result h e = written (write_sync fault file used) refl e
    where
      written :
          (x : Outcome (Unit {0}))
          → write_sync fault file used ≡ x
          → elim x as (λ x. Outcome A) [
            | returns u after ↦ returns value after
            | fails e after ↦ fails e after
          ]
            ≡ returns result after
          → (result ≡ value) × (read_sync after ≡ ok used)
      written (returns u f) hx y = (
        ground arith,
        read_sync-write_sync fault file after used h (hx ∙ ap (returns tt) (ground arith)),
      )
      written (fails x f) hx y = absurd (ground arith)

  -- A write either happens, and then the counter reads as the value, or fails.
  pub store-cases :
      {A : Type 0} (file : StateFile) (used : ℕ) (value : A)
      → used < u64_range
      → ((after : StateFile) × (store fault file used value ≡ returns value after)
          × (read_sync after ≡ ok used))
        ⊎ ((e : CacheError) × (after : StateFile) × (store fault file used value ≡ fails e after)
            × After file used after)
  unfolding store
  store-cases {A = A} file used value h = cases (write_sync fault file used) refl
    where
      cases :
          (x : Outcome (Unit {0}))
          → write_sync fault file used ≡ x
          → ((after : StateFile) × (store fault file used value ≡ returns value after)
              × (read_sync after ≡ ok used))
            ⊎ ((e : CacheError) × (after : StateFile) × (store fault file used value
                  ≡ fails e after)
                × After file used after)
      cases (returns u f) hx =
          inl (f, rw (hx, store) refl, read_sync-write_sync fault file f used h hx)
      cases (fails e f) hx =
          inr (e, f, rw (hx, store) refl, write_sync-After fault file f used e h hx)

  -- A granted reservation is counted, and the count stays within the limit.
  pub try_reserve-true :
      (file after : StateFile) (bytes limit_bytes used : ℕ)
      → read_sync file ≡ ok used
      → try_reserve fault file bytes limit_bytes ≡ returns true after
      → (used + bytes ≤ limit_bytes)
        × ((used + bytes < u64_range) × (read_sync after ≡ ok (used + bytes)))
  unfolding try_reserve reserve_from
  try_reserve-true file after bytes limit_bytes used r h =
      granted (leb u64_range (used + bytes)) (ltb limit_bytes (used + bytes)) refl refl
        (sym (ap (reserve_from fault file bytes limit_bytes) r) ∙ h)
    where
      granted :
          (a b : Bool)
          → leb u64_range (used + bytes) ≡ a
          → ltb limit_bytes (used + bytes) ≡ b
          → (if a
              then fails limit file
              else if b
              then returns false file
              else store fault file (used + bytes) true)
            ≡ returns true after
          → (used + bytes ≤ limit_bytes)
            × ((used + bytes < u64_range) × (read_sync after ≡ ok (used + bytes)))
      granted true b ha hb e = absurd (ground arith)
      granted false true ha hb e = absurd (ground arith)
      granted false false ha hb e = (
        ground arith,
        (ground arith, (store_lem file after (used + bytes) true true (ground arith) e).1),
      )

  -- A release takes the bytes off the count, and never goes below nothing.
  pub release_lem :
      (file after : StateFile) (bytes used : ℕ)
      → read_sync file ≡ ok used
      → used < u64_range
      → release fault file bytes ≡ returns tt after
      → read_sync after ≡ ok (used - bytes)
  unfolding release release_from
  release_lem file after bytes used r small h =
      (store_lem file after (used - bytes) tt tt (omega arith)
        (sym (ap (release_from fault file bytes) r) ∙ h)).1

  pub reconcile_lem :
      (file after : StateFile) (used : ℕ)
      → used < u64_range
      → reconcile fault file used ≡ returns tt after
      → read_sync after ≡ ok used
  unfolding reconcile
  reconcile_lem file after used small h = (store_lem file after used tt tt small h).1

saturating_add-small : (m n : ℕ) → saturating_add m n < u64_range
saturating_add-small m n = ground arith

rebuild-readable :
    (fault : WriteFault) (file after : StateFile) (measured : CacheResult ℕ)
    → rebuild fault file measured ≡ returns tt after
    → (used : ℕ) × (read_sync after ≡ ok used)
unfolding rebuild
rebuild-readable fault irregular after measured h = absurd (ground arith)
rebuild-readable fault missing after (err e) h = absurd (ground arith)
rebuild-readable fault link after (err e) h = absurd (ground arith)
rebuild-readable fault (regular bytes) after (err e) h = absurd (ground arith)
rebuild-readable fault missing after (ok n) h = (
  _,
  read_sync-write_sync fault missing after (saturating_add n state_bytes)
      (saturating_add-small n state_bytes) h,
)
rebuild-readable fault link after (ok n) h = (
  _,
  read_sync-write_sync fault missing after (saturating_add n state_bytes)
      (saturating_add-small n state_bytes) h,
)
rebuild-readable fault (regular bytes) after (ok n) h = (
  _,
  read_sync-write_sync fault (regular bytes) after (saturating_add (n - length bytes) state_bytes)
      (saturating_add-small (n - length bytes) state_bytes) h,
)

-- Whatever stands at the path, also what a torn write has left, an `open` that succeeds leaves a
-- counter that can be read.
pub open_ledger-readable :
    (fault : WriteFault) (file after : StateFile) (measured : CacheResult ℕ)
    → open_ledger fault file measured ≡ returns tt after
    → (used : ℕ) × (read_sync after ≡ ok used)
unfolding open_ledger opened
open_ledger-readable fault file after measured h = readable (read_sync file) refl h
  where
    readable :
        (x : CacheResult ℕ)
        → read_sync file ≡ x
        → opened fault file measured x ≡ returns tt after
        → (used : ℕ) × (read_sync after ≡ ok used)
    readable (ok used) hx e = (used, subst (λ f. read_sync f ≡ ok used) (ground arith) hx)
    readable (err x) hx e = rebuild-readable fault file after measured e

-- `validate` accepts exactly `0 < low ≤ high ≤ max`.
pub validate_capacity_iff :
    (c : LocalCacheCapacity)
    → (validate_capacity c ≡ ok tt) ↔ (
        (0 < c.low_watermark_bytes)
        × ((c.low_watermark_bytes ≤ c.high_watermark_bytes)
            × (c.high_watermark_bytes ≤ c.max_bytes)))
unfolding validate_capacity
validate_capacity_iff c = ground (arith, ==_iff c.low_watermark_bytes 0)
