-- ===== src/Collection/Accounts.antt =====
-- The byte counter after a pass.
use octa.Common.{
  ℕ, ◌<◌, Bool, true, false, List, [], ◌∷◌, ◌≡◌, refl, sym, subst, ap, ◌∙◌, arith, leb,
  if◌then◌else◌,
}
use octa.Ledger.{WriteFault, ok, StateFile, returns, read_sync, saturating_add, u64_range}
use octa.Ledger.Operations.{reconcile_lem}
use octa.Collection.{
  CachedFile, ActionFile, Layout, LocalCacheConfig, GarbageCollection, total_bytes, directory_bytes,
}
use octa.Collection.Pass.{collect_locked, collect, threshold, maintain}

total_bytes-lt :
    (total : ℕ) (files : List CachedFile) → total < u64_range → total_bytes total files < u64_range
unfolding total_bytes
total_bytes-lt total [] h = h
total_bytes-lt total (f ∷ fs) h = total_bytes-lt (saturating_add total f.size) fs (ground arith)

directory_bytes-lt : (l : Layout) → directory_bytes l < u64_range
unfolding directory_bytes
directory_bytes-lt l = total_bytes-lt 0 _ (omega arith)

module _ (refused : ℕ → Bool) (reason : ActionFile → CachedFile) (now : ℕ) (c : LocalCacheConfig)
    (force : Bool) (l : Layout) where
  bytes_after_lem :
      (collect_locked refused reason now c force l).1.bytes_after
      ≡ directory_bytes (collect_locked refused reason now c force l).0
  unfolding collect_locked
  bytes_after_lem =
      branch (leb (directory_bytes (maintain refused reason now c l)) (threshold force c)) _ _ refl
        refl
    where
      branch :
          (b : Bool) (x y : Layout × GarbageCollection)
          → x.1.bytes_after ≡ directory_bytes x.0
          → y.1.bytes_after ≡ directory_bytes y.0
          → (if b then x else y).1.bytes_after ≡ directory_bytes (if b then x else y).0
      branch true x y p q = p
      branch false x y p q = q

  -- After a collection that succeeds, the byte counter reads as the bytes that the pass has left.
  pub collect_reconciles :
      (counter after : StateFile) (fault : WriteFault)
      → (collect refused reason now c force l counter fault).1 ≡ returns tt after
      → read_sync after
        ≡ ok (directory_bytes (collect refused reason now c force l counter fault).0)
  unfolding collect
  collect_reconciles counter after fault h =
      let bytes = (collect_locked refused reason now c force l).1.bytes_after in
      reconcile_lem fault counter after bytes
        (subst (λ n. n < u64_range) (sym bytes_after_lem)
          (directory_bytes-lt (collect_locked refused reason now c force l).0))
        h
      ∙ ap ok bytes_after_lem
