-- ===== src/Collection/Sweep.antt =====
-- Which blobs a pass deletes: the old ones that no surviving record refers to.
use octa.Common.{
  ℕ, Bool, true, false, not, ◌||◌, Option, none, some, List, ◌≡◌, ◌≢◌, ◌⊎◌, inl, inr, refl, subst,
  arith, leb, nat_eq, contains, All, All-Mem, filter, Mem, Mem-filter, Mem-of_filter, Bool-cases,
}
use octa.Collection.{
  CachedFile, DecodedAction, ActionFile, Layout, LocalCacheConfig, older_than, accepted, bundles,
  reachable_blobs, sweep, directory_bytes, removed_actions,
}
use octa.Collection.Pass.{
  threshold, survivors, maintain, evict, entries_of, planned_actions, collect_cases, collect_locked,
}
use octa.Collection.Entries.{
  bundle_of, entry, Mem-load_entries, Mem-of_load_entries, Mem-sort_entries, Mem-of_sort_entries,
  contains-bundles, Mem-of_contains,
}

-- The record's entry, if the record survives the deletions.
survivor-Mem :
    (a : ActionFile) (d : DecodedAction) (l : Layout) (removed : List ℕ)
    → Mem a (survivors l.actions removed)
    → accepted a ≡ some d
    → Mem (entry a d) (filter (λ e. not (contains removed e.action.file.path)) (entries_of l))
unfolding survivors
survivor-Mem a d l removed m e =
    let (n, k) = Mem-of_filter _ a l.actions m in
    Mem-filter _ (entry a d) _ (Mem-sort_entries _ _ (Mem-load_entries a d l.actions n e))
      (ground (arith, k))

survivor-reachable :
    (a : ActionFile) (l : Layout) (removed : List ℕ) (b : ℕ)
    → Mem a (survivors l.actions removed)
    → bundle_of a ≡ some b
    → contains (reachable_blobs (entries_of l) removed) b ≡ true
unfolding reachable_blobs
survivor-reachable a l removed b m h = go (accepted a) refl h
  where
    go :
        (o : Option DecodedAction)
        → accepted a ≡ o
        → elim o [ none ↦ none | some d ↦ d.output_bundle ] ≡ some b
        → contains
            (bundles (filter (λ e. not (contains removed e.action.file.path)) (entries_of l)))
            b
          ≡ true
    go none e h = absurd cc
    go (some d) e h = contains-bundles (entry a d) b _ (survivor-Mem a d l removed m e) h

reachable-survivor :
    (l : Layout) (removed : List ℕ) (b : ℕ)
    → contains (reachable_blobs (entries_of l) removed) b ≡ true
    → (a : ActionFile) × Mem a (survivors l.actions removed) × (bundle_of a ≡ some b)
unfolding reachable_blobs survivors
reachable-survivor l removed b h =
    let (x, m, e) = Mem-of_contains b _ h in
    let (n, k) = Mem-of_filter _ x _ m in
    let (a, d, n1, e1, q) = Mem-of_load_entries x l.actions (Mem-of_sort_entries x _ n) in
    let here : not (contains removed a.file.path) ≡ true =
      subst (λ z. not (contains removed z.action.file.path) ≡ true) q k in
    let blob : d.output_bundle ≡ some b = subst (λ z. z.bundle ≡ some b) q e in
    (a, Mem-filter _ a l.actions n1 (ground (arith, e1, here)), ground (arith, e1, blob))

module _ (refused : ℕ → Bool) (reason : ActionFile → CachedFile) (now : ℕ) (c : LocalCacheConfig)
    (force : Bool) (l : Layout) where
  abbrev after : Layout
  after = (collect_locked refused reason now c force l).0

  -- What the sweep tells of a blob that it drops.
  dropped :
      (f : CachedFile) (removed : List ℕ)
      → ((contains (reachable_blobs (entries_of l) removed) f.path
            || not (older_than f now c.temporary_grace))
          || refused f.path)
        ≡ false
      → (older_than f now c.temporary_grace ≡ true)
        × (refused f.path ≡ false)
        × All (λ a. bundle_of a ≢ some f.path) (survivors l.actions removed)
  dropped f removed h = (
    ground (arith, h),
    ground (arith, h),
    All-Mem _ _ λ a m e. absurd (ground (arith, h, survivor-reachable a l removed f.path m e)),
  )

  -- A pass keeps each blob, or the blob is older than the grace period, its deletion is not refused,
  -- and no action record that survives the pass refers to it.
  pub deleted_blob_is_unreferenced :
      (f : CachedFile)
      → Mem f l.blobs
      → Mem f after.blobs
        ⊎ ((older_than f now c.temporary_grace ≡ true)
            × (refused f.path ≡ false)
            × All (λ a. bundle_of a ≢ some f.path) after.actions)
  unfolding maintain evict sweep
  deleted_blob_is_unreferenced f m =
      collect_cases refused reason
        (λ v.
          Mem f v.blobs
          ⊎ ((older_than f now c.temporary_grace ≡ true)
              × (refused f.path ≡ false)
              × All (λ a. bundle_of a ≢ some f.path) v.actions))
        now c force l (λ _. inl m)
        λ _.
          let removed =
            removed_actions refused (planned_actions now c (maintain refused reason now c l)) in
          elim (Bool-cases (
            (contains (reachable_blobs (entries_of l) removed) f.path
              || not (older_than f now c.temporary_grace))
            || refused f.path)) [
              | inl keeps ↦ inl (Mem-filter _ f l.blobs m keeps)
              | inr drops ↦ inr (dropped f removed drops)
            ]

  -- A pass beyond the threshold leaves no garbage: a blob that is left is one that a surviving record
  -- refers to, or is younger than the grace period, or its deletion was refused.
  pub kept_blob_has_reason :
      (f : CachedFile)
      → leb (directory_bytes (maintain refused reason now c l)) (threshold force c) ≡ false
      → Mem f after.blobs
      → ((a : ActionFile) × Mem a after.actions × (bundle_of a ≡ some f.path))
        ⊎ (older_than f now c.temporary_grace ≡ false)
        ⊎ (refused f.path ≡ true)
  unfolding maintain evict sweep
  kept_blob_has_reason f h =
      collect_cases refused reason (λ v. Mem f v.blobs → Reason v) now c force l (λ e. absurd cc)
        λ _ m.
          let removed =
            removed_actions refused (planned_actions now c (maintain refused reason now c l)) in
          let (_, keeps) = Mem-of_filter _ f l.blobs m in reason_of removed keeps
    where
      Reason : Layout → Type 0
      Reason v =
          ((a : ActionFile) × Mem a v.actions × (bundle_of a ≡ some f.path))
          ⊎ (older_than f now c.temporary_grace ≡ false)
          ⊎ (refused f.path ≡ true)

      reason_of :
          (removed : List ℕ)
          → ((contains (reachable_blobs (entries_of l) removed) f.path
                || not (older_than f now c.temporary_grace))
              || refused f.path)
            ≡ true
          → ((a : ActionFile) × Mem a (survivors l.actions removed) × (bundle_of a ≡ some f.path))
            ⊎ (older_than f now c.temporary_grace ≡ false)
            ⊎ (refused f.path ≡ true)
      reason_of removed keeps =
          elim (Bool-cases (contains (reachable_blobs (entries_of l) removed) f.path)) [
            | inl r ↦ inl (reachable-survivor l removed f.path r)
            | inr r ↦ elim (Bool-cases (refused f.path)) [
              | inl q ↦ inr (inr q)
              | inr q ↦ inr (inl (ground (arith, keeps, r, q)))
            ]
          ]
