-- ===== src/Collection/Examples.antt =====
-- A store of two records, and the theorems at it.
use octa.Common.{
  ℕ, ◌≤◌, Bool, true, false, none, some, [], ◌∷◌, ◌≡◌, ◌≢◌, ◌⊎◌, inl, inr, refl, sym, ap, ◌∙◌,
  arith, nat_eq, All, Mem, insert,
}
use octa.Ledger.{to_be_bytes, from_be_bytes, read_sync, write_sync, store, reconcile}
use octa.Collection.{
  CachedFile, ActionFile, Layout, LocalCacheConfig, total_bytes, action_files, directory_bytes,
  older_than, accepted, access_time, entry_of, load_entries, insert_entry, sort_entries,
  count_references, freed_bytes, without_entry, plan, bundles, reachable_blobs, cleanup_aged_files,
  left_marker, removed_actions, sweep,
}
use octa.Collection.Pass.{
  survivors, quarantined, left_markers, planned_actions, maintain, evict, collect_locked, collect,
}
use octa.Collection.Entries.{bundle_of}
use octa.Collection.Sweep.{deleted_blob_is_unreferenced, kept_blob_has_reason}
use octa.Collection.Recency.{DistinctPaths, evicts_least_recent}

program : Unit {0}
unfolding total_bytes action_files directory_bytes older_than accepted access_time entry_of
    load_entries insert_entry sort_entries count_references freed_bytes without_entry plan bundles
    reachable_blobs cleanup_aged_files left_marker removed_actions sweep survivors quarantined
    left_markers planned_actions maintain evict collect_locked collect reconcile store read_sync
    write_sync to_be_bytes from_be_bytes insert
program = tt

abbrev file : (path size modified : ℕ) → CachedFile
file p s m = record { path = p; size = s; modified = m }

abbrev action : (path modified blob : ℕ) → ActionFile
action p m b = record {
  file = file p 10 m;
  marker = none;
  decoded = some (record { is_valid = true; is_bound = true; output_bundle = some b });
}

-- The record 1 was used last at 5, the record 2 at 7; the blob 13 has no record.
abbrev cache : Layout
cache = record {
  others = [];
  temporary = file 30 5 1 ∷ [];
  quarantine = [];
  actions = action 2 7 12 ∷ action 1 5 11 ∷ [];
  orphans = [];
  blobs = file 11 100 1 ∷ file 12 100 1 ∷ file 13 100 1 ∷ file 14 100 99 ∷ [];
}

abbrev limits : LocalCacheConfig
limits = record { high_watermark_bytes = 400; low_watermark_bytes = 350; temporary_grace = 10 }

abbrev never : ℕ → Bool
never p = false

abbrev reason : ActionFile → CachedFile
reason a = file 99 20 100

abbrev left : Layout
left = (collect_locked never reason 100 limits false cache).0

left_over : left ≡ record {
  others = [];
  temporary = [];
  quarantine = [];
  actions = action 2 7 12 ∷ [];
  orphans = [];
  blobs = file 12 100 1 ∷ file 14 100 99 ∷ [];
}
unfolding program
left_over = refl

deleted_blob_is_unreferenced_example :
    Mem (file 11 100 1) left.blobs
    ⊎ ((older_than (file 11 100 1) 100 10 ≡ true)
        × (false ≡ false)
        × All (λ a. bundle_of a ≢ some 11) left.actions)
deleted_blob_is_unreferenced_example =
    deleted_blob_is_unreferenced never reason 100 limits false cache (file 11 100 1) (inl refl)

kept_blob_has_reason_example :
    ((a : ActionFile) × Mem a left.actions × (bundle_of a ≡ some 12))
    ⊎ (older_than (file 12 100 1) 100 10 ≡ false)
    ⊎ (false ≡ true)
unfolding program
kept_blob_has_reason_example =
    kept_blob_has_reason never reason 100 limits false cache (file 12 100 1) refl (inl refl)

cache-DistinctPaths : DistinctPaths cache.actions
cache-DistinctPaths a b (inl p) (inl q) e = sym p ∙ q
cache-DistinctPaths a b (inl p) (inr (inl q)) e =
    let path = ap (λ z. z.file.path) p ∙ e ∙ sym (ap (λ z. z.file.path) q) in absurd (ground arith)
cache-DistinctPaths a b (inr (inl p)) (inl q) e =
    let path = ap (λ z. z.file.path) p ∙ e ∙ sym (ap (λ z. z.file.path) q) in absurd (ground arith)
cache-DistinctPaths a b (inr (inl p)) (inr (inl q)) e = sym p ∙ q
cache-DistinctPaths a b (inl p) (inr (inr m)) e = elim m [ ]
cache-DistinctPaths a b (inr (inl p)) (inr (inr m)) e = elim m [ ]
cache-DistinctPaths a b (inr (inr m)) _ e = elim m [ ]

away : Mem (action 1 5 11) left.actions → ⊥
unfolding program
away (inl e) = let path = ap (λ z. z.file.path) e in absurd (ground arith)
away (inr m) = elim m [ ]

evicts_least_recent_example : access_time (action 1 5 11) ≤ access_time (action 2 7 12)
unfolding program
evicts_least_recent_example =
    evicts_least_recent never reason 100 limits false cache (action 1 5 11) (action 2 7 12) _
      cache-DistinctPaths (inr (inl refl)) refl away (inl refl) refl
