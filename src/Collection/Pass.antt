-- ===== src/Collection/Pass.antt =====
-- crates/octa-cache/src/local/gc.rs: `collect_locked`, one pass under the exclusive lock.
use octa.Common.{
  ℕ, ◌+◌, ◌-◌, Bool, true, false, not, ◌&&◌, none, some, List, [], ◌∷◌, ◌++◌, leb, nat_eq,
  if◌then◌else◌, ◌≡◌, refl, length, contains, filter,
}
use octa.Ledger.{StateFile, WriteFault, Outcome, reconcile}
use octa.Collection.{
  CachedFile, ActionFile, Layout, LocalCacheConfig, GarbageCollection, ActionEntry, directory_bytes,
  accepted, load_entries, sort_entries, count_references, plan, cleanup_aged_files, left_marker,
  removed_actions, reachable_blobs, sweep,
}

abbrev pub is_accepted : ActionFile → Bool
is_accepted a = elim (accepted a) [ none ↦ false | some d ↦ true ]

abbrev pub threshold : Bool → LocalCacheConfig → ℕ
threshold force c = if force then c.low_watermark_bytes else c.high_watermark_bytes

-- The records that are still there.
unfoldable pub survivors : List ActionFile → (removed : List ℕ) → List ActionFile
survivors actions removed =
    filter (λ a. is_accepted a && not (contains removed a.file.path)) actions

-- The entries of a store in the order of their last access.
abbrev pub entries_of : Layout → List ActionEntry
entries_of l = sort_entries (load_entries l.actions)

-- The records that the pass means to evict.
unfoldable pub planned_actions : (now : ℕ) → LocalCacheConfig → Layout → List ActionEntry
planned_actions now c l =
    plan now c l.blobs (entries_of l) (directory_bytes l) (count_references (entries_of l) [])

module _ (refused : ℕ → Bool) (reason : ActionFile → CachedFile) where
  -- The records that `load_actions` moves to the quarantine, each with its reason.
  unfoldable pub quarantined : List ActionFile → List CachedFile
  quarantined [] = []
  quarantined (a ∷ rs) =
      let rest = quarantined rs in if is_accepted a then rest else a.file ∷ reason a ∷ rest

  -- The access markers of the other records that could not be deleted.
  unfoldable pub left_markers : List ActionFile → (removed : List ℕ) → List CachedFile
  left_markers [] removed = []
  left_markers (a ∷ rs) removed =
      let rest = left_markers rs removed in
      if is_accepted a && not (contains removed a.file.path)
      then rest
      else left_marker refused a.marker ++ rest

  unfoldable pub maintain : (now : ℕ) → LocalCacheConfig → Layout → Layout
  maintain now c l = record l {
    temporary = cleanup_aged_files refused l.temporary now c.temporary_grace;
    quarantine = cleanup_aged_files refused l.quarantine now c.temporary_grace;
    orphans = cleanup_aged_files refused l.orphans now c.temporary_grace;
  }

  -- What the deletions of records and blobs leave.
  unfoldable pub evict : (now : ℕ) → LocalCacheConfig → Layout → (removed : List ℕ) → Layout
  evict now c l removed = record l {
    quarantine = l.quarantine ++ quarantined l.actions;
    actions = survivors l.actions removed;
    orphans = l.orphans ++ left_markers l.actions removed;
    blobs = sweep refused l.blobs (reachable_blobs (entries_of l) removed) now c.temporary_grace;
  }

  abbrev pub maintenance_count : Layout → Layout → ℕ
  maintenance_count l m =
      length l.temporary
      - length m.temporary
      + (length l.quarantine - length m.quarantine)
      + (length l.orphans - length m.orphans)

  unfoldable pub collect_locked :
      (now : ℕ) → LocalCacheConfig → (force : Bool) → Layout → Layout × GarbageCollection
  collect_locked now c force l =
      let m = maintain now c l in
      let report : GarbageCollection = record {
        bytes_before = directory_bytes l;
        bytes_after = directory_bytes m;
        actions_removed = 0;
        blobs_removed = 0;
        maintenance_files_removed = maintenance_count l m;
      } in
      let removed = removed_actions refused (planned_actions now c m) in
      let e = evict now c m removed in
      if leb (directory_bytes m) (threshold force c) then (m, report) else (
        e,
        record report {
          bytes_after = directory_bytes e;
          actions_removed = length removed;
          blobs_removed = length m.blobs - length e.blobs;
        },
      )

  -- A pass either stops after the maintenance or also evicts.
  pub collect_cases :
      (P : Layout → Type 0) (now : ℕ) (c : LocalCacheConfig) (force : Bool) (l : Layout)
      → (leb (directory_bytes (maintain now c l)) (threshold force c) ≡ true → P (maintain now c l))
      → (leb (directory_bytes (maintain now c l)) (threshold force c) ≡ false
          → P (
              evict now c
                (maintain now c l)
                (removed_actions refused (planned_actions now c (maintain now c l)))))
      → P (collect_locked now c force l).0
  unfolding collect_locked
  collect_cases P now c force l below above =
      branch (leb (directory_bytes (maintain now c l)) (threshold force c)) _ _ below above
    where
      branch :
          (b : Bool) (x y : Layout × GarbageCollection)
          → (b ≡ true → P x.0)
          → (b ≡ false → P y.0)
          → P (if b then x else y).0
      branch true x y f g = f refl
      branch false x y f g = g refl

  -- `collect`: the pass, and the byte counter after it.
  unfoldable pub collect :
      (now : ℕ)
      → LocalCacheConfig
      → (force : Bool) → Layout
      → StateFile
      → WriteFault
      → Layout × Outcome (Unit {0})
  collect now c force l counter fault =
      let (after, report) = collect_locked now c force l in
      (after, reconcile fault counter report.bytes_after)
