-- ===== src/Collection.antt =====
-- crates/octa-cache/src/local/gc.rs: a pass of the local store's garbage collection. A path is a
-- number. What the file system answers is in the files; `refused` are the paths whose deletion it
-- defers, and `reason` is the file that explains a quarantined record.
pub mod Pass
pub mod Entries
pub mod Sweep
pub mod Recency
pub mod Accounts
mod Examples
use octa.Common.{
  ℕ, ◌+◌, ◌-◌, Bool, true, false, not, ◌&&◌, ◌||◌, Option, none, some, List, [], ◌∷◌, ◌++◌, map,
  ◌==◌, nat_eq, ltb, leb, if◌then◌else◌, contains, lookup, insert, filter,
}
use octa.Ledger.{saturating_add}
use octa.ActionResult.{max_action_result_wire_bytes}

pub record CachedFile : Type 0 where
  pub path : ℕ
  pub size : ℕ
  pub modified : ℕ

-- What decoding an action record gives: whether it passes `ActionResultV1::validate`, whether its
-- file has the name of its digest, and the path of its blob.
pub record DecodedAction : Type 0 where
  pub is_valid : Bool
  pub is_bound : Bool
  pub output_bundle : Option ℕ

pub record ActionFile : Type 0 where
  pub file : CachedFile
  -- The access marker beside it.
  pub marker : Option CachedFile
  pub decoded : Option DecodedAction

pub record Layout : Type 0 where
  pub temporary : List CachedFile
  pub quarantine : List CachedFile
  pub actions : List ActionFile
  -- Access markers without an action record.
  pub orphans : List CachedFile
  pub blobs : List CachedFile
  -- The state and the locks of the store, and the journals of restorations.
  pub others : List CachedFile

pub record LocalCacheConfig : Type 0 where
  pub high_watermark_bytes : ℕ
  pub low_watermark_bytes : ℕ
  pub temporary_grace : ℕ

pub record GarbageCollection : Type 0 where
  pub bytes_before : ℕ
  pub bytes_after : ℕ
  pub actions_removed : ℕ
  pub blobs_removed : ℕ
  pub maintenance_files_removed : ℕ

pub record ActionEntry : Type 0 where
  pub action : ActionFile
  pub access : ℕ
  pub bundle : Option ℕ

abbrev pub optional : Option CachedFile → List CachedFile
optional none = []
optional (some f) = f ∷ []

unfoldable pub total_bytes : ℕ → List CachedFile → ℕ
total_bytes total [] = total
total_bytes total (f ∷ fs) = total_bytes (saturating_add total f.size) fs

unfoldable pub action_files : List ActionFile → List CachedFile
action_files [] = []
action_files (a ∷ rs) = (a.file ∷ optional a.marker) ++ action_files rs

unfoldable pub directory_bytes : Layout → ℕ
directory_bytes l = total_bytes 0 (
    l.temporary
    ++ (l.quarantine ++ (action_files l.actions ++ (l.orphans ++ (l.blobs ++ l.others)))))

unfoldable pub older_than : CachedFile → (now age : ℕ) → Bool
older_than f now age = leb age (now - f.modified)

-- The record's decoded form, unless `load_actions` quarantines the record.
unfoldable pub accepted : ActionFile → Option DecodedAction
accepted a =
    if ltb max_action_result_wire_bytes a.file.size
    then none
    else elim a.decoded [ none ↦ none | some d ↦ if d.is_valid && d.is_bound then some d else none ]

-- The sampled access time: that of the marker, or else of the record.
unfoldable pub access_time : ActionFile → ℕ
access_time a = elim a.marker [ none ↦ a.file.modified | some m ↦ m.modified ]

unfoldable pub entry_of : ActionFile → Option DecodedAction → List ActionEntry
entry_of a none = []
entry_of a (some d) = record { action = a; access = access_time a; bundle = d.output_bundle } ∷ []

unfoldable pub load_entries : List ActionFile → List ActionEntry
load_entries [] = []
load_entries (a ∷ rs) = entry_of a (accepted a) ++ load_entries rs

-- `sort_by_key` is stable.
unfoldable pub insert_entry : ActionEntry → List ActionEntry → List ActionEntry
insert_entry e [] = e ∷ []
insert_entry e (f ∷ fs) =
    let rest = insert_entry e fs in if leb e.access f.access then e ∷ f ∷ fs else f ∷ rest

unfoldable pub sort_entries : List ActionEntry → List ActionEntry
sort_entries [] = []
sort_entries (e ∷ es) = insert_entry e (sort_entries es)

abbrev pub or_zero : Option ℕ → ℕ
or_zero none = 0
or_zero (some n) = n

-- How many entries refer to each blob.
unfoldable pub count_references : List ActionEntry → List (ℕ × ℕ) → List (ℕ × ℕ)
count_references [] references = references
count_references (e ∷ es) references = elim e.bundle [
  | none ↦ count_references es references
  | some b ↦ count_references es (insert b (or_zero (lookup b references) + 1) references)
]

abbrev pub find : ℕ → List CachedFile → Option CachedFile
find p [] = none
find p (f ∷ fs) = let rest = find p fs in if f.path == p then some f else rest

abbrev pub size_if_present : Option CachedFile → ℕ
size_if_present none = 0
size_if_present (some f) = f.size

-- The bytes that go with the last reference to an old blob.
unfoldable pub freed_bytes : (now grace remaining : ℕ) → Option CachedFile → ℕ
freed_bytes now grace remaining none = 0
freed_bytes now grace remaining (some f) =
    if remaining == 0 && older_than f now grace then f.size else 0

-- One step of the planning loop: the projected bytes and the references without the entry.
unfoldable pub without_entry :
    (now : ℕ)
    → LocalCacheConfig
    → List CachedFile
    → ActionEntry
    → (projected : ℕ) → List (ℕ × ℕ)
    → ℕ × List (ℕ × ℕ)
without_entry now c blobs e projected references =
    let without = projected - e.action.file.size - size_if_present e.action.marker in
    elim e.bundle [
      | none ↦ (without, references)
      | some b ↦
          let remaining = or_zero (lookup b references) - 1 in
          (
            without - freed_bytes now c.temporary_grace remaining (find b blobs),
            insert b remaining references,
          )
    ]

-- The eviction plan: the oldest entries, until the projected bytes fit the low watermark.
unfoldable pub plan :
    (now : ℕ)
    → LocalCacheConfig
    → List CachedFile
    → List ActionEntry
    → (projected : ℕ) → List (ℕ × ℕ)
    → List ActionEntry
plan now c blobs [] projected references = []
plan now c blobs (e ∷ es) projected references =
    let (p, r) = without_entry now c blobs e projected references in
    let rest = plan now c blobs es p r in
    if leb projected c.low_watermark_bytes then [] else e ∷ rest

abbrev pub paths : List ActionEntry → List ℕ
paths = map λ e. e.action.file.path

unfoldable pub bundles : List ActionEntry → List ℕ
bundles [] = []
bundles (e ∷ es) = let rest = bundles es in elim e.bundle [ none ↦ rest | some b ↦ b ∷ rest ]

unfoldable pub reachable_blobs : List ActionEntry → (removed : List ℕ) → List ℕ
reachable_blobs entries removed =
    bundles (filter (λ e. not (contains removed e.action.file.path)) entries)

module _ (refused : ℕ → Bool) where
  -- The loop of `cleanup_aged_files` and of `cleanup_orphan_access_markers`: the files that stay.
  unfoldable pub cleanup_aged_files : List CachedFile → (now grace : ℕ) → List CachedFile
  cleanup_aged_files files now grace =
      filter (λ f. not (older_than f now grace && not (refused f.path))) files

  -- `remove_file_retry_later` of a marker.
  unfoldable pub left_marker : Option CachedFile → List CachedFile
  left_marker none = []
  left_marker (some m) = if refused m.path then m ∷ [] else []

  -- `removed_actions`: the planned records that could be deleted.
  unfoldable pub removed_actions : List ActionEntry → List ℕ
  removed_actions planned = filter (λ p. not (refused p)) (paths planned)

  unfoldable pub sweep : List CachedFile → (reachable : List ℕ) → (now grace : ℕ) → List CachedFile
  sweep blobs reachable now grace =
      filter (λ f. (contains reachable f.path || not (older_than f now grace)) || refused f.path)
        blobs
