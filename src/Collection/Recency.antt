-- ===== src/Collection/Recency.antt =====
-- The eviction takes the records whose last access is longest ago.
use octa.Common.{
  ℕ, ◌≤◌, Bool, true, false, not, ◌&&◌, some, List, [], ◌∷◌, ◌≡◌, ◌⊎◌, inl, inr, refl, sym, subst,
  ap, ◌∙◌, arith, leb, nat_eq, ==_iff, ◌==◌, if◌then◌else◌, contains, All, All-map, contains-filter,
  Mem, Mem-All, Mem-filter, Mem-of_filter, Bool-cases, Option-cases,
}
use octa.Collection.{
  CachedFile, DecodedAction, ActionFile, Layout, LocalCacheConfig, ActionEntry, accepted,
  access_time, insert_entry, sort_entries, load_entries, without_entry, plan, paths,
  removed_actions,
}
use octa.Collection.Pass.{
  survivors, entries_of, planned_actions, maintain, evict, collect_locked, collect_cases,
}
use octa.Collection.Entries.{
  entry, Mem-load_entries, Mem-of_load_entries, Mem-sort_entries, Mem-of_sort_entries,
}

abbrev Sorted : List ActionEntry → Type 0
Sorted [] = Unit
Sorted (e ∷ es) = All (λ f. e.access ≤ f.access) es × Sorted es

All-insert_entry :
    (n : ℕ) (e : ActionEntry) (es : List ActionEntry)
    → n ≤ e.access
    → All (λ f. n ≤ f.access) es
    → All (λ f. n ≤ f.access) (insert_entry e es)
unfolding insert_entry
All-insert_entry n e [] h k = (h, tt)
All-insert_entry n e (f ∷ fs) h k = ground (arith, All-insert_entry n e fs h k.1)

insert_entry-Sorted :
    (e : ActionEntry) (es : List ActionEntry) → Sorted es → Sorted (insert_entry e es)
unfolding insert_entry
insert_entry-Sorted e [] h = (tt, tt)
insert_entry-Sorted e (f ∷ fs) h = go (leb e.access f.access) refl (insert_entry-Sorted e fs h.1)
  where
    go :
        (b : Bool)
        → leb e.access f.access ≡ b
        → Sorted (insert_entry e fs)
        → Sorted (if b then e ∷ f ∷ fs else f ∷ insert_entry e fs)
    go true q k =
        let first : e.access ≤ f.access = ground (arith, q) in
        ((first, All-map _ _ fs (λ g l. omega (arith, l, first)) h.0), h)
    go false q k = (All-insert_entry f.access e fs (ground (arith, q)) h.0, k)

sort_entries-Sorted : (es : List ActionEntry) → Sorted (sort_entries es)
unfolding sort_entries
sort_entries-Sorted [] = tt
sort_entries-Sorted (e ∷ es) = insert_entry-Sorted e _ (sort_entries-Sorted es)

-- One entry of the plan, with what is planned after it.
recent_step :
    (b : Bool) (x : ActionEntry) (xs rest : List ActionEntry) (r e : ActionEntry)
    → All (λ f. x.access ≤ f.access) xs
    → (Mem r rest → Mem e xs → Mem e rest ⊎ (r.access ≤ e.access))
    → Mem r (if b then [] else x ∷ rest)
    → Mem e (x ∷ xs)
    → Mem e (if b then [] else x ∷ rest) ⊎ (r.access ≤ e.access)
recent_step true x xs rest r e s ih m n = elim m [ ]
recent_step false x xs rest r e s ih m (inl q) = inl (inl q)
recent_step false x xs rest r e s ih (inl q) (inr l) =
    inr (subst (λ (z : ActionEntry). z.access ≤ e.access) q (Mem-All _ xs e s l))
recent_step false x xs rest r e s ih (inr k) (inr l) = elim (ih k l) [
  | inl i ↦ inl (inr i)
  | inr i ↦ inr i
]

-- The plan is an initial part of the sorted entries.
plan-recent :
    (now : ℕ) (c : LocalCacheConfig) (blobs : List CachedFile) (es : List ActionEntry)
    (projected : ℕ) (references : List (ℕ × ℕ)) (r e : ActionEntry)
    → Sorted es
    → Mem r (plan now c blobs es projected references)
    → Mem e es
    → Mem e (plan now c blobs es projected references) ⊎ (r.access ≤ e.access)
unfolding plan
plan-recent now c blobs [] projected references r e s m n = elim n [ ]
plan-recent now c blobs (x ∷ xs) projected references r e s m n =
    let (p, q) = without_entry now c blobs x projected references in
    recent_step (leb projected c.low_watermark_bytes) x xs _ r e s.0
      (λ k l. plan-recent now c blobs xs p q r e s.1 k l) m n

plan-Mem :
    (now : ℕ) (c : LocalCacheConfig) (blobs : List CachedFile) (es : List ActionEntry)
    (projected : ℕ) (references : List (ℕ × ℕ)) (r : ActionEntry)
    → Mem r (plan now c blobs es projected references)
    → Mem r es
unfolding plan
plan-Mem now c blobs [] projected references r m = m
plan-Mem now c blobs (x ∷ xs) projected references r m =
    let (p, q) = without_entry now c blobs x projected references in
    go _ (leb projected c.low_watermark_bytes) (plan-Mem now c blobs xs p q r) m
  where
    go :
        (rest : List ActionEntry) (b : Bool)
        → (Mem r rest → Mem r xs)
        → Mem r (if b then [] else x ∷ rest)
        → Mem r (x ∷ xs)
    go rest true ih k = elim k [ ]
    go rest false ih (inl q) = inl q
    go rest false ih (inr k) = inr (ih k)

Mem-of_contains-paths :
    (p : ℕ) (es : List ActionEntry)
    → contains (paths es) p ≡ true
    → (x : ActionEntry) × Mem x es × (x.action.file.path ≡ p)
Mem-of_contains-paths p [] h = absurd cc
Mem-of_contains-paths p (x ∷ xs) h = elim (Bool-cases (x.action.file.path == p)) [
  | inl same ↦ (x, inl refl, (==_iff _ p).0 same)
  | inr other ↦
      let (y, m, e) = Mem-of_contains-paths p xs (ground (arith, h, other)) in (y, inr m, e)
]

contains-paths :
    (x : ActionEntry) (es : List ActionEntry)
    → Mem x es
    → contains (paths es) x.action.file.path ≡ true
contains-paths x [] m = elim m [ ]
contains-paths x (y ∷ es) (inl q) =
    ground (arith, ap (λ z. z.action.file.path) q, ==_iff y.action.file.path x.action.file.path)
contains-paths x (y ∷ es) (inr m) = ground (arith, contains-paths x es m)

-- Paths of records differ.
abbrev pub DistinctPaths : List ActionFile → Type 0
DistinctPaths rs = (a b : ActionFile) → Mem a rs → Mem b rs → a.file.path ≡ b.file.path → a ≡ b

left_true : (a b : Bool) → a && b ≡ true → a ≡ true
left_true a b h = ground (arith, h)

-- The entry of a planned record that is gone.
planned_entry :
    (refused : ℕ → Bool) (now : ℕ) (c : LocalCacheConfig) (l : Layout) (a : ActionFile)
    → DistinctPaths l.actions
    → Mem a l.actions
    → contains (removed_actions refused (planned_actions now c l)) a.file.path ≡ true
    → (x : ActionEntry) × Mem x (planned_actions now c l) × (x.access ≡ access_time a)
unfolding removed_actions planned_actions
planned_entry refused now c l a distinct m h =
    let known : contains (paths (planned_actions now c l)) a.file.path ≡ true =
      left_true _ _ (sym (contains-filter (λ p. not (refused p)) a.file.path _) ∙ h) in
    let (x, n, same) = Mem-of_contains-paths a.file.path _ known in
    let (a1, d1, m1, _, q) =
      Mem-of_load_entries x l.actions
        (Mem-of_sort_entries x _ (plan-Mem now c l.blobs _ _ _ x n)) in
    let path : a1.file.path ≡ a.file.path = sym (ap (λ z. z.action.file.path) q) ∙ same in
    (x, n, ap (λ z. z.access) q ∙ ap access_time (distinct a1 a m1 m path))

planned_recent :
    (now : ℕ) (c : LocalCacheConfig) (l : Layout) (r e : ActionEntry)
    → Mem r (planned_actions now c l)
    → Mem e (entries_of l)
    → Mem e (planned_actions now c l) ⊎ (r.access ≤ e.access)
unfolding planned_actions
planned_recent now c l r e =
    plan-recent now c l.blobs (entries_of l) _ _ r e (sort_entries-Sorted (load_entries l.actions))

planned_is_removed :
    (refused : ℕ → Bool) (now : ℕ) (c : LocalCacheConfig) (l : Layout) (x : ActionEntry)
    → refused x.action.file.path ≡ false
    → Mem x (planned_actions now c l)
    → contains (removed_actions refused (planned_actions now c l)) x.action.file.path ≡ true
unfolding removed_actions
planned_is_removed refused now c l x r m =
    contains-filter (λ p. not (refused p)) x.action.file.path _
    ∙ ground (arith, contains-paths x _ m, r)

evicted_before :
    (refused : ℕ → Bool) (now : ℕ) (c : LocalCacheConfig) (l : Layout) (a b : ActionFile)
    (d : DecodedAction)
    → DistinctPaths l.actions
    → Mem a l.actions
    → accepted a ≡ some d
    → refused b.file.path ≡ false
    → (Mem a (survivors l.actions (removed_actions refused (planned_actions now c l))) → ⊥)
    → Mem b (survivors l.actions (removed_actions refused (planned_actions now c l)))
    → access_time a ≤ access_time b
unfolding survivors
evicted_before refused now c l a b d distinct m e r away here =
    let removed = removed_actions refused (planned_actions now c l) in
    let (mb, kept) = Mem-of_filter _ b l.actions here in
    elim (Bool-cases (contains removed a.file.path)) [
      | inr still ↦ absurd (away (Mem-filter _ a l.actions m (ground (arith, e, still))))
      | inl taken ↦
          let (x, mx, access) = planned_entry refused now c l a distinct m taken in
          elim (Option-cases (accepted b)) [
            | inl rejected ↦ absurd (ground (arith, kept, rejected))
            | inr (db, eb) ↦
                elim (planned_recent now c l x (entry b db) mx
                  (Mem-sort_entries _ _ (Mem-load_entries b db l.actions mb eb))) [
                    | inl planned ↦ absurd (
                        ground
                          (arith, kept, planned_is_removed refused now c l (entry b db) r planned))
                    | inr before ↦ subst (λ n. n ≤ access_time b) access before
                  ]
          ]
    ]

-- A pass evicts in the order of access: when an accepted record is gone after the pass, no record
-- that is left has an earlier access, unless the deletion of the latter was refused. The paths of
-- the records differ.
pub evicts_least_recent :
    (refused : ℕ → Bool) (reason : ActionFile → CachedFile) (now : ℕ) (c : LocalCacheConfig)
    (force : Bool) (l : Layout) (a b : ActionFile) (d : DecodedAction)
    → DistinctPaths l.actions
    → Mem a l.actions
    → accepted a ≡ some d
    → let after = (collect_locked refused reason now c force l).0 in
      (Mem a after.actions → ⊥)
      → Mem b after.actions
      → refused b.file.path ≡ false
      → access_time a ≤ access_time b
unfolding maintain evict survivors
evicts_least_recent refused reason now c force l a b d distinct m e gone n r =
    collect_cases refused reason
      (λ v. (Mem a v.actions → ⊥) → Mem b v.actions → access_time a ≤ access_time b) now c force l
      (λ _ away _. absurd (away m))
      (λ _ away here.
        evicted_before refused now c (maintain refused reason now c l) a b d distinct m e r away
          here)
      gone n
