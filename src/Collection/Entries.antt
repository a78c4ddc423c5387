-- ===== src/Collection/Entries.antt =====
-- The entries that a pass loads and sorts, and the blobs they refer to.
use octa.Common.{
  ℕ, Bool, true, false, Option, none, some, List, [], ◌∷◌, ◌++◌, ◌≡◌, ◌⊎◌, inl, inr, refl, sym,
  subst, ap, ◌∙◌, arith, leb, nat_eq, ==_iff, ==_refl, ◌==◌, if◌then◌else◌, contains, Mem,
  Bool-cases,
}
use octa.Collection.{
  DecodedAction, ActionFile, ActionEntry, accepted, access_time, entry_of, load_entries,
  insert_entry, sort_entries, bundles,
}

-- The blob that a record refers to.
abbrev pub bundle_of : ActionFile → Option ℕ
bundle_of a = elim (accepted a) [ none ↦ none | some d ↦ d.output_bundle ]

abbrev pub entry : ActionFile → DecodedAction → ActionEntry
entry a d = record { action = a; access = access_time a; bundle = d.output_bundle }

pub Mem-load_entries :
    (a : ActionFile) (d : DecodedAction) (rs : List ActionFile)
    → Mem a rs
    → accepted a ≡ some d
    → Mem (entry a d) (load_entries rs)
unfolding load_entries
Mem-load_entries a d [] m e = elim m [ ]
Mem-load_entries a d (r ∷ rs) (inl q) e =
    subst (λ o. Mem (entry a d) (entry_of r o ++ load_entries rs)) {x = some d} {y = accepted r}
      (sym (ap accepted q ∙ e)) (unfold entry_of in inl (ap (λ r. entry r d) q))
Mem-load_entries a d (r ∷ rs) (inr m) e = go (accepted r) (Mem-load_entries a d rs m e)
  where
    go :
        (o : Option DecodedAction)
        → Mem (entry a d) (load_entries rs)
        → Mem (entry a d) (entry_of r o ++ load_entries rs)
    go none k = unfold entry_of in k
    go (some x) k = unfold entry_of in inr k

pub Mem-of_load_entries :
    (x : ActionEntry) (rs : List ActionFile)
    → Mem x (load_entries rs)
    → (a : ActionFile) × (d : DecodedAction) × Mem a rs × (accepted a ≡ some d) × (x ≡ entry a d)
unfolding load_entries
Mem-of_load_entries x [] m = elim m [ ]
Mem-of_load_entries x (r ∷ rs) m = go (accepted r) refl m (Mem-of_load_entries x rs)
  where
    Found : List ActionFile → Type 0
    Found rs =
        (a : ActionFile) × (d : DecodedAction) × Mem a rs × (accepted a ≡ some d) × (x ≡ entry a d)

    later : Found rs → Found (r ∷ rs)
    later (a, d, n, e, q) = (a, d, inr n, e, q)

    go :
        (o : Option DecodedAction)
        → accepted r ≡ o
        → Mem x (entry_of r o ++ load_entries rs)
        → (Mem x (load_entries rs) → Found rs)
        → Found (r ∷ rs)
    go none e k rest = later (rest (unfold entry_of in k))
    go (some d) e k rest = found (unfold entry_of in k)
      where
        found : (entry r d ≡ x) ⊎ Mem x (load_entries rs) → Found (r ∷ rs)
        found (inl q) = (r, d, inl refl, e, sym q)
        found (inr n) = later (rest n)

pub Mem-insert_entry :
    (x e : ActionEntry) (es : List ActionEntry)
    → (Mem x (e ∷ es) → Mem x (insert_entry e es)) × (Mem x (insert_entry e es) → Mem x (e ∷ es))
unfolding insert_entry
Mem-insert_entry x e [] = (λ m. m, λ m. m)
Mem-insert_entry x e (f ∷ fs) = go (leb e.access f.access) (Mem-insert_entry x e fs)
  where
    Both : List ActionEntry → Type 0
    Both out = (Mem x (e ∷ f ∷ fs) → Mem x out) × (Mem x out → Mem x (e ∷ f ∷ fs))

    go :
        (b : Bool)
        → (Mem x (e ∷ fs) → Mem x (insert_entry e fs))
          × (Mem x (insert_entry e fs) → Mem x (e ∷ fs))
        → Both (if b then e ∷ f ∷ fs else f ∷ insert_entry e fs)
    go true h = (λ m. m, λ m. m)
    go false (h, k) = (
      λ m. elim m [
        | inl q ↦ inr (h (inl q))
        | inr n ↦ elim n [ inl q ↦ inl q | inr o ↦ inr (h (inr o)) ]
      ],
      λ m. elim m [
        | inl q ↦ inr (inl q)
        | inr n ↦ elim (k n) [ inl q ↦ inl q | inr o ↦ inr (inr o) ]
      ],
    )

pub Mem-sort_entries :
    (x : ActionEntry) (es : List ActionEntry) → Mem x es → Mem x (sort_entries es)
unfolding sort_entries
Mem-sort_entries x [] m = m
Mem-sort_entries x (e ∷ es) m =
    (Mem-insert_entry x e (sort_entries es)).0
      (elim m [ inl q ↦ inl q | inr n ↦ inr (Mem-sort_entries x es n) ])

pub Mem-of_sort_entries :
    (x : ActionEntry) (es : List ActionEntry) → Mem x (sort_entries es) → Mem x es
unfolding sort_entries
Mem-of_sort_entries x [] m = m
Mem-of_sort_entries x (e ∷ es) m = elim ((Mem-insert_entry x e (sort_entries es)).1 m) [
  | inl q ↦ inl q
  | inr n ↦ inr (Mem-of_sort_entries x es n)
]

pub contains-bundles :
    (x : ActionEntry) (b : ℕ) (es : List ActionEntry)
    → Mem x es
    → x.bundle ≡ some b
    → contains (bundles es) b ≡ true
unfolding bundles
contains-bundles x b [] m e = elim m [ ]
contains-bundles x b (y ∷ es) (inl q) e = ground (arith, ap (λ z. z.bundle) q, ==_refl b)
contains-bundles x b (y ∷ es) (inr m) e = ground (arith, contains-bundles x b es m e)

pub Mem-of_contains :
    (b : ℕ) (es : List ActionEntry)
    → contains (bundles es) b ≡ true
    → (x : ActionEntry) × Mem x es × (x.bundle ≡ some b)
unfolding bundles
Mem-of_contains b [] h = absurd cc
Mem-of_contains b (y ∷ es) h = go y.bundle refl h (Mem-of_contains b es)
  where
    Found : List ActionEntry → Type 0
    Found es = (x : ActionEntry) × Mem x es × (x.bundle ≡ some b)

    later : Found es → Found (y ∷ es)
    later (x, m, e) = (x, inr m, e)

    go :
        (o : Option ℕ)
        → y.bundle ≡ o
        → contains (elim o [ none ↦ bundles es | some c ↦ c ∷ bundles es ]) b ≡ true
        → (contains (bundles es) b ≡ true → Found es)
        → Found (y ∷ es)
    go none e k rest = later (rest k)
    go (some c) e k rest = elim (Bool-cases (c == b)) [
      | inl same ↦ (y, inl refl, e ∙ ap some ((==_iff c b).0 same))
      | inr other ↦ later (rest (ground (arith, other)))
    ]
