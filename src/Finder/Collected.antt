-- ===== src/Finder/Collected.antt =====
-- A wildcard search finds exactly the tasks below the current file whose names match.
use octa.Common.{
  ◌≡◌, ◌∙◌, ◌⊎◌, ◌↔◌, inl, inr, refl, ap, subst, Bool, true, false, List, [], ◌∷◌, ◌++◌, arith,
  if◌then◌else◌,
}
use Prim.Native.Nat.{Ordering}
use octa.Text.{Str, split}
use octa.Text.Order.{cmp_bytes}
use octa.Finder.{
  Octafile, octafile, Included, no_more, includes, namespace_path, tasks_of, colon, FindResult,
  matches_segments,
}
use octa.Finder.Wildcards.{
  result_of, matching_tasks, collect_matching, collect_included, insert_result, sort_results,
  find_wildcard,
}

-- Some member of the list is `x`.
abbrev pub Has : {A : Type 0} → A → List A → Type 0
Has x [] = ⊥
Has x (y ∷ ys) = (y ≡ x) ⊎ Has x ys

Has-append : {A : Type 0} (x : A) (xs ys : List A) → Has x (xs ++ ys) ↔ (Has x xs ⊎ Has x ys)
Has-append x [] ys = (inr, λ h. elim h [ inl e ↦ absurd e | inr e ↦ e ])
Has-append x (z ∷ xs) ys = shift (Has-append x xs ys)
  where
    shift :
        Has x (xs ++ ys) ↔ (Has x xs ⊎ Has x ys)
        → ((z ≡ x) ⊎ Has x (xs ++ ys)) ↔ (((z ≡ x) ⊎ Has x xs) ⊎ Has x ys)
    shift h = (
      λ m. elim m [
        | inl e ↦ inl (inl e)
        | inr t ↦ elim (h.0 t) [ inl l ↦ inl (inr l) | inr r ↦ inr r ]
      ],
      λ m. elim m [
        | inl l ↦ elim l [ inl e ↦ inl e | inr t ↦ inr (h.1 (inl t)) ]
        | inr r ↦ inr (h.1 (inr r))
      ],
    )

module _ {T : Type 0} where
  pub data Includes : Octafile T → Included T → Type 0 where
    first :
        (name : Str) (file : Octafile T) (rest : Included T)
        → Includes file (includes name file rest)
    next :
        (name : Str) (other file : Octafile T) (rest : Included T)
        → Includes file rest
        → Includes file (includes name other rest)

  -- A task of the file or of one below it, whose qualified name the pattern matches.
  pub data Listed (pattern : List Str) : Octafile T → FindResult T → Type 0 where
    own :
        (file : Octafile T) (entry : Str × T)
        → Has entry (tasks_of file)
        → matches_segments pattern (namespace_path file ++ entry.0 ∷ []) ≡ true
        → Listed pattern file (result_of file entry)
    below :
        (namespace : List Str) (tasks : List (Str × T)) (included : Included T) (file : Octafile T)
        (r : FindResult T)
        → Includes file included
        → Listed pattern file r
        → Listed pattern (octafile namespace tasks included) r

  Has-matching_tasks :
      (pattern : List Str) (file : Octafile T) (tasks : List (Str × T)) (r : FindResult T)
      → Has r (matching_tasks pattern file tasks)
      → (entry : Str × T) × (Has entry tasks
          × (matches_segments pattern (namespace_path file ++ entry.0 ∷ []) ≡ true)
          × (result_of file entry ≡ r))
  unfolding matching_tasks
  Has-matching_tasks pattern file [] r h = absurd h
  Has-matching_tasks pattern file (entry ∷ tasks) r h =
      by_test (matches_segments pattern (namespace_path file ++ entry.0 ∷ [])) refl h
        (Has-matching_tasks pattern file tasks r)
    where
      by_test :
          (b : Bool)
          → matches_segments pattern (namespace_path file ++ entry.0 ∷ []) ≡ b
          → Has r (
              if b
              then result_of file entry ∷ matching_tasks pattern file tasks
              else matching_tasks pattern file tasks)
          → (Has r (matching_tasks pattern file tasks)
              → (x : Str × T) × (Has x tasks
                  × (matches_segments pattern (namespace_path file ++ x.0 ∷ []) ≡ true)
                  × (result_of file x ≡ r)))
          → (x : Str × T) × (Has x (entry ∷ tasks)
              × (matches_segments pattern (namespace_path file ++ x.0 ∷ []) ≡ true)
              × (result_of file x ≡ r))
      by_test true hb (inl e) ih = (entry, (inl refl, hb, e))
      by_test true hb (inr m) ih = let (x, (hx, mx, rx)) = ih m in (x, (inr hx, mx, rx))
      by_test false hb m ih = let (x, (hx, mx, rx)) = ih m in (x, (inr hx, mx, rx))

  matching_tasks-Has :
      (pattern : List Str) (file : Octafile T) (tasks : List (Str × T)) (entry : Str × T)
      → Has entry tasks
      → matches_segments pattern (namespace_path file ++ entry.0 ∷ []) ≡ true
      → Has (result_of file entry) (matching_tasks pattern file tasks)
  unfolding matching_tasks
  matching_tasks-Has pattern file [] entry h m = absurd h
  matching_tasks-Has pattern file (x ∷ tasks) entry (inl e) m =
      by_test (matches_segments pattern (namespace_path file ++ x.0 ∷ []))
        (ap (λ (y : Str × T). matches_segments pattern (namespace_path file ++ y.0 ∷ [])) e ∙ m)
    where
      by_test :
          (b : Bool)
          → b ≡ true
          → Has (result_of file entry) (
              if b
              then result_of file x ∷ matching_tasks pattern file tasks
              else matching_tasks pattern file tasks)
      by_test true hb = inl (ap (result_of file) e)
      by_test false hb = absurd (ground arith)
  matching_tasks-Has pattern file (x ∷ tasks) entry (inr h) m =
      by_test (matches_segments pattern (namespace_path file ++ x.0 ∷ []))
        (matching_tasks-Has pattern file tasks entry h m)
    where
      by_test :
          (b : Bool)
          → Has (result_of file entry) (matching_tasks pattern file tasks)
          → Has (result_of file entry) (
              if b
              then result_of file x ∷ matching_tasks pattern file tasks
              else matching_tasks pattern file tasks)
      by_test true k = inr k
      by_test false k = k

  own_sound :
      (pattern ns : List Str) (tasks : List (Str × T)) (inc : Included T) (r : FindResult T)
      → (entry : Str × T) × (Has entry tasks
          × (matches_segments pattern (ns ++ entry.0 ∷ []) ≡ true)
          × (result_of (octafile ns tasks inc) entry ≡ r))
      → Listed pattern (octafile ns tasks inc) r
  own_sound pattern ns tasks inc r (x, (hx, mx, rx)) =
      subst (Listed pattern (octafile ns tasks inc)) rx (own (octafile ns tasks inc) x hx mx)

  mutual
    unfolding collect_matching

    collect_sound :
        (pattern : List Str) (f : Octafile T) (r : FindResult T)
        → Has r (collect_matching pattern f)
        → Listed pattern f r
    collect_sound pattern (octafile ns tasks inc) r h =
        elim ((Has-append r (matching_tasks pattern (octafile ns tasks inc) tasks)
            (collect_included pattern inc)).0
          h) [
            | inl mine ↦
                own_sound pattern ns tasks inc r
                  (Has-matching_tasks pattern (octafile ns tasks inc) tasks r mine)
            | inr theirs ↦
                let (g, (hg, lg)) = included_sound pattern inc r theirs in
                below ns tasks inc g r hg lg
          ]

    included_sound :
        (pattern : List Str) (m : Included T) (r : FindResult T)
        → Has r (collect_included pattern m)
        → (g : Octafile T) × (Includes g m × Listed pattern g r)
    included_sound pattern no_more r h = absurd h
    included_sound pattern (includes name file rest) r h =
        elim ((Has-append r (collect_matching pattern file) (collect_included pattern rest)).0 h) [
          | inl here ↦ (file, (first name file rest, collect_sound pattern file r here))
          | inr later ↦
              let (g, (hg, lg)) = included_sound pattern rest r later in
              (g, (next name file g rest hg, lg))
        ]

  included_complete :
      (pattern : List Str) (file : Octafile T) (m : Included T) (r : FindResult T)
      → Includes file m
      → Has r (collect_matching pattern file)
      → Has r (collect_included pattern m)
  unfolding collect_matching
  included_complete pattern _ _ r (first name file rest) h =
      (Has-append r (collect_matching pattern file) (collect_included pattern rest)).1 (inl h)
  included_complete pattern _ _ r (next name other file rest i) h =
      (Has-append r (collect_matching pattern other) (collect_included pattern rest)).1
        (inr (included_complete pattern file rest r i h))

  collect_complete :
      (pattern : List Str) (f : Octafile T) (r : FindResult T)
      → Listed pattern f r
      → Has r (collect_matching pattern f)
  unfolding collect_matching
  collect_complete pattern _ _ (own (octafile ns tasks inc) entry h m) =
      (Has-append _ (matching_tasks pattern (octafile ns tasks inc) tasks)
          (collect_included pattern inc)).1
        (inl (matching_tasks-Has pattern (octafile ns tasks inc) tasks entry h m))
  collect_complete pattern _ _ (below ns tasks inc file r i l) =
      (Has-append r (matching_tasks pattern (octafile ns tasks inc) tasks)
          (collect_included pattern inc)).1
        (inr (included_complete pattern file inc r i (collect_complete pattern file r l)))

  Has-insert_result :
      (x r : FindResult T) (rs : List (FindResult T))
      → Has x (insert_result r rs) ↔ ((r ≡ x) ⊎ Has x rs)
  unfolding insert_result
  Has-insert_result x r [] = (λ m. m, λ m. m)
  Has-insert_result x r (q ∷ qs) = by_order (cmp_bytes r.name q.name) (Has-insert_result x r qs)
    where
      by_order :
          (o : Ordering)
          → Has x (insert_result r qs) ↔ ((r ≡ x) ⊎ Has x qs)
          → Has x (elim o as (λ y. List (FindResult T)) [
            | Ordering.gt ↦ q ∷ insert_result r qs
            | _ ↦ r ∷ q ∷ qs
          ])
            ↔ ((r ≡ x) ⊎ Has x (q ∷ qs))
      by_order Ordering.lt h = (λ m. m, λ m. m)
      by_order Ordering.eq h = (λ m. m, λ m. m)
      by_order Ordering.gt h = (
        λ m. elim m [
          | inl e ↦ inr (inl e)
          | inr t ↦ elim (h.0 t) [ inl a ↦ inl a | inr b ↦ inr (inr b) ]
        ],
        λ m. elim m [
          | inl e ↦ inr (h.1 (inl e))
          | inr t ↦ elim t [ inl a ↦ inl a | inr b ↦ inr (h.1 (inr b)) ]
        ],
      )

  Has-sort_results :
      (x : FindResult T) (rs : List (FindResult T)) → Has x (sort_results rs) ↔ Has x rs
  unfolding sort_results
  Has-sort_results x [] = (λ m. m, λ m. m)
  Has-sort_results x (r ∷ rs) = (
    λ m. elim ((Has-insert_result x r (sort_results rs)).0 m) [
      | inl e ↦ inl e
      | inr t ↦ inr ((Has-sort_results x rs).0 t)
    ],
    λ m.
        (Has-insert_result x r (sort_results rs)).1
          (elim m [ inl e ↦ inl e | inr t ↦ inr ((Has-sort_results x rs).1 t) ]),
  )

  -- A wildcard search from a file finds a result exactly when it is a task of that file or of one
  -- below it, under its qualified name, which the file's namespace and the path match.
  pub find_wildcard_iff :
      (current : Octafile T) (path : Str) (r : FindResult T)
      → Has r (find_wildcard current path)
        ↔ Listed (namespace_path current ++ split colon path) current r
  unfolding find_wildcard
  find_wildcard_iff current path r =
      let pattern = namespace_path current ++ split colon path in
      let sorted = Has-sort_results r (collect_matching pattern current) in
      (
        λ h. collect_sound pattern current r (sorted.0 h),
        λ l. sorted.1 (collect_complete pattern current r l),
      )
