-- ===== src/Finder/Descendants.antt =====
-- Which included file `find_descendant` finds, and when it finds one.
use octa.Common.{
  ℕ, zero, suc, ◌≤◌, ◌≡◌, ◌≢◌, ◌⊎◌, ◌↔◌, inl, inr, subst, refl, ap, ◌∙◌, Option, none, some, List,
  [], ◌∷◌, ◌++◌, map, arith, length, length-append, All, All-append,
}
use octa.Text.{Str, join}
use octa.Finder.{
  Octafile, Included, included_of, get_included, cuts, try_cuts, descend_from, find_descendant,
  colon,
}

-- `h` is reached from `f` by included files, whose keys join up to the segments.
pub data Leads {T : Type 0} : Octafile T → List Str → Octafile T → Type 0 where
  here : (f : Octafile T) → Leads f [] f
  into :
      (f g h : Octafile T) (first rest : List Str)
      → first ≢ []
      → get_included (included_of f) (join colon first) ≡ some g
      → Leads g rest h
      → Leads f (first ++ rest) h

All-map_lem :
    {A B : Type 0} (P : B → Type 0) (f : A → B) (xs : List A)
    → All (λ x. P (f x)) xs
    → All P (map f xs)
All-map_lem P f [] h = tt
All-map_lem P f (x ∷ xs) h = (h.0, All-map_lem P f xs h.1)

All-weaken :
    {A : Type 0} (P Q : A → Type 0) (xs : List A) → ((x : A) → P x → Q x) → All P xs → All Q xs
All-weaken P Q [] f h = tt
All-weaken P Q (x ∷ xs) f h = (f x h.0, All-weaken P Q xs f h.1)

cons_nonempty : {A : Type 0} (x : A) (xs : List A) → (x ∷ xs) ≢ []
cons_nonempty x xs h = absurd (ground arith)

All-cuts : (ns : List Str) → All (λ cut. (cut.0 ++ cut.1 ≡ ns) × (cut.0 ≢ [])) (cuts ns)
unfolding cuts
All-cuts [] = tt
All-cuts (s ∷ ns) =
    All-append (λ (cut : List Str × List Str). (cut.0 ++ cut.1 ≡ s ∷ ns) × (cut.0 ≢ []))
      (map (λ (cut : List Str × List Str). (s ∷ cut.0, cut.1)) (cuts ns)) ((s ∷ [], ns) ∷ [])
      (All-map_lem (λ (cut : List Str × List Str). (cut.0 ++ cut.1 ≡ s ∷ ns) × (cut.0 ≢ []))
        (λ (cut : List Str × List Str). (s ∷ cut.0, cut.1)) (cuts ns)
        (All-weaken (λ (cut : List Str × List Str). (cut.0 ++ cut.1 ≡ ns) × (cut.0 ≢ []))
          (λ (cut : List Str × List Str). (s ∷ (cut.0 ++ cut.1) ≡ s ∷ ns) × (s ∷ cut.0 ≢ []))
          (cuts ns) (λ cut c. (ap (λ (r : List Str). s ∷ r) c.0, cons_nonempty s cut.0))
          (All-cuts ns)))
      ((refl, cons_nonempty s []), tt)

-- Some member of the list is `x`.
abbrev Has : {A : Type 0} → A → List A → Type 0
Has x [] = ⊥
Has x (y ∷ ys) = (y ≡ x) ⊎ Has x ys

Has-append_left : {A : Type 0} (x : A) (xs ys : List A) → Has x xs → Has x (xs ++ ys)
Has-append_left x [] ys h = absurd h
Has-append_left x (z ∷ xs) ys (inl e) = inl e
Has-append_left x (z ∷ xs) ys (inr h) = inr (Has-append_left x xs ys h)

Has-append_right : {A : Type 0} (x : A) (xs ys : List A) → Has x ys → Has x (xs ++ ys)
Has-append_right x [] ys h = h
Has-append_right x (z ∷ xs) ys h = inr (Has-append_right x xs ys h)

Has-map : {A B : Type 0} (f : A → B) (x : A) (xs : List A) → Has x xs → Has (f x) (map f xs)
Has-map f x [] h = absurd h
Has-map f x (y ∷ xs) (inl e) = inl (ap f e)
Has-map f x (y ∷ xs) (inr h) = inr (Has-map f x xs h)

Has-cuts : (s : Str) (first rest : List Str) → Has (s ∷ first, rest) (cuts (s ∷ (first ++ rest)))
unfolding cuts
Has-cuts s [] rest =
    Has-append_right (s ∷ [], rest)
      (map (λ (cut : List Str × List Str). (s ∷ cut.0, cut.1)) (cuts rest)) ((s ∷ [], rest) ∷ [])
      (inl refl)
Has-cuts s (t ∷ first) rest =
    Has-append_left (s ∷ t ∷ first, rest)
      (map (λ (cut : List Str × List Str). (s ∷ cut.0, cut.1)) (cuts (t ∷ (first ++ rest))))
      ((s ∷ [], t ∷ (first ++ rest)) ∷ [])
      (Has-map (λ (cut : List Str × List Str). (s ∷ cut.0, cut.1)) (t ∷ first, rest)
        (cuts (t ∷ (first ++ rest))) (Has-cuts t first rest))

module _ {T : Type 0} where
  try_cuts-Leads :
      (descend : Octafile T → List Str → Option (Octafile T)) (f h : Octafile T) (ns : List Str)
      (cs : List (List Str × List Str))
      → ((g : Octafile T) (rest : List Str) → descend g rest ≡ some h → Leads g rest h)
      → All (λ cut. (cut.0 ++ cut.1 ≡ ns) × (cut.0 ≢ [])) cs
      → try_cuts descend (included_of f) cs ≡ some h
      → Leads f ns h
  unfolding try_cuts
  try_cuts-Leads descend f h ns [] sound good e = absurd (ground arith)
  try_cuts-Leads descend f h ns ((first, rest) ∷ cs) sound good e =
      found (get_included (included_of f) (join colon first)) refl e
        (try_cuts-Leads descend f h ns cs sound good.1)
    where
      later : Option (Octafile T)
      later = try_cuts descend (included_of f) cs

      found :
          (x : Option (Octafile T))
          → get_included (included_of f) (join colon first) ≡ x
          → elim x as (λ x. Option (Octafile T)) [
            | none ↦ later
            | some file ↦ elim (descend file rest) [ some found ↦ some found | none ↦ later ]
          ]
            ≡ some h
          → (later ≡ some h → Leads f ns h)
          → Leads f ns h
      found none hx y others = others y
      found (some g) hx y others = descended (descend g rest) refl y
        where
          descended :
              (d : Option (Octafile T))
              → descend g rest ≡ d
              → elim d as (λ x. Option (Octafile T)) [ some found ↦ some found | none ↦ later ]
                ≡ some h
              → Leads f ns h
          descended none hd z = others z
          descended (some r) hd z =
              subst (λ (m : List Str). Leads f m h) good.0.0
                (into f g h first rest good.0.1 hx (sound g rest (hd ∙ z)))

  descend_from-Leads :
      (fuel : ℕ) (f h : Octafile T) (ns : List Str) → descend_from fuel f ns ≡ some h → Leads f ns h
  unfolding descend_from
  descend_from-Leads fuel f h [] e = subst (Leads f []) (ground arith) (here f)
  descend_from-Leads zero f h (s ∷ ns) e = absurd (ground arith)
  descend_from-Leads (suc fuel) f h (s ∷ ns) e =
      try_cuts-Leads (descend_from fuel) f h (s ∷ ns) (cuts (s ∷ ns))
        (λ g rest. descend_from-Leads fuel g h rest) (All-cuts (s ∷ ns)) e

  -- A cut that leads on is enough for the loop to find something.
  try_cuts-found :
      (descend : Octafile T → List Str → Option (Octafile T)) (included : Included T)
      (g d : Octafile T) (first rest : List Str) (cs : List (List Str × List Str))
      → Has (first, rest) cs
      → get_included included (join colon first) ≡ some g
      → descend g rest ≡ some d
      → (h : Octafile T) × (try_cuts descend included cs ≡ some h)
  unfolding try_cuts
  try_cuts-found descend included g d first rest [] has hg hd = absurd has
  try_cuts-found descend included g d first rest ((p, q) ∷ cs) has hg hd =
      member has (try_cuts-found descend included g d first rest cs)
    where
      later : Option (Octafile T)
      later = try_cuts descend included cs

      tried : List Str × List Str → Option (Octafile T)
      tried c = elim (get_included included (join colon c.0)) [
        | none ↦ later
        | some file ↦ elim (descend file c.1) [ some found ↦ some found | none ↦ later ]
      ]

      either :
          (x : Option (Octafile T))
          → (h : Octafile T) × (later ≡ some h)
          → (h : Octafile T) × (elim x as (λ x. Option (Octafile T)) [
            | none ↦ later
            | some file ↦ elim (descend file q) [ some found ↦ some found | none ↦ later ]
          ]
              ≡ some h)
      either none l = l
      either (some file) l = descended (descend file q)
        where
          descended :
              (y : Option (Octafile T))
              → (h : Octafile T) × (elim y as (λ x. Option (Octafile T)) [
                | some found ↦ some found
                | none ↦ later
              ]
                  ≡ some h)
          descended none = l
          descended (some r) = (r, refl)

      member :
          Has {A = List Str × List Str} (first, rest) ((p, q) ∷ cs)
          → (Has (first, rest) cs
              → get_included included (join colon first) ≡ some g
              → descend g rest ≡ some d
              → (h : Octafile T) × (later ≡ some h))
          → (h : Octafile T) × (tried (p, q) ≡ some h)
      member (inl e) ih = (
        d,
        ap tried e
            ∙ (ap
                  (λ (x : Option (Octafile T)). elim x as (λ x. Option (Octafile T)) [
                    | none ↦ later
                    | some file ↦ elim (descend file rest) [
                      | some found ↦ some found
                      | none ↦ later
                    ]
                  ])
                  hg
                ∙ ap
                    (λ (y : Option (Octafile T)). elim y as (λ x. Option (Octafile T)) [
                      | some found ↦ some found
                      | none ↦ later
                    ])
                    hd),
      )
      member (inr h) ih = either (get_included included (join colon p)) (ih h hg hd)

  Leads-found :
      (fuel : ℕ) (f h : Octafile T) (ns : List Str)
      → Leads f ns h
      → length ns ≤ fuel
      → (g : Octafile T) × (descend_from fuel f ns ≡ some g)
  unfolding descend_from
  Leads-found fuel _ _ _ (here f) less = (f, refl)
  Leads-found fuel _ _ _ (into f g h [] rest nonempty hg l) less = absurd (nonempty refl)
  Leads-found zero _ _ _ (into f g h (s ∷ first) rest nonempty hg l) less = absurd (omega arith)
  Leads-found (suc fuel) _ _ _ (into f g h (s ∷ first) rest nonempty hg l) less =
      let (d, hd) = Leads-found fuel g h rest l (omega (arith, length-append first rest)) in
      try_cuts-found (descend_from fuel) (included_of f) g d (s ∷ first) rest
        (cuts (s ∷ (first ++ rest))) (Has-cuts s first rest) hg hd

  -- What `find_descendant` finds is reached by included files whose keys join up to the namespace.
  pub find_descendant-Leads :
      (f h : Octafile T) (namespace : List Str)
      → find_descendant f namespace ≡ some h
      → Leads f namespace h
  unfolding find_descendant
  find_descendant-Leads f h namespace e = descend_from-Leads (length namespace) f h namespace e

  -- `find_descendant` finds nothing exactly when no included file is reached by keys that join up to
  -- the namespace: its search of the ways to cut the namespace is complete, and its fuel is enough.
  pub find_descendant-none_iff :
      (f : Octafile T) (namespace : List Str)
      → (find_descendant f namespace ≡ none) ↔ ((h : Octafile T) → ¬ Leads f namespace h)
  unfolding find_descendant
  find_descendant-none_iff f namespace = (
    λ e h l.
        let (g, found) = Leads-found (length namespace) f h namespace l (omega arith) in
        absurd (ground (arith, e, found)),
    λ never. none_left never (descend_from (length namespace) f namespace) refl,
  )
    where
      none_left :
          ((h : Octafile T) → ¬ Leads f namespace h)
          → (x : Option (Octafile T)) → descend_from (length namespace) f namespace ≡ x
          → x ≡ none
      none_left never none e = refl
      none_left never (some h) e =
          absurd (never h (descend_from-Leads (length namespace) f h namespace e))
