-- ===== src/RelativePath/Validity.antt =====
-- Which texts are paths.
use octa.Common.{
  ℕ, ◌≤◌, Bool, false, List, [], ◌∷◌, ◌++◌, ◌==◌, any, nat_eq, ◌≡◌, ◌≢◌, ◌↔◌, ◌⊎◌, inl, inr, refl,
  sym, ap, ◌∙◌, arith, All, ==_iff, Bool-cases, subst, any-false, any-false_of_All, All-append,
  All-append_left, All-append_right, All-map, All-zip,
}
use octa.Text.{Str, len, is_control, is_empty, str_eq, str_beq_iff, starts_with_char, split, join}
use octa.Text.Split.{Free, split-cons, join-split, split-join, All-split}
use octa.RelativePath.{
  ok, max_cache_string_bytes, slash, dot, dot_dot, is_bad_part, is_backslash_or_colon, validate,
}

-- A character that may stand in a name of a path.
abbrev pub IsPortable : ℕ → Type 0
IsPortable c = (is_backslash_or_colon c ≡ false) × (is_control c ≡ false)

-- A file name: not empty, not `.` or `..`, no separator, portable characters only.
abbrev pub IsName : Str → Type 0
IsName p = (p ≢ []) × (p ≢ dot) × (p ≢ dot_dot) × Free slash p × All IsPortable p

-- What a path is meant to be: the root, or names joined by slashes, within the size limit.
pub record IsPath (value : Str) : Type 0 where
  pub size : len value ≤ max_cache_string_bytes
  pub form :
      (value ≡ dot)
      ⊎ ((p : Str) × (ps : List Str) × (value ≡ join slash (p ∷ ps)) × All IsName (p ∷ ps))

-- What holds of the characters of a joined text holds of those of its parts, and back.
All-parts :
    (P : ℕ → Type 0) (sep : ℕ) (p : Str) (ps : List Str)
    → All P (join sep (p ∷ ps))
    → All (All P) (p ∷ ps)
unfolding join
All-parts P sep p [] h = (h, tt)
All-parts P sep p (q ∷ ps) h = (
  All-append_left P p (sep ∷ join sep (q ∷ ps)) h,
  All-parts P sep q ps (All-append_right P p (sep ∷ join sep (q ∷ ps)) h).1,
)

All-join :
    (P : ℕ → Type 0) (sep : ℕ) (p : Str) (ps : List Str)
    → P sep
    → All (All P) (p ∷ ps)
    → All P (join sep (p ∷ ps))
unfolding join
All-join P sep p [] hs h = h.0
All-join P sep p (q ∷ ps) hs h =
    All-append P p (sep ∷ join sep (q ∷ ps)) h.0 (hs, All-join P sep q ps hs h.1)

is_bad_part-false : (p : Str) → is_bad_part p ≡ false → (p ≢ []) × (p ≢ dot) × (p ≢ dot_dot)
is_bad_part-false p h = (
  λ e. ground (arith, h, e),
  λ e. ground (arith, h, str_beq_iff p dot, e),
  λ e. ground (arith, h, str_beq_iff p dot_dot, e),
)

is_bad_part-name : (p : Str) → IsName p → is_bad_part p ≡ false
is_bad_part-name [] n = absurd (n.0 refl)
is_bad_part-name (c ∷ p) n =
    ground (arith, str_beq_iff (c ∷ p) dot, str_beq_iff (c ∷ p) dot_dot, n.1, n.2)

IsName-of_parts :
    (p : Str)
    → (is_bad_part p ≡ false)
      × (Free slash p
          × (All (λ c. is_backslash_or_colon c ≡ false) p × All (λ c. is_control c ≡ false) p))
    → IsName p
IsName-of_parts p h =
    let n = is_bad_part-false p h.0 in (n.0, n.1, n.2, h.1.0, All-zip _ _ p h.1.1.0 h.1.1.1)

validate-IsPath : (value : Str) → validate value ≡ ok tt → IsPath value
unfolding validate
validate-IsPath value h = record {
  size = ground (arith, h);
  form = elim (Bool-cases (value == dot)) [
    | inl at_root ↦ inl ((==_iff value dot).0 at_root)
    | inr other ↦
        let (p, ps, e) = split-cons slash value in
        let whole : value ≡ join slash (p ∷ ps) =
          sym (join-split slash value) ∙ ap (join slash) e in
        let portable : any is_backslash_or_colon value ≡ false = ground (arith, h, other) in
        let printable : any is_control value ≡ false = ground (arith, h, other) in
        let normal : any is_bad_part (split slash value) ≡ false = ground (arith, h, other) in
        inr (
          p,
          ps,
          whole,
          All-map _ IsName (p ∷ ps) IsName-of_parts (
              All-zip _ _ (p ∷ ps) (any-false is_bad_part (p ∷ ps) (rw e at normal)) (
                All-zip _ _ (p ∷ ps) (rw e at (All-split slash value)) (
                  All-zip _ _ (p ∷ ps)
                    (All-parts _ slash p ps (
                      any-false is_backslash_or_colon _
                        (subst (λ v. any is_backslash_or_colon v ≡ false) whole portable)))
                    (All-parts _ slash p ps (
                      any-false is_control _
                        (subst (λ v. any is_control v ≡ false) whole printable)))))),
        )
  ];
}

join-head :
    (c : ℕ) (p : Str) (ps : List Str) → (rest : Str) × (join slash ((c ∷ p) ∷ ps) ≡ c ∷ rest)
unfolding join
join-head c p [] = (p, refl)
join-head c p (q ∷ ps) = (p ++ (slash ∷ join slash (q ∷ ps)), refl)

accepted :
    (value : Str)
    → is_empty value ≡ false
    → len value ≤ max_cache_string_bytes
    → starts_with_char slash value ≡ false
    → any is_backslash_or_colon value ≡ false
    → any is_control value ≡ false
    → any is_bad_part (split slash value) ≡ false
    → validate value ≡ ok tt
unfolding validate
accepted value filled size relative portable printable normal = ground arith

-- No character of joined names fails a test that no portable character and no slash meets.
portable_join :
    (test : ℕ → Bool) (p : Str) (ps : List Str)
    → ((c : ℕ) → IsPortable c → test c ≡ false)
    → IsPortable slash
    → All IsName (p ∷ ps)
    → any test (join slash (p ∷ ps)) ≡ false
portable_join test p ps passes sep names = any-false_of_All test (join slash (p ∷ ps)) (
    All-map IsPortable (λ c. test c ≡ false) (join slash (p ∷ ps)) passes
      (All-join IsPortable slash p ps sep
        (All-map IsName (All IsPortable) (p ∷ ps) (λ q n. n.4) names)))

slash-IsPortable : IsPortable slash
unfolding is_control
slash-IsPortable = (refl, refl)

pub names_valid :
    (p : Str) (ps : List Str)
    → len (join slash (p ∷ ps)) ≤ max_cache_string_bytes
    → All IsName (p ∷ ps)
    → validate (join slash (p ∷ ps)) ≡ ok tt
names_valid [] ps size names = absurd (names.0.0 refl)
names_valid (c ∷ p) ps size names =
    let (rest, e) = join-head c p ps in
    accepted (join slash ((c ∷ p) ∷ ps)) (rw e) size (rw e (ground (arith, names.0.3)))
      (portable_join is_backslash_or_colon (c ∷ p) ps (λ d h. h.0) slash-IsPortable names)
      (portable_join is_control (c ∷ p) ps (λ d h. h.1) slash-IsPortable names)
      (rw
        (split-join slash (c ∷ p) ps
          (All-map IsName (Free slash) ((c ∷ p) ∷ ps) (λ q n. n.3) names))
        (any-false_of_All is_bad_part ((c ∷ p) ∷ ps)
          (All-map IsName (λ q. is_bad_part q ≡ false) ((c ∷ p) ∷ ps) is_bad_part-name names)))

pub root_valid : validate dot ≡ ok tt
unfolding validate len
root_valid = refl

-- `RelativePath::new` accepts exactly the texts that are `.`, or names joined by slashes, of at most
-- the size limit.
pub validate_iff : (value : Str) → (validate value ≡ ok tt) ↔ IsPath value
validate_iff value = (
  validate-IsPath value,
  λ h. elim h.form [
    | inl at_root ↦ subst (λ v. validate v ≡ ok tt) (sym at_root) root_valid
    | inr (p, ps, e, names) ↦
        subst (λ v. validate v ≡ ok tt) (sym e)
          (names_valid p ps (subst (λ v. len v ≤ max_cache_string_bytes) e h.size) names)
  ],
)
