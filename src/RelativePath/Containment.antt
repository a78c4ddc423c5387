-- ===== src/RelativePath/Containment.antt =====
-- `is_within` compares texts; it means containment of the lists of names, and orders the paths.
use octa.Common.{
  true, Option, none, some, List, [], ◌∷◌, ◌++◌, ◌==◌, nat_eq, ◌≡◌, ◌↔◌, ◌⊎◌, inl, inr, sym, ap,
  ◌∙◌, arith, ==_iff, Bool-cases,
}
use mathlib.Core.List.{append-nil, append_assoc}
use octa.Text.{Str, str_eq, strip_prefix, split, join}
use octa.Text.Split.{split-cons, join-split, strip_prefix_parts}
use octa.RelativePath.{RelativePath, slash, dot, is_root, is_slash_suffix, is_within}

abbrev pub parts : RelativePath → List Str
parts p = split slash p.text

-- The names of `p` go on from those of `r`.
abbrev pub GoesOn : RelativePath → RelativePath → Type 0
GoesOn p r = (rest : List Str) × (parts p ≡ parts r ++ rest)

slash_suffix : (o : Option Str) → (is_slash_suffix o ≡ true) ↔ ((t : Str) × (o ≡ some (slash ∷ t)))
slash_suffix none = (λ h. cc, λ (t, e). cc)
slash_suffix (some []) = (λ h. cc, λ (t, e). cc)
slash_suffix (some (c ∷ s)) =
    (λ h. (s, ground (arith, h, ==_iff c slash)), λ (t, e). ground (arith, e, ==_iff c slash))

pub GoesOn-cases :
    (p r : RelativePath)
    → GoesOn p r ↔ ((p.text ≡ r.text) ⊎ (is_slash_suffix (strip_prefix r.text p.text) ≡ true))
GoesOn-cases p r = (onto, back)
  where
    onto : GoesOn p r → (p.text ≡ r.text) ⊎ (is_slash_suffix (strip_prefix r.text p.text) ≡ true)
    onto ([], e) = inl (
        sym (join-split slash p.text)
        ∙ ap (join slash) (e ∙ append-nil _)
        ∙ join-split slash r.text)
    onto (q ∷ qs, e) =
        inr ((slash_suffix _).1 ((strip_prefix_parts slash r.text p.text).1 (q, qs, e)))

    back : (p.text ≡ r.text) ⊎ (is_slash_suffix (strip_prefix r.text p.text) ≡ true) → GoesOn p r
    back (inl e) = ([], rw e (sym (append-nil _)))
    back (inr h) =
        let (q, qs, e) = (strip_prefix_parts slash r.text p.text).0 ((slash_suffix _).0 h) in
        (q ∷ qs, e)

-- Containment of texts is containment of lists of names: `p` is within `r` exactly when `r` is the
-- root or the names of `r` are the first names of `p`.
pub is_within_iff : (p r : RelativePath) → (is_within p r ≡ true) ↔ ((r.text ≡ dot) ⊎ GoesOn p r)
unfolding is_within is_root
is_within_iff p r = (
  λ h. elim (Bool-cases (r.text == dot)) [
    | inl at_root ↦ inl ((==_iff r.text dot).0 at_root)
    | inr other ↦ elim (Bool-cases (p.text == r.text)) [
      | inl same ↦ inr ((GoesOn-cases p r).1 (inl ((==_iff p.text r.text).0 same)))
      | inr differ ↦ inr ((GoesOn-cases p r).1 (inr (ground (arith, h, other, differ))))
    ]
  ],
  λ h. elim h [
    | inl at_root ↦ ground (arith, (==_iff r.text dot).1 at_root)
    | inr on ↦ elim ((GoesOn-cases p r).0 on) [
      | inl same ↦ ground (arith, (==_iff p.text r.text).1 same)
      | inr suffix ↦ ground (arith, suffix)
    ]
  ],
)

GoesOn-trans : (p q r : RelativePath) → GoesOn p q → GoesOn q r → GoesOn p r
GoesOn-trans p q r (a, e) (b, f) = (b ++ a, e ∙ ap (λ x. x ++ a) f ∙ append_assoc (parts r) b a)

-- The root goes on from itself alone.
GoesOn-from_dot : (q r : RelativePath) → q.text ≡ dot → GoesOn q r → r.text ≡ dot
unfolding split join
GoesOn-from_dot q r at_root (rest, e) =
    let (p, ps, f) = split-cons slash r.text in
    let one : dot ∷ [] ≡ (p ∷ ps) ++ rest =
      ap (split slash) (sym at_root) ∙ e ∙ ap (λ x. x ++ rest) f in
    only p ps f one
  where
    only :
        (p : Str) (ps : List Str)
        → split slash r.text ≡ p ∷ ps
        → dot ∷ [] ≡ (p ∷ ps) ++ rest
        → r.text ≡ dot
    only p [] f one = sym (join-split slash r.text) ∙ ap (join slash) f ∙ cc
    only p (x ∷ xs) f one = cc

-- Containment is transitive.
pub is_within_trans :
    (p q r : RelativePath) → is_within p q ≡ true → is_within q r ≡ true → is_within p r ≡ true
is_within_trans p q r h k = elim ((is_within_iff q r).0 k) [
  | inl at_root ↦ (is_within_iff p r).1 (inl at_root)
  | inr on ↦ elim ((is_within_iff p q).0 h) [
    | inl q_root ↦ (is_within_iff p r).1 (inl (GoesOn-from_dot q r q_root on))
    | inr on' ↦ (is_within_iff p r).1 (inr (GoesOn-trans p q r on' on))
  ]
]
