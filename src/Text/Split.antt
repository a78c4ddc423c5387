-- ===== src/Text/Split.antt =====
-- Splitting and joining, and prefixes.
use octa.Common.{
  ℕ, some, List, [], ◌∷◌, ◌++◌, ◌==◌, nat_eq, ◌≡◌, refl, sym, ap, ◌∙◌, ◌↔◌, inl, inr, arith, ==_iff,
  ==_refl, Bool-cases, count, All,
}
use mathlib.Core.List.{append_assoc}
use octa.Text.{Str, strip_prefix, split, join, push_front}

pub strip_prefix-append : (p s : Str) → strip_prefix p (p ++ s) ≡ some s
unfolding strip_prefix
strip_prefix-append [] s = refl
strip_prefix-append (c ∷ p) s = rw (==_refl c) (strip_prefix-append p s)

pub strip_prefix_self : (p : Str) → strip_prefix p p ≡ some []
unfolding strip_prefix
strip_prefix_self [] = refl
strip_prefix_self (c ∷ p) = rw (==_refl c) (strip_prefix_self p)

pub strip_prefix-eq_some : (p s t : Str) → strip_prefix p s ≡ some t → s ≡ p ++ t
unfolding strip_prefix
strip_prefix-eq_some [] s t h = ground arith
strip_prefix-eq_some (c ∷ p) [] t h = cc
strip_prefix-eq_some (c ∷ p) (d ∷ s) t h = ground (arith, strip_prefix-eq_some p s t, ==_iff c d)

pub split-cons : (sep : ℕ) (s : Str) → (p : Str) × (ps : List Str) × (split sep s ≡ p ∷ ps)
unfolding split
split-cons sep [] = ([], [], refl)
split-cons sep (c ∷ s) =
    let (p, ps, e) = split-cons sep s in
    elim (Bool-cases (c == sep)) [
      | inl at_sep ↦ ([], split sep s, rw at_sep)
      | inr other ↦ (c ∷ p, ps, rw (other, e))
    ]

join-push_front :
    (sep c : ℕ) (p : Str) (ps : List Str) → join sep (push_front c (p ∷ ps)) ≡ c ∷ join sep (p ∷ ps)
unfolding join
join-push_front sep c p [] = refl
join-push_front sep c p (q ∷ ps) = refl

pub join-split : (sep : ℕ) (s : Str) → join sep (split sep s) ≡ s
unfolding split join
join-split sep [] = refl
join-split sep (c ∷ s) =
    let (p, ps, e) = split-cons sep s in
    let ih : join sep (p ∷ ps) ≡ s = rw e at (join-split sep s) in
    elim (Bool-cases (c == sep)) [
      | inl at_sep ↦ rw (at_sep, e) (ground (arith, ih, at_sep, ==_iff c sep))
      | inr other ↦ rw (other, e) (join-push_front sep c p ps ∙ ap (λ r. c ∷ r) ih)
    ]

pub split-append : (sep : ℕ) (s t : Str) → split sep (s ++ (sep ∷ t)) ≡ split sep s ++ split sep t
unfolding split
split-append sep [] t = rw (==_refl sep)
split-append sep (c ∷ s) t =
    let (p, ps, e) = split-cons sep s in
    elim (Bool-cases (c == sep)) [
      | inl at_sep ↦ rw at_sep (ap (λ r. [] ∷ r) (split-append sep s t))
      | inr other ↦ rw (other, split-append sep s t, e)
    ]

pub join-append :
    (sep : ℕ) (p : Str) (ps : List Str) (q : Str) (qs : List Str)
    → join sep ((p ∷ ps) ++ (q ∷ qs)) ≡ join sep (p ∷ ps) ++ (sep ∷ join sep (q ∷ qs))
unfolding join
join-append sep p [] q qs = refl
join-append sep p (r ∷ ps) q qs =
    rw (join-append sep r ps q qs) (sym (append_assoc p (sep ∷ join sep (r ∷ ps)) _))

-- A part holds no separator.
abbrev pub Free : ℕ → Str → Type 0
Free sep p = count sep p ≡ 0

split-Free : (sep : ℕ) (p : Str) → Free sep p → split sep p ≡ p ∷ []
unfolding split
split-Free sep [] h = refl
split-Free sep (c ∷ p) h = rw (split-Free sep p (omega arith)) (ground (arith, h, ==_iff c sep))

-- Splitting undoes joining of parts that hold no separator.
pub split-join :
    (sep : ℕ) (p : Str) (ps : List Str)
    → All (Free sep) (p ∷ ps)
    → split sep (join sep (p ∷ ps)) ≡ p ∷ ps
unfolding join
split-join sep p [] h = split-Free sep p h.0
split-join sep p (q ∷ ps) h =
    rw (split-append sep p (join sep (q ∷ ps)), split-join sep q ps h.1, split-Free sep p h.0)

pub All-split : (sep : ℕ) (s : Str) → All (Free sep) (split sep s)
unfolding split
All-split sep [] = (refl, tt)
All-split sep (c ∷ s) =
    let (p, ps, e) = split-cons sep s in
    let ih : All (Free sep) (p ∷ ps) = rw e at (All-split sep s) in
    elim (Bool-cases (c == sep)) [
      | inl at_sep ↦ rw (at_sep, e) (refl, ih)
      | inr other ↦ rw (other, e) (ground (arith, ih.0, other), ih.1)
    ]

-- A text that goes on behind `p` and a separator is one whose parts go on behind those of `p`.
pub strip_prefix_parts :
    (sep : ℕ) (p s : Str)
    → ((t : Str) × (strip_prefix p s ≡ some (sep ∷ t)))
      ↔ ((q : Str) × (qs : List Str) × (split sep s ≡ split sep p ++ (q ∷ qs)))
strip_prefix_parts sep p s = (onto, back)
  where
    onto :
        ((t : Str) × (strip_prefix p s ≡ some (sep ∷ t)))
        → ((q : Str) × (qs : List Str) × (split sep s ≡ split sep p ++ (q ∷ qs)))
    onto (t, h) =
        let (q, qs, e) = split-cons sep t in
        (q, qs, rw (strip_prefix-eq_some p s (sep ∷ t) h, split-append sep p t, e))

    back :
        ((q : Str) × (qs : List Str) × (split sep s ≡ split sep p ++ (q ∷ qs)))
        → ((t : Str) × (strip_prefix p s ≡ some (sep ∷ t)))
    back (q, qs, h) =
        let (a, ps, e) = split-cons sep p in
        let whole : s ≡ p ++ (sep ∷ join sep (q ∷ qs)) =
          sym (join-split sep s)
          ∙ ap (join sep) (h ∙ ap (λ r. r ++ (q ∷ qs)) e)
          ∙ join-append sep a ps q qs
          ∙ ap (λ r. r ++ (sep ∷ join sep (q ∷ qs))) (ap (join sep) (sym e) ∙ join-split sep p) in
        (join sep (q ∷ qs), rw whole (strip_prefix-append p _))
