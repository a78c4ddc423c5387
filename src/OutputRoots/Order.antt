-- ===== src/OutputRoots/Order.antt =====
-- The canonical order of output roots: a total order in which a subtree stays together.
use Prim.Native.Nat.{Ordering}
use octa.Common.{◌≡◌, ◌≢◌, refl, sym, ap, ◌∙◌, subst, List, [], ◌∷◌, ◌++◌, arith}
use octa.Text.{Str, join}
use octa.Text.Split.{join-split}
use octa.Text.Order.{cmp_bytes, swap, cmp_bytes_refl, cmp_bytes-eq, cmp_bytes-swap, cmp_bytes_trans}
use octa.RelativePath.{RelativePath, slash}
use octa.RelativePath.Containment.{parts, GoesOn}
use octa.OutputRoots.{cmp_parts, compare_paths}

cmp_parts_refl : (s : List Str) → cmp_parts s s ≡ Ordering.eq
unfolding cmp_parts
cmp_parts_refl [] = refl
cmp_parts_refl (c ∷ s) = rw (cmp_bytes_refl c, cmp_parts) (cmp_parts_refl s)

cmp_parts-eq : (s t : List Str) → cmp_parts s t ≡ Ordering.eq → s ≡ t
unfolding cmp_parts
cmp_parts-eq [] [] h = refl
cmp_parts-eq [] (d ∷ t) h = cc
cmp_parts-eq (c ∷ s) [] h = cc
cmp_parts-eq (c ∷ s) (d ∷ t) h = ground (arith, cmp_parts-eq s t, cmp_bytes-eq c d)

cmp_parts-swap : (s t : List Str) → cmp_parts t s ≡ swap (cmp_parts s t)
unfolding cmp_parts
cmp_parts-swap [] [] = refl
cmp_parts-swap [] (d ∷ t) = refl
cmp_parts-swap (c ∷ s) [] = refl
cmp_parts-swap (c ∷ s) (d ∷ t) = ground (arith, cmp_parts-swap s t, cmp_bytes-swap c d)

cmp_parts_trans :
    (s t u : List Str)
    → cmp_parts s t ≡ Ordering.lt
    → cmp_parts t u ≡ Ordering.lt
    → cmp_parts s u ≡ Ordering.lt
unfolding cmp_parts
cmp_parts_trans [] [] u h k = cc
cmp_parts_trans [] (d ∷ t) [] h k = cc
cmp_parts_trans [] (d ∷ t) (e ∷ u) h k = refl
cmp_parts_trans (c ∷ s) [] u h k = cc
cmp_parts_trans (c ∷ s) (d ∷ t) [] h k = cc
cmp_parts_trans (c ∷ s) (d ∷ t) (e ∷ u) h k = ground (
  arith,
  cmp_parts_trans s t u,
  cmp_bytes_trans c d e,
  cmp_bytes-eq c d,
  cmp_bytes-eq d e,
  cmp_bytes_refl c,
)

-- `q` does not come before `p`.
abbrev pub PathLe : RelativePath → RelativePath → Type 0
PathLe p q = compare_paths p q ≢ Ordering.gt

pub compare_paths-eq : (p q : RelativePath) → compare_paths p q ≡ Ordering.eq → p.text ≡ q.text
unfolding compare_paths
compare_paths-eq p q h =
    sym (join-split slash p.text)
    ∙ ap (join slash) (cmp_parts-eq (parts p) (parts q) h)
    ∙ join-split slash q.text

pub compare_paths-swap : (p q : RelativePath) → compare_paths q p ≡ swap (compare_paths p q)
unfolding compare_paths
compare_paths-swap p q = cmp_parts-swap (parts p) (parts q)

pub compare_paths_refl : (p : RelativePath) → compare_paths p p ≡ Ordering.eq
unfolding compare_paths
compare_paths_refl p = cmp_parts_refl (parts p)

pub PathLe-trans : (p q r : RelativePath) → PathLe p q → PathLe q r → PathLe p r
unfolding compare_paths
PathLe-trans p q r h k = ground (
  arith,
  cmp_parts_trans (parts p) (parts q) (parts r),
  cmp_parts-eq (parts p) (parts q),
  cmp_parts-eq (parts q) (parts r),
)

-- An ancestor comes before what is below it.
prefix_first : (xs ys : List Str) → cmp_parts (xs ++ ys) xs ≢ Ordering.lt
unfolding cmp_parts
prefix_first [] [] h = cc
prefix_first [] (y ∷ ys) h = cc
prefix_first (x ∷ xs) ys h = prefix_first xs ys (ground (arith, h, cmp_bytes_refl x))

between :
    (r a b c : List Str)
    → cmp_parts (r ++ a) b ≢ Ordering.gt
    → cmp_parts b (r ++ c) ≢ Ordering.gt
    → (rest : List Str) × (b ≡ r ++ rest)
unfolding cmp_parts
between [] a b c h k = (b, refl)
between (x ∷ r) a [] c h k = absurd (h refl)
between (x ∷ r) a (y ∷ b) c h k =
    let same : cmp_bytes x y ≡ Ordering.eq = ground (arith, h, k, cmp_bytes-swap x y) in
    let (rest, e) =
      between r a b c (λ g. ground (arith, h, g, same))
        (λ g. ground (arith, k, g, same, cmp_bytes-swap x y)) in
    (rest, ground (arith, e, cmp_bytes-eq x y, same))

-- A directory's subtree is contiguous in the canonical order: a path between two paths at or below
-- `r` is at or below `r`.
pub subtree_contiguous :
    (r p q s : RelativePath) → GoesOn p r → GoesOn s r → PathLe p q → PathLe q s → GoesOn q r
unfolding compare_paths
subtree_contiguous r p q s (a, ea) (c, ec) h k =
    between (parts r) a (parts q) c (subst (λ x. cmp_parts x (parts q) ≢ Ordering.gt) ea h)
      (subst (λ x. cmp_parts (parts q) x ≢ Ordering.gt) ec k)

-- A path at or below `r` does not come before `r`.
pub GoesOn-PathLe : (p r : RelativePath) → GoesOn p r → PathLe r p
unfolding compare_paths
GoesOn-PathLe p r (rest, e) h = prefix_first (parts r) rest (
    subst (λ x. cmp_parts x (parts r) ≡ Ordering.lt) e
      (ground (arith, cmp_parts-swap (parts r) (parts p), h)))
