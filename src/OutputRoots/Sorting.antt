-- ===== src/OutputRoots/Sorting.antt =====
-- `sort_paths` returns the same roots in canonical order.
use Prim.Native.Nat.{Ordering}
use mathlib.Core.List.Perm
use mathlib.Core.List.{Perm}
use octa.Common.{◌≡◌, ◌≢◌, refl, List, [], ◌∷◌, arith, All, All-map}
use octa.RelativePath.{RelativePath}
use octa.OutputRoots.{compare_paths, insert_sorted, sort_paths}
use octa.OutputRoots.Order.{PathLe, PathLe-trans, compare_paths-swap}

-- Each root does not come behind a later one.
abbrev pub IsSorted : List RelativePath → Type 0
IsSorted [] = Unit
IsSorted (r ∷ rs) = All (PathLe r) rs × IsSorted rs

insert_sorted-perm :
    (r : RelativePath) (rs : List RelativePath) → Perm (insert_sorted r rs) (r ∷ rs)
unfolding insert_sorted
insert_sorted-perm r [] = Perm.refl (r ∷ [])
insert_sorted-perm r (q ∷ qs) =
    let deeper = Perm.trans (Perm.cons q (insert_sorted-perm r qs)) (Perm.swap r q qs) in
    go (compare_paths r q) refl deeper
  where
    go :
        (o : Ordering)
        → compare_paths r q ≡ o
        → Perm (q ∷ insert_sorted r qs) (r ∷ q ∷ qs)
        → Perm (insert_sorted r (q ∷ qs)) (r ∷ q ∷ qs)
    go Ordering.gt e d = rw (e, insert_sorted) d
    go Ordering.lt e d = rw (e, insert_sorted) (Perm.refl (r ∷ q ∷ qs))
    go Ordering.eq e d = rw (e, insert_sorted) (Perm.refl (r ∷ q ∷ qs))

insert_sorted-All :
    (P : RelativePath → Type 0) (r : RelativePath) (rs : List RelativePath)
    → P r
    → All P rs
    → All P (insert_sorted r rs)
unfolding insert_sorted
insert_sorted-All P r [] p h = (p, tt)
insert_sorted-All P r (q ∷ qs) p h = ground (arith, insert_sorted-All P r qs p h.1, h.0, p)

insert_sorted-IsSorted :
    (r : RelativePath) (rs : List RelativePath) → IsSorted rs → IsSorted (insert_sorted r rs)
unfolding insert_sorted
insert_sorted-IsSorted r [] s = (tt, tt)
insert_sorted-IsSorted r (q ∷ qs) s =
    go (compare_paths r q) refl
      (λ e. (
        insert_sorted-All (PathLe q) r qs (λ g. ground (arith, g, e, compare_paths-swap r q)) s.0,
        insert_sorted-IsSorted r qs s.1,
      ))
      (λ le. ((le, All-map (PathLe q) (PathLe r) qs (λ x k. PathLe-trans r q x le k) s.0), s))
  where
    go :
        (o : Ordering)
        → compare_paths r q ≡ o
        → (compare_paths r q ≡ Ordering.gt → IsSorted (q ∷ insert_sorted r qs))
        → (compare_paths r q ≢ Ordering.gt → IsSorted (r ∷ q ∷ qs))
        → IsSorted (insert_sorted r (q ∷ qs))
    go Ordering.gt e later first = rw (e, insert_sorted) (later e)
    go Ordering.lt e later first = rw (e, insert_sorted) (first (λ g. ground (arith, g, e)))
    go Ordering.eq e later first = rw (e, insert_sorted) (first (λ g. ground (arith, g, e)))

-- Sorting loses no root and makes none up.
pub sort_paths-perm : (rs : List RelativePath) → Perm (sort_paths rs) rs
unfolding sort_paths
sort_paths-perm [] = Perm.refl []
sort_paths-perm (r ∷ rs) =
    Perm.trans (insert_sorted-perm r (sort_paths rs)) (Perm.cons r (sort_paths-perm rs))

pub sort_paths-IsSorted : (rs : List RelativePath) → IsSorted (sort_paths rs)
unfolding sort_paths
sort_paths-IsSorted [] = tt
sort_paths-IsSorted (r ∷ rs) = insert_sorted-IsSorted r (sort_paths rs) (sort_paths-IsSorted rs)
