-- ===== src/OutputRoots.antt =====
-- crates/octa-cache/src/bundle/path.rs: the declared output roots of a cached task, their canonical
-- order and the check that none holds another. Creating directories is not modelled.
pub mod Order
mod Sorting
mod Checks
pub mod Overlap
mod Examples
use Prim.Native.Nat.{Ordering}
use octa.Common.{
  ℕ, Bool, true, false, ◌||◌, Option, none, some, List, [], ◌∷◌, ◌++◌, map, ◌==◌, nat_eq,
  if◌then◌else◌, contains, any,
}
use octa.Text.{Str, str_eq, strip_prefix, split}
use octa.Text.Order.{cmp_bytes}
use octa.RelativePath.{RelativePath, slash, is_root, is_slash_suffix}

-- The messages of `CacheError::Configuration` that these functions give.
pub data RootError : Type 0 where
  no_roots workspace_root : RootError
  declared_twice : Str → RootError
  overlap : (ancestor root : Str) → RootError

pub data RootResult (A : Type 0) : Type 0 where
  ok : A → RootResult A
  err : RootError → RootResult A

-- `?` after a check.
abbrev pub and_then : {A : Type 0} → RootResult (Unit {0}) → RootResult A → RootResult A
and_then (ok _) k = k
and_then (err e) k = err e

-- The loop of `compare_paths` over the two iterators of components.
pub cmp_parts : List Str → List Str → Ordering
cmp_parts [] [] = Ordering.eq
cmp_parts [] (d ∷ ds) = Ordering.lt
cmp_parts (c ∷ cs) [] = Ordering.gt
cmp_parts (c ∷ cs) (d ∷ ds) =
    let rest = cmp_parts cs ds in
    elim (cmp_bytes c d) [
      | Ordering.eq ↦ rest
      | Ordering.lt ↦ Ordering.lt
      | Ordering.gt ↦ Ordering.gt
    ]

pub compare_paths : RelativePath → RelativePath → Ordering
compare_paths left right = cmp_parts (split slash left.text) (split slash right.text)

pub contains_path : RelativePath → RelativePath → Bool
contains_path root path =
    path.text == root.text || is_slash_suffix (strip_prefix root.text path.text)

-- `sort_by(compare_paths)`: stable, so the order is that of insertion.
pub insert_sorted : RelativePath → List RelativePath → List RelativePath
insert_sorted r [] = r ∷ []
insert_sorted r (q ∷ qs) =
    let rest = q ∷ insert_sorted r qs in
    elim (compare_paths r q) [
      | Ordering.gt ↦ rest
      | Ordering.lt ↦ r ∷ q ∷ qs
      | Ordering.eq ↦ r ∷ q ∷ qs
    ]

pub sort_paths : List RelativePath → List RelativePath
sort_paths [] = []
sort_paths (r ∷ rs) = insert_sorted r (sort_paths rs)

-- The texts in front of each slash, as `match_indices('/')` gives them.
pub ancestors : Str → List Str
ancestors [] = []
ancestors (c ∷ s) =
    let rest = map (λ a. c ∷ a) (ancestors s) in if c == slash then [] ∷ rest else rest

-- The inner loop: the first ancestor that was seen.
pub first_seen : List Str → List Str → Option Str
first_seen [] seen = none
first_seen (a ∷ rest_of) seen =
    let rest = first_seen rest_of seen in if contains seen a then some a else rest

abbrev pub conflict : Option Str → RelativePath → RootResult (Unit {0})
conflict none r = ok tt
conflict (some a) r = err (overlap a r.text)

pub check_root : RelativePath → List Str → RootResult (Unit {0})
check_root r seen =
    if is_root r
    then err workspace_root
    else if contains seen r.text
    then err (declared_twice r.text)
    else conflict (first_seen (ancestors r.text) (r.text ∷ seen)) r

-- The outer loop; `seen` holds the roots before.
pub check_roots : List RelativePath → List Str → RootResult (Unit {0})
check_roots [] seen = ok tt
check_roots (r ∷ rs) seen = and_then (check_root r seen) (check_roots rs (r.text ∷ seen))

abbrev is_empty_list : List RelativePath → Bool
is_empty_list [] = true
is_empty_list (r ∷ rs) = false

pub validate_output_roots : List RelativePath → RootResult (List RelativePath)
validate_output_roots roots =
    if is_empty_list roots
    then err no_roots
    else let sorted = sort_paths roots in and_then (check_roots sorted []) (ok sorted)
