-- ===== src/OutputRoots/Overlap.antt =====
-- `validate_output_roots` accepts exactly the sets of roots of which none holds another.
use Prim.Native.Nat.{Ordering}
use octa.Common.{
  true, false, ◌≡◌, ◌≢◌, ◌↔◌, refl, sym, ap, List, [], ◌∷◌, arith, inl, inr, All, All-map, All-zip,
  ◌==◌, nat_eq, ==_iff, Bool-cases,
}
use octa.Text.{Str, str_eq}
use octa.RelativePath.{RelativePath, is_root}
use octa.RelativePath.Containment.{GoesOn, GoesOn-cases}
use octa.OutputRoots.{
  ok, compare_paths, contains_path, sort_paths, check_roots, validate_output_roots,
}
use octa.OutputRoots.Order.{PathLe, GoesOn-PathLe, compare_paths-swap, compare_paths-eq}
use octa.OutputRoots.Sorting.{IsSorted, sort_paths-IsSorted}
use octa.OutputRoots.Checks.{Clear, All-of, Accepted, ok-injective, and_then_iff, check_roots_iff}

-- Neither path is at or below the other.
abbrev pub Apart : RelativePath → RelativePath → Type 0
Apart p q = (contains_path p q ≡ false) × (contains_path q p ≡ false)

abbrev pub AllApart : List RelativePath → Type 0
AllApart [] = Unit
AllApart (r ∷ rs) = All (Apart r) rs × AllApart rs

contains_path_iff : (r p : RelativePath) → (contains_path r p ≡ true) ↔ GoesOn p r
unfolding contains_path
contains_path_iff r p = (
  λ h. (GoesOn-cases p r).1 (elim (Bool-cases (p.text == r.text)) [
    | inl same ↦ inl ((==_iff p.text r.text).0 same)
    | inr other ↦ inr (ground (arith, h, other))
  ]),
  λ g. elim ((GoesOn-cases p r).0 g) [
    | inl same ↦ ground (arith, (==_iff p.text r.text).1 same)
    | inr suffix ↦ ground (arith, suffix)
  ],
)

-- In canonical order a later root that holds an earlier one is that root.
later_apart :
    (r q : RelativePath) → PathLe r q → contains_path r q ≡ false → contains_path q r ≡ false
later_apart r q le clear = elim (Bool-cases (contains_path q r)) [
  | inr apart ↦ apart
  | inl holds ↦
      let le' = GoesOn-PathLe r q ((contains_path_iff q r).0 holds) in
      let same : compare_paths r q ≡ Ordering.eq =
        ground (arith, le, le', compare_paths-swap r q) in
      let found =
        (contains_path_iff r q).1 ((GoesOn-cases q r).1 (inl (sym (compare_paths-eq r q same)))) in
      absurd (ground (arith, found, clear))
]

forward :
    (rs : List RelativePath) (s : Str) (seen : List Str)
    → Accepted rs seen
    → ((x : RelativePath) → Clear x seen → contains_path (record { text = s }) x ≡ false)
    → All (λ x. contains_path (record { text = s }) x ≡ false) rs
forward [] s seen acc f = tt
forward (x ∷ rs) s seen acc f = (f x acc.1, forward rs s (x.text ∷ seen) acc.2 (λ y c. f y c.1))

Accepted-apart :
    (rs : List RelativePath) (seen : List Str) → IsSorted rs → Accepted rs seen → AllApart rs
Accepted-apart [] seen sorted acc = tt
Accepted-apart (r ∷ rs) seen sorted acc = (
  All-map _ (Apart r) rs (λ q h. (h.1, later_apart r q h.0 h.1))
      (All-zip _ _ rs sorted.0 (forward rs r.text (r.text ∷ seen) acc.2 (λ y c. c.0))),
  Accepted-apart rs (r.text ∷ seen) sorted.1 acc.2,
)

Accepted-rooted :
    (rs : List RelativePath) (seen : List Str) → Accepted rs seen → All (λ r. is_root r ≡ false) rs
Accepted-rooted [] seen acc = tt
Accepted-rooted (r ∷ rs) seen acc = (acc.0, Accepted-rooted rs (r.text ∷ seen) acc.2)

Accepted-of :
    (rs : List RelativePath) (seen : List Str)
    → All (λ r. is_root r ≡ false) rs
    → AllApart rs
    → All (λ r. Clear r seen) rs
    → Accepted rs seen
Accepted-of [] seen rooted apart clear = tt
Accepted-of (r ∷ rs) seen rooted apart clear = (
  rooted.0,
  clear.0,
  Accepted-of rs (r.text ∷ seen) rooted.1 apart.1 (
      All-map _ (λ q. Clear q (r.text ∷ seen)) rs (λ q h. (h.0.0, h.1))
        (All-zip _ _ rs apart.0 clear.1)),
)

-- `validate_output_roots` succeeds exactly when there is a root, none is the workspace root and no
-- root is at or below another; it then returns the roots in canonical order.
pub validate_output_roots_iff :
    (roots out : List RelativePath)
    → (validate_output_roots roots ≡ ok out) ↔ (
        (roots ≢ [])
        × (sort_paths roots ≡ out)
        × All (λ r. is_root r ≡ false) (sort_paths roots)
        × AllApart (sort_paths roots))
unfolding validate_output_roots
validate_output_roots_iff [] out = (λ h. cc, λ h. absurd (h.0 refl))
validate_output_roots_iff (r ∷ rs) out =
    let sorted = sort_paths (r ∷ rs) in
    (
      λ h.
          let (checked, same) = (and_then_iff (check_roots sorted []) (ok sorted) out).0 h in
          let acc = (check_roots_iff sorted []).0 checked in
          (
            λ e. cc,
            ok-injective same,
            Accepted-rooted sorted [] acc,
            Accepted-apart sorted [] (sort_paths-IsSorted (r ∷ rs)) acc,
          ),
      λ (some_root, same, rooted, apart). (and_then_iff (check_roots sorted []) (ok sorted) out).1 (
        (check_roots_iff sorted []).1
            (Accepted-of sorted [] rooted apart (All-of _ sorted (λ q. tt))),
        ap ok same,
      ),
    )
