-- ===== src/OutputRoots/Checks.antt =====
-- What the checks of one root and of all roots mean.
use octa.Common.{
  ℕ, false, ◌&&◌, Option, none, some, ◌≡◌, ◌↔◌, refl, ap, ◌∙◌, List, [], ◌∷◌, map, arith, All,
  All-map, All-zip, ◌==◌, nat_eq, ==_iff, contains,
}
use octa.Text.{Str, str_eq, strip_prefix}
use octa.Text.Split.{strip_prefix_self}
use octa.RelativePath.{RelativePath, is_root, is_slash_suffix}
use octa.OutputRoots.{
  RootResult, ok, err, and_then, contains_path, ancestors, first_seen, conflict, check_root,
  check_roots,
}

contains-map-nil : (c : ℕ) (xs : List Str) → contains (map (λ a. c ∷ a) xs) [] ≡ false
contains-map-nil c [] = refl
contains-map-nil c (x ∷ xs) = contains-map-nil c xs

contains-map-cons :
    (c d : ℕ) (a : Str) (xs : List Str)
    → contains (map (λ b. c ∷ b) xs) (d ∷ a) ≡ c == d && contains xs a
contains-map-cons c d a [] = ground arith
contains-map-cons c d a (x ∷ xs) = ground (arith, contains-map-cons c d a xs)

-- The loop over the slashes meets just the texts that go on with a slash.
ancestors_lem : (a s : Str) → contains (ancestors s) a ≡ is_slash_suffix (strip_prefix a s)
unfolding ancestors strip_prefix
ancestors_lem [] [] = refl
ancestors_lem (d ∷ a) [] = refl
ancestors_lem [] (c ∷ s) = ground (arith, contains-map-nil c (ancestors s))
ancestors_lem (d ∷ a) (c ∷ s) =
    ground (arith, contains-map-cons c d a (ancestors s), ancestors_lem a s, ==_iff c d, ==_iff d c)

-- No listed text is an ancestor of, or equal to, the root.
abbrev pub Clear : RelativePath → List Str → Type 0
Clear r = All (λ s. contains_path (record { text = s }) r ≡ false)

pub absent_iff :
    (a : Str) (seen : List Str) → (contains seen a ≡ false) ↔ All (λ s. (a == s) ≡ false) seen
absent_iff a [] = (λ h. tt, λ h. refl)
absent_iff a (s ∷ seen) =
    let rest = absent_iff a seen in
    (
      λ h. (ground (arith, h, ==_iff a s, ==_iff s a), rest.0 (ground (arith, h))),
      λ h. ground (arith, h.0, rest.1 h.1, ==_iff a s, ==_iff s a),
    )

pub All-of {ℓ κ} : {A : Type ℓ} (P : A → Type κ) (xs : List A) → ((x : A) → P x) → All P xs
All-of P [] f = tt
All-of P (x ∷ xs) f = (f x, All-of P xs f)

first_seen-none :
    (names seen : List Str)
    → (first_seen names seen ≡ none) ↔ All (λ s. contains names s ≡ false) seen
unfolding first_seen
first_seen-none [] seen = (λ h. All-of _ seen (λ s. refl), λ h. refl)
first_seen-none (a ∷ names) seen = (
  λ h.
      All-map (λ s. ((a == s) ≡ false) × (contains names s ≡ false)) _ seen
        (λ s k. ground (arith, k))
        (All-zip _ _ seen ((absent_iff a seen).0 (ground (arith, h)))
          ((first_seen-none names seen).0 (ground (arith, h)))),
  λ h. ground (
    arith,
    (absent_iff a seen).1 (All-map _ (λ s. (a == s) ≡ false) seen (λ s k. ground (arith, k)) h),
    (first_seen-none names seen).1
        (All-map _ (λ s. contains names s ≡ false) seen (λ s k. ground (arith, k)) h),
  ),
)

own_text : (r : RelativePath) → contains (ancestors r.text) r.text ≡ false
own_text r = ancestors_lem r.text r.text ∙ ap is_slash_suffix (strip_prefix_self r.text)

conflict-ok : (o : Option Str) (r : RelativePath) → conflict o r ≡ ok tt → o ≡ none
conflict-ok none r h = refl
conflict-ok (some a) r h = cc

clear_of :
    (r : RelativePath) (s : Str)
    → (contains_path (record { text = s }) r ≡ false)
      ↔ (((r.text == s) ≡ false) × (contains (ancestors r.text) s ≡ false))
unfolding contains_path
clear_of r s = ground (arith, ancestors_lem s r.text)

check_root_iff :
    (r : RelativePath) (seen : List Str)
    → (check_root r seen ≡ ok tt) ↔ ((is_root r ≡ false) × Clear r seen)
unfolding check_root
check_root_iff r seen = (
  λ h.
      let rooted : is_root r ≡ false = ground (arith, h) in
      let fresh : contains seen r.text ≡ false = ground (arith, h) in
      let none_seen : first_seen (ancestors r.text) (r.text ∷ seen) ≡ none =
        conflict-ok _ r (ground (arith, h)) in
      (
        rooted,
        All-map _ _ seen (λ s k. (clear_of r s).1 k)
            (All-zip _ _ seen ((absent_iff r.text seen).0 fresh)
              ((first_seen-none (ancestors r.text) (r.text ∷ seen)).0 none_seen).1),
      ),
  λ (rooted, clear).
      let none_seen : first_seen (ancestors r.text) (r.text ∷ seen) ≡ none =
        (first_seen-none (ancestors r.text) (r.text ∷ seen)).1
          (own_text r, All-map _ _ seen (λ s k. ((clear_of r s).0 k).1) clear) in
      let fresh : contains seen r.text ≡ false =
        (absent_iff r.text seen).1 (All-map _ _ seen (λ s k. ((clear_of r s).0 k).0) clear) in
      ground (arith, rooted, fresh, none_seen),
)

-- Each root is clear of those before it.
abbrev pub Accepted : List RelativePath → List Str → Type 0
Accepted [] seen = Unit
Accepted (r ∷ rs) seen = (is_root r ≡ false) × Clear r seen × Accepted rs (r.text ∷ seen)

pub and_then_iff :
    {A : Type 0} (x : RootResult (Unit {0})) (k : RootResult A) (a : A)
    → (and_then x k ≡ ok a) ↔ ((x ≡ ok tt) × (k ≡ ok a))
and_then_iff (ok u) k a = (λ h. (refl, h), λ h. h.1)
and_then_iff (err e) k a = (λ h. cc, λ h. cc)

pub ok-injective : {A : Type 0} {a b : A} → ok a ≡ ok b → a ≡ b
ok-injective h = cc

pub check_roots_iff :
    (rs : List RelativePath) (seen : List Str) → (check_roots rs seen ≡ ok tt) ↔ Accepted rs seen
unfolding check_roots
check_roots_iff [] seen = (λ h. tt, λ h. refl)
check_roots_iff (r ∷ rs) seen = (
  λ h.
      let (first, later) = (and_then_iff (check_root r seen) _ tt).0 h in
      let (rooted, clear) = (check_root_iff r seen).0 first in
      (rooted, clear, (check_roots_iff rs (r.text ∷ seen)).0 later),
  λ (rooted, clear, rest).
      (and_then_iff (check_root r seen) _ tt).1
        ((check_root_iff r seen).1 (rooted, clear), (check_roots_iff rs (r.text ∷ seen)).1 rest),
)
