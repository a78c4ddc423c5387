-- ===== src/Common/Every.antt =====
-- Statements about every member of a list.
use mathlib.Core.Path.{◌≡◌, refl, sym, ap, subst, ◌∙◌}
use mathlib.Core.Logic.{◌⊎◌, inl, inr}
use mathlib.Core.Bool.{Bool, true, false, ◌&&◌}
use mathlib.Core.List.{List, [], ◌∷◌, ◌++◌}
use native.Mathlib.Omega.{arith}
use octa.Common.Lists.{any, all, contains, All, filter}
use octa.Common.Tests.{Eq, ◌==◌, ==_iff, Bool-cases, if◌then◌else◌}

abbrev pub Mem : {A : Type 0} → A → List A → Type 0
Mem x [] = ⊥
Mem x (y ∷ ys) = (y ≡ x) ⊎ Mem x ys

pub Mem-filter :
    {A : Type 0} (p : A → Bool) (x : A) (xs : List A) → Mem x xs → p x ≡ true → Mem x (filter p xs)
Mem-filter p x [] m t = m
Mem-filter p x (y ∷ ys) (inl e) t =
    subst (λ b. Mem x (if b then y ∷ filter p ys else filter p ys)) (sym (ap p e ∙ t)) (inl e)
Mem-filter p x (y ∷ ys) (inr m) t = go (p y) (Mem-filter p x ys m t)
  where
    go : (b : Bool) → Mem x (filter p ys) → Mem x (if b then y ∷ filter p ys else filter p ys)
    go true k = inr k
    go false k = k

pub Mem-of_filter :
    {A : Type 0} (p : A → Bool) (x : A) (xs : List A)
    → Mem x (filter p xs)
    → Mem x xs × (p x ≡ true)
Mem-of_filter p x [] m = elim m [ ]
Mem-of_filter p x (y ∷ ys) m = go (p y) refl m (Mem-of_filter p x ys)
  where
    go :
        (b : Bool)
        → p y ≡ b
        → Mem x (if b then y ∷ filter p ys else filter p ys)
        → (Mem x (filter p ys) → Mem x ys × (p x ≡ true))
        → Mem x (y ∷ ys) × (p x ≡ true)
    go true e (inl q) rest = (inl q, sym (ap p q) ∙ e)
    go true e (inr k) rest = let (k1, k2) = rest k in (inr k1, k2)
    go false e k rest = let (k1, k2) = rest k in (inr k1, k2)

pub All-Mem {κ} :
    {A : Type 0} (P : A → Type κ) (xs : List A) → ((x : A) → Mem x xs → P x) → All P xs
All-Mem P [] f = tt
All-Mem P (x ∷ xs) f = (f x (inl refl), All-Mem P xs λ y m. f y (inr m))

pub Mem-All {κ} : {A : Type 0} (P : A → Type κ) (xs : List A) (x : A) → All P xs → Mem x xs → P x
Mem-All P [] x h m = elim m [ ]
Mem-All P (y ∷ ys) x h (inl e) = subst P e h.0
Mem-All P (y ∷ ys) x h (inr m) = Mem-All P ys x h.1 m

pub any-false {ℓ} :
    {A : Type ℓ} (f : A → Bool) (xs : List A) → any f xs ≡ false → All (λ x. f x ≡ false) xs
any-false f [] h = tt
any-false f (x ∷ xs) h = (ground arith, any-false f xs (ground arith))

pub any-false_of_All {ℓ} :
    {A : Type ℓ} (f : A → Bool) (xs : List A) → All (λ x. f x ≡ false) xs → any f xs ≡ false
any-false_of_All f [] h = refl
any-false_of_All f (x ∷ xs) h = ground (arith, any-false_of_All f xs h.1)

pub All-append {ℓ κ} :
    {A : Type ℓ} (P : A → Type κ) (xs ys : List A) → All P xs → All P ys → All P (xs ++ ys)
All-append P [] ys hx hy = hy
All-append P (x ∷ xs) ys hx hy = (hx.0, All-append P xs ys hx.1 hy)

pub All-append_left {ℓ κ} :
    {A : Type ℓ} (P : A → Type κ) (xs ys : List A) → All P (xs ++ ys) → All P xs
All-append_left P [] ys h = tt
All-append_left P (x ∷ xs) ys h = (h.0, All-append_left P xs ys h.1)

pub All-append_right {ℓ κ} :
    {A : Type ℓ} (P : A → Type κ) (xs ys : List A) → All P (xs ++ ys) → All P ys
All-append_right P [] ys h = h
All-append_right P (x ∷ xs) ys h = All-append_right P xs ys h.1

pub All-map {ℓ κ μ} :
    {A : Type ℓ} (P : A → Type κ) (Q : A → Type μ) (xs : List A)
    → ((x : A) → P x → Q x)
    → All P xs
    → All Q xs
All-map P Q [] f h = tt
All-map P Q (x ∷ xs) f h = (f x h.0, All-map P Q xs f h.1)

pub All-zip {ℓ κ μ} :
    {A : Type ℓ} (P : A → Type κ) (Q : A → Type μ) (xs : List A)
    → All P xs
    → All Q xs
    → All (λ x. P x × Q x) xs
All-zip P Q [] hp hq = tt
All-zip P Q (x ∷ xs) hp hq = ((hp.0, hq.0), All-zip P Q xs hp.1 hq.1)

module _ {ℓ} {A : Type ℓ} ⦃e : Eq A⦄ where
  pub contains-filter :
      (q : A → Bool) (x : A) (xs : List A) → contains (filter q xs) x ≡ contains xs x && q x
  contains-filter q x [] = refl
  contains-filter q x (y ∷ xs) =
      let moved : (y == x) ≡ true → q y ≡ q x = λ e. ap q ((==_iff y x).0 e) in
      ground (arith, contains-filter q x xs, moved)

  pub contains-all :
      (q : A → Bool) (x : A) (xs : List A) → all q xs ≡ true → contains xs x ≡ true → q x ≡ true
  contains-all q x [] h m = absurd cc
  contains-all q x (y ∷ xs) h m = elim (Bool-cases (y == x)) [
    | inl e ↦ ap q (sym ((==_iff y x).0 e)) ∙ ground (arith, h)
    | inr e ↦ contains-all q x xs (ground (arith, h)) (ground (arith, m, e))
  ]
