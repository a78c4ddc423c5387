-- ===== src/LocalStore/Ends.antt =====
-- What holds when an operation of the local store ends: `Q` of a returned value and the disk, `E` of
-- the disk that an error leaves.
use octa.Common.{
  Bool, true, false, Option, List, [], ◌∷◌, ◌≡◌, refl, ◌∙◌, subst, lookup, if◌then◌else◌,
}
use octa.LocalStore.{
  CacheError, CacheResult, ok, err, CachePath, path_eq, Entry, happens, fails, Fault, Disk, Io,
  raise, caught, continue, answer, act, step, inspect, discard, discard_on_error,
}

pub ok-injective : {A : Type 0} {a b : A} → ok a ≡ ok b → a ≡ b
ok-injective h = cc

-- Two disks with the same files and the same ledger.
pub record Same (d e : Disk) : Type 0 where
  pub files : e.files ≡ d.files
  pub ledger : e.ledger ≡ d.ledger

pub Same-refl : (d : Disk) → Same d d
Same-refl d = record { files = refl; ledger = refl }

pub Same-trans : {d e f : Disk} → Same d e → Same e f → Same d f
Same-trans a b = record { files = b.files ∙ a.files; ledger = b.ledger ∙ a.ledger }

pub data Ends {A : Type 0} (Q : A → Disk → Type 0) (E : Disk → Type 0)
    : CacheResult A × Disk → Type 0 where
  returns : (a : A) (d : Disk) → Q a d → Ends Q E (ok a, d)
  raises : (x : CacheError) (d : Disk) → E d → Ends Q E (err x, d)

module _ {A : Type 0} {Q R : A → Disk → Type 0} {E F : Disk → Type 0} where
  pub Ends-map :
      (r : CacheResult A × Disk)
      → ((a : A) (d : Disk) → Q a d → R a d)
      → ((d : Disk) → E d → F d)
      → Ends Q E r
      → Ends R F r
  Ends-map _ f g (returns a d h) = returns a d (f a d h)
  Ends-map _ f g (raises x d h) = raises x d (g d h)

module _ {A : Type 0} {Q : A → Disk → Type 0} {E : Disk → Type 0} where
  -- What a returned value says.
  pub Ends-ok : (r : CacheResult A × Disk) (a : A) → Ends Q E r → r.0 ≡ ok a → Q a r.1
  Ends-ok _ a (returns b d h) e = subst (λ c. Q c d) (ok-injective e) h
  Ends-ok _ a (raises x d h) e = absurd cc

-- What stands at the end, when both endings say it.
module _ {A : Type 0} {E : Disk → Type 0} where
  pub Ends-after : (r : CacheResult A × Disk) → Ends (λ _. E) E r → E r.1
  Ends-after _ (returns a d h) = h
  Ends-after _ (raises x d h) = h

module _ {A B : Type 0} {Q : B → Disk → Type 0} {E : Disk → Type 0} where
  pub Ends-continue :
      (R : A → Disk → Type 0) (r : CacheResult A × Disk) (k : A → Io B)
      → Ends R E r
      → ((a : A) (d : Disk) → R a d → Ends Q E (k a d))
      → Ends Q E (continue r k)
  unfolding continue
  Ends-continue R _ k (returns a d h) f = f a d h
  Ends-continue R _ k (raises x d h) f = raises x d h

  -- A result that is looked at.
  pub Ends-attempt :
      (R : A → Disk → Type 0) (F : Disk → Type 0) (r : CacheResult A × Disk)
      (k : CacheResult A → Io B)
      → Ends R F r
      → ((a : A) (d : Disk) → R a d → Ends Q E (k (ok a) d))
      → ((x : CacheError) (d : Disk) → F d → Ends Q E (k (err x) d))
      → Ends Q E (continue (caught r) k)
  unfolding continue caught
  Ends-attempt R F _ k (returns a d h) f g = f a d h
  Ends-attempt R F _ k (raises x d h) f g = g x d h

module _ {A : Type 0} {Q : A → Disk → Type 0} {E : Disk → Type 0} where
  pub then-step :
      (d : Disk) (k : Unit {0} → Io A)
      → ((e : Disk) → Same d e → E e)
      → ((e : Disk) → Same d e → Ends Q E (k tt e))
      → Ends Q E (continue (step d) k)
  unfolding continue answer
  then-step d k f g = go d.faults
    where
      go : (fs : List Fault) → Ends Q E (continue (answer tt d fs d) k)
      go [] = g d (Same-refl d)
      go (happens ∷ fs) = g _ (record { files = refl; ledger = refl })
      go (fails x ∷ fs) = raises x _ (f _ (record { files = refl; ledger = refl }))

  pub then-inspect :
      (p : CachePath) (d : Disk) (k : Option Entry → Io A)
      → ((e : Disk) → Same d e → E e)
      → ((e : Disk) → Same d e → Ends Q E (k (lookup p d.files) e))
      → Ends Q E (continue (inspect p d) k)
  unfolding continue answer
  then-inspect p d k f g = go d.faults
    where
      go : (fs : List Fault) → Ends Q E (continue (answer (lookup p d.files) d fs d) k)
      go [] = g d (Same-refl d)
      go (happens ∷ fs) = g _ (record { files = refl; ledger = refl })
      go (fails x ∷ fs) = raises x _ (f _ (record { files = refl; ledger = refl }))

  pub then-act :
      (c : List (CachePath × Entry) → List (CachePath × Entry)) (d : Disk) (k : Unit {0} → Io A)
      → ((e : Disk) → Same d e → E e)
      → ((e : Disk) → e.files ≡ c d.files → e.ledger ≡ d.ledger → Ends Q E (k tt e))
      → Ends Q E (continue (act c d) k)
  unfolding continue answer
  then-act c d k f g = go d.faults
    where
      go :
          (fs : List Fault)
          → Ends Q E (continue (answer tt d fs (record d { files = c d.files })) k)
      go [] = g _ refl refl
      go (happens ∷ fs) = g _ refl refl
      go (fails x ∷ fs) = raises x _ (f _ (record { files = refl; ledger = refl }))

  -- Discarding a temporary file changes nothing.
  pub then-discard :
      (d : Disk) (k : Unit {0} → Io A)
      → ((e : Disk) → Same d e → Ends Q E (k tt e))
      → Ends Q E (continue (discard d) k)
  unfolding continue answer caught
  then-discard d k g = go d.faults
    where
      go :
          (fs : List Fault)
          → Ends Q E (continue (continue (caught (answer tt d fs d)) (λ _ e. (ok tt, e))) k)
      go [] = g d (Same-refl d)
      go (happens ∷ fs) = g _ (record { files = refl; ledger = refl })
      go (fails x ∷ fs) = g _ (record { files = refl; ledger = refl })

  pub Ends-or_discard :
      (F : Disk → Type 0) (r : CacheResult A × Disk)
      → Ends Q F r
      → ((d e : Disk) → F d → Same d e → E e)
      → Ends Q E (continue (caught r) discard_on_error)
  unfolding continue caught discard_on_error
  Ends-or_discard F _ (returns a d h) f = returns a d h
  Ends-or_discard F _ (raises x d h) f = then-discard d (λ _. raise x) λ e s. raises x e (f d e h s)

  pub if-Ends :
      (b : Bool) (m n : Io A) (d : Disk)
      → (b ≡ true → Ends Q E (m d))
      → (b ≡ false → Ends Q E (n d))
      → Ends Q E ((if b then m else n) d)
  if-Ends true m n d f g = f refl
  if-Ends false m n d f g = g refl

module _ {Q : Unit {0} → Disk → Type 0} {E : Disk → Type 0} where
  pub Ends-step :
      (d : Disk)
      → ((e : Disk) → Same d e → E e)
      → ((e : Disk) → Same d e → Q tt e)
      → Ends Q E (step d)
  unfolding answer
  Ends-step d f g = go d.faults
    where
      go : (fs : List Fault) → Ends Q E (answer tt d fs d)
      go [] = returns tt d (g d (Same-refl d))
      go (happens ∷ fs) = returns tt _ (g _ (record { files = refl; ledger = refl }))
      go (fails x ∷ fs) = raises x _ (f _ (record { files = refl; ledger = refl }))
