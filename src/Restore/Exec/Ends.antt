-- ===== src/Restore/Exec/Ends.antt =====
-- What holds at each end of a run: `R` of a returned value and its state, `E` of the state that an
-- error leaves, `C` of the state that a stopped process leaves.
use octa.Common.{Bool, true, false, List, [], ◌∷◌, ◌≡◌, refl, if◌then◌else◌}
use octa.Restore.Exec.{
  RestoreError, Fault, happens, fails, stops, Outcome, returned, raised, stopped, Exec, continue,
  io_error, act, observe, on_error, ignoring, with_state,
}

-- The script has a fault in it.
abbrev pub Faulty : List Fault → Type 0
Faulty [] = ⊥
Faulty (happens ∷ fs) = Faulty fs
Faulty (fails ∷ fs) = Unit
Faulty (stops ∷ fs) = Unit

-- The outcome of a run from a script. An error or a stop has a fault of the script as its cause.
pub data Ends {S A : Type 0} (R : A → S → Type 0) (E C : S → Type 0)
    : List Fault → Outcome S A → Type 0 where
  returns :
      (fs : List Fault) (a : A) (s : S) (gs : List Fault)
      → (Faulty gs → Faulty fs)
      → R a s
      → Ends R E C fs (returned a s gs)
  raises :
      (fs : List Fault) (x : RestoreError) (s : S) (gs : List Fault)
      → Faulty fs
      → (Faulty gs → Faulty fs)
      → E s
      → Ends R E C fs (raised x s gs)
  stops_at : (fs : List Fault) (s : S) → Faulty fs → C s → Ends R E C fs (stopped s)

module _ {S A : Type 0} {R : A → S → Type 0} {E C : S → Type 0} where
  pub at_return : (a : A) (s : S) (fs : List Fault) → R a s → Ends R E C fs (returned a s fs)
  at_return a s fs r = returns fs a s fs (λ h. h) r

  -- A shorter script has no other faults.
  pub Ends-earlier :
      (fs gs : List Fault) (o : Outcome S A)
      → (Faulty gs → Faulty fs)
      → Ends R E C gs o
      → Ends R E C fs o
  Ends-earlier fs _ _ h (returns _ a s gs k r) = returns fs a s gs (λ x. h (k x)) r
  Ends-earlier fs _ _ h (raises _ x s gs f k e) = raises fs x s gs (h f) (λ y. h (k y)) e
  Ends-earlier fs _ _ h (stops_at _ s f c) = stops_at fs s (h f) c

  -- Without a fault, a run returns.
  pub Ends-returns :
      (fs : List Fault) (o : Outcome S A)
      → (Faulty fs → ⊥)
      → Ends R E C fs o
      → (a : A) × (s : S) × (gs : List Fault) × (o ≡ returned a s gs) × R a s
  Ends-returns fs _ quiet (returns _ a s gs k r) = (a, s, gs, refl, r)
  Ends-returns fs _ quiet (raises _ x s gs f k e) = absurd (quiet f)
  Ends-returns fs _ quiet (stops_at _ s f c) = absurd (quiet f)

  -- An error has a fault as its cause.
  pub raised-Faulty :
      (fs : List Fault) (o : Outcome S A) (x : RestoreError) (s : S) (gs : List Fault)
      → o ≡ raised x s gs
      → Ends R E C fs o
      → Faulty fs
  raised-Faulty fs _ x s gs e (returns _ a s' hs k r) = absurd cc
  raised-Faulty fs _ x s gs e (raises _ y s' hs f k r) = f
  raised-Faulty fs _ x s gs e (stops_at _ s' f c) = f

module _ {S A : Type 0} {R R' : A → S → Type 0} {E E' C C' : S → Type 0} where
  pub Ends-map :
      {fs : List Fault} (o : Outcome S A)
      → ((a : A) (s : S) → R a s → R' a s)
      → ((s : S) → E s → E' s)
      → ((s : S) → C s → C' s)
      → Ends R E C fs o
      → Ends R' E' C' fs o
  Ends-map _ f g h (returns fs a s gs k e) = returns fs a s gs k (f a s e)
  Ends-map _ f g h (raises fs x s gs j k e) = raises fs x s gs j k (g s e)
  Ends-map _ f g h (stops_at fs s j e) = stops_at fs s j (h s e)

module _ {S A : Type 0} {R : A → S → Type 0} {E F C : S → Type 0} where
  -- What is known of the errors of a run.
  pub Ends-raised :
      (fs : List Fault) (o : Outcome S A)
      → ((x : RestoreError) (s : S) (gs : List Fault) → o ≡ raised x s gs → E s → F s)
      → Ends R E C fs o
      → Ends R F C fs o
  Ends-raised fs _ f (returns _ a s gs k r) = returns fs a s gs k r
  Ends-raised fs _ f (raises _ x s gs j k e) = raises fs x s gs j k (f x s gs refl e)
  Ends-raised fs _ f (stops_at _ s j c) = stops_at fs s j c

module _ {S A : Type 0} {R : A → S → Type 0} {C : S → Type 0} where
  pub Ends-on_error :
      (E F : S → Type 0) (fs : List Fault) (o : Outcome S A) (handler : Exec S (Unit {0}))
      → Ends R E C fs o
      → ((s : S) (gs : List Fault) → E s → Ends (λ _. F) F C gs (handler s gs))
      → Ends R F C fs (on_error o handler)
  unfolding on_error continue
  Ends-on_error E F fs _ handler (returns _ a s gs k e) f = returns fs a s gs k e
  Ends-on_error E F fs _ handler (raises _ x s gs j k e) f = handled (handler s gs) (f s gs e)
    where
      handled :
          (o : Outcome S (Unit {0}))
          → Ends (λ _. F) F C gs o
          → Ends R F C fs (continue o λ _ s' gs'. raised x s' gs')
      handled _ (returns _ a s' gs' l h) = raises fs x s' gs' j (λ y. k (l y)) h
      handled _ (raises _ y s' gs' i l h) = raises fs y s' gs' j (λ z. k (l z)) h
      handled _ (stops_at _ s' i h) = stops_at fs s' j h
  Ends-on_error E F fs _ handler (stops_at _ s j e) f = stops_at fs s j e

module _ {S : Type 0} {K : S → Type 0} where
  pub Ends-ignoring :
      (fs : List Fault) (o : Outcome S (Unit {0}))
      → Ends (λ _. K) K K fs o
      → Ends (λ _. K) K K fs (ignoring o)
  unfolding ignoring
  Ends-ignoring fs _ (returns _ a s gs k e) = returns fs tt s gs k e
  Ends-ignoring fs _ (raises _ x s gs j k e) = returns fs tt s gs k e
  Ends-ignoring fs _ (stops_at _ s j e) = stops_at fs s j e

module _ {S A B : Type 0} {Q : B → S → Type 0} {E C : S → Type 0} where
  -- What comes after a run also knows how that returned.
  pub Ends-followed :
      (R : A → S → Type 0) (fs : List Fault) (o : Outcome S A) (k : A → Exec S B)
      → Ends R E C fs o
      → ((a : A) (s : S) (gs : List Fault) → o ≡ returned a s gs → R a s → Ends Q E C gs (k a s gs))
      → Ends Q E C fs (continue o k)
  unfolding continue
  Ends-followed R fs _ k (returns _ a s gs l e) f = Ends-earlier fs gs _ l (f a s gs refl e)
  Ends-followed R fs _ k (raises _ x s gs j l e) f = raises fs x s gs j l e
  Ends-followed R fs _ k (stops_at _ s j e) f = stops_at fs s j e

  pub Ends-continue :
      (R : A → S → Type 0) {fs : List Fault} (o : Outcome S A) (k : A → Exec S B)
      → Ends R E C fs o
      → ((a : A) (s : S) (gs : List Fault) → R a s → Ends Q E C gs (k a s gs))
      → Ends Q E C fs (continue o k)
  Ends-continue R {fs} o k e f = Ends-followed R fs o k e λ a s gs _. f a s gs

module _ {S : Type 0} {R : Unit {0} → S → Type 0} {E C : S → Type 0} where
  pub Ends-act :
      (x : RestoreError) (f : S → S) (s : S) (fs : List Fault)
      → E s
      → C s
      → R tt (f s)
      → Ends R E C fs (act x f s fs)
  unfolding act
  Ends-act x f s [] e c r = returns [] tt (f s) [] (λ h. h) r
  Ends-act x f s (happens ∷ fs) e c r = returns (happens ∷ fs) tt (f s) fs (λ h. h) r
  Ends-act x f s (fails ∷ fs) e c r = raises (fails ∷ fs) x s fs tt (λ _. tt) e
  Ends-act x f s (stops ∷ fs) e c r = stops_at (stops ∷ fs) s tt c

module _ {S B : Type 0} {Q : B → S → Type 0} {E C : S → Type 0} where
  -- An action and what follows it.
  pub then-act :
      (x : RestoreError) (f : S → S) (s : S) (fs : List Fault) (k : Unit {0} → Exec S B)
      → E s
      → C s
      → ((gs : List Fault) → Ends Q E C gs (k tt (f s) gs))
      → Ends Q E C fs (continue (act x f s fs) k)
  unfolding act continue
  then-act x f s [] k e c r = r []
  then-act x f s (happens ∷ fs) k e c r = Ends-earlier (happens ∷ fs) fs _ (λ h. h) (r fs)
  then-act x f s (fails ∷ fs) k e c r = raises (fails ∷ fs) x s fs tt (λ _. tt) e
  then-act x f s (stops ∷ fs) k e c r = stops_at (stops ∷ fs) s tt c

  pub then-observe :
      (f : S → Bool) (s : S) (fs : List Fault) (k : Bool → Exec S B)
      → E s
      → C s
      → ((gs : List Fault) → Ends Q E C gs (k (f s) s gs))
      → Ends Q E C fs (continue (observe f s fs) k)
  unfolding observe continue
  then-observe f s [] k e c r = r []
  then-observe f s (happens ∷ fs) k e c r = Ends-earlier (happens ∷ fs) fs _ (λ h. h) (r fs)
  then-observe f s (fails ∷ fs) k e c r = raises (fails ∷ fs) io_error s fs tt (λ _. tt) e
  then-observe f s (stops ∷ fs) k e c r = stops_at (stops ∷ fs) s tt c

module _ {S A : Type 0} {R : A → S → Type 0} {E C : S → Type 0} where
  -- A branch on a test.
  pub if-Ends :
      (b : Bool) (m n : Exec S A) (s : S) (fs : List Fault)
      → (b ≡ true → Ends R E C fs (m s fs))
      → (b ≡ false → Ends R E C fs (n s fs))
      → Ends R E C fs ((if b then m else n) s fs)
  if-Ends true m n s fs f g = f refl
  if-Ends false m n s fs f g = g refl

module _ {S T A : Type 0} {R : A → T → Type 0} {E C : T → Type 0} where
  pub Ends-with_state :
      {fs : List Fault} (f : S → T) (o : Outcome S A)
      → Ends (λ a s. R a (f s)) (λ s. E (f s)) (λ s. C (f s)) fs o
      → Ends R E C fs (with_state f o)
  unfolding with_state
  Ends-with_state f _ (returns fs a s gs k e) = returns fs a (f s) gs k e
  Ends-with_state f _ (raises fs x s gs j k e) = raises fs x (f s) gs j k e
  Ends-with_state f _ (stops_at fs s j e) = stops_at fs (f s) j e
