-- ===== src/Restore/Exec/Loops.antt =====
-- What the loops over the roots do, from what they do with one root.
use octa.Common.{List, [], ◌∷◌}
use octa.Restore.Exec.{Fault, Outcome, returned, raised, stopped, Exec, with_state, each, each_rev}
use octa.Restore.Exec.Ends.{
  Ends, returns, raises, stops_at, at_return, Ends-earlier, Ends-map, Ends-with_state,
}

-- `P` holds of the members of two lists of the same length.
abbrev pub Each : {T S : Type 0} → (T → S → Type 0) → List T → List S → Type 0
Each P [] [] = Unit
Each P [] (r ∷ rs) = ⊥
Each P (t ∷ ts) [] = ⊥
Each P (t ∷ ts) (r ∷ rs) = P t r × Each P ts rs

pub Each-map :
    {T S : Type 0} (P Q : T → S → Type 0) (ts : List T) (rs : List S)
    → ((t : T) (s : S) → P t s → Q t s)
    → Each P ts rs
    → Each Q ts rs
Each-map P Q [] [] f h = tt
Each-map P Q [] (r ∷ rs) f h = elim h [ ]
Each-map P Q (t ∷ ts) [] f h = elim h [ ]
Each-map P Q (t ∷ ts) (r ∷ rs) f h = (f t r h.0, Each-map P Q ts rs f h.1)

-- A loop takes `P` of every member to `Q`; wherever it ends, each member meets `J`.
module _ {T S : Type 0} (P Q J : T → S → Type 0) (body : Exec S (Unit {0})) where
  abbrev pub Turns : Type 0
  Turns = (t : T) (r : S) (fs : List Fault) → P t r → Ends (λ _. Q t) (J t) (J t) fs (body r fs)

  pub Each-each :
      ((t : T) (r : S) → P t r → J t r)
      → ((t : T) (r : S) → Q t r → J t r)
      → Turns
      → (ts : List T) (rs : List S) (fs : List Fault) → Each P ts rs
      → Ends (λ _. Each Q ts) (Each J ts) (Each J ts) fs (each body rs fs)
  unfolding each
  Each-each pj qj b [] [] fs h = at_return tt [] fs tt
  Each-each pj qj b [] (r ∷ rs) fs h = elim h [ ]
  Each-each pj qj b (t ∷ ts) [] fs h = elim h [ ]
  Each-each pj qj b (t ∷ ts) (r ∷ rs) fs h =
      go (body r fs) (b t r fs h.0) λ gs. Each-each pj qj b ts rs gs h.1
    where
      go :
          (o : Outcome S (Unit {0}))
          → Ends (λ _. Q t) (J t) (J t) fs o
          → ((gs : List Fault) → Ends (λ _. Each Q ts) (Each J ts) (Each J ts) gs (each body rs gs))
          → Ends
              (λ _. Each Q (t ∷ ts))
              (Each J (t ∷ ts))
              (Each J (t ∷ ts))
              fs
              (elim o [
                | returned _ q gs ↦ with_state (λ qs. q ∷ qs) (each body rs gs)
                | raised e q gs ↦ raised e (q ∷ rs) gs
                | stopped q ↦ stopped (q ∷ rs)
              ])
      go _ (returns _ a q gs k e) rest = Ends-earlier fs gs _ k (
          Ends-with_state (λ qs. q ∷ qs) _
            (Ends-map _ (λ _ qs l. (e, l)) (λ qs l. (qj t q e, l)) (λ qs l. (qj t q e, l))
              (rest gs)))
      go _ (raises _ x q gs j k e) rest = raises fs x (q ∷ rs) gs j k (e, Each-map P J ts rs pj h.1)
      go _ (stops_at _ q j e) rest = stops_at fs (q ∷ rs) j (e, Each-map P J ts rs pj h.1)

  pub Each-each_rev :
      ((t : T) (r : S) → P t r → J t r)
      → ((t : T) (r : S) → Q t r → J t r)
      → Turns
      → (ts : List T) (rs : List S) (fs : List Fault) → Each P ts rs
      → Ends (λ _. Each Q ts) (Each J ts) (Each J ts) fs (each_rev body rs fs)
  unfolding each_rev
  Each-each_rev pj qj b [] [] fs h = at_return tt [] fs tt
  Each-each_rev pj qj b [] (r ∷ rs) fs h = elim h [ ]
  Each-each_rev pj qj b (t ∷ ts) [] fs h = elim h [ ]
  Each-each_rev pj qj b (t ∷ ts) (r ∷ rs) fs h =
      go (each_rev body rs fs) (Each-each_rev pj qj b ts rs fs h.1)
    where
      go :
          (o : Outcome (List S) (Unit {0}))
          → Ends (λ _. Each Q ts) (Each J ts) (Each J ts) fs o
          → Ends
              (λ _. Each Q (t ∷ ts))
              (Each J (t ∷ ts))
              (Each J (t ∷ ts))
              fs
              (elim o [
                | returned _ qs gs ↦ with_state (λ q. q ∷ qs) (body r gs)
                | raised e qs gs ↦ raised e (r ∷ qs) gs
                | stopped qs ↦ stopped (r ∷ qs)
              ])
      go _ (returns _ a qs gs k e) =
          let later = Each-map Q J ts qs qj e in
          Ends-earlier fs gs _ k (
            Ends-with_state (λ q. q ∷ qs) _
              (Ends-map _ (λ _ q l. (l, e)) (λ q l. (l, later)) (λ q l. (l, later)) (b t r gs h.0)))
      go _ (raises _ x qs gs j k e) = raises fs x (r ∷ qs) gs j k (pj t r h.0, e)
      go _ (stops_at _ qs j e) = stops_at fs (r ∷ qs) j (pj t r h.0, e)

-- A loop over a single member is its body.
pub each_single :
    {S : Type 0} {R : Unit {0} → List S → Type 0} {E C : List S → Type 0} (body : Exec S (Unit {0}))
    (r : S) (fs : List Fault)
    → Ends (λ a q. R a (q ∷ [])) (λ q. E (q ∷ [])) (λ q. C (q ∷ [])) fs (body r fs)
    → Ends R E C fs (each body (r ∷ []) fs)
unfolding each with_state
each_single {S = S} {R = R} {E = E} {C = C} body r fs h = go (body r fs) h
  where
    go :
        (o : Outcome S (Unit {0}))
        → Ends (λ a q. R a (q ∷ [])) (λ q. E (q ∷ [])) (λ q. C (q ∷ [])) fs o
        → Ends R E C fs (elim o [
          | returned _ q gs ↦ returned tt (q ∷ []) gs
          | raised e q gs ↦ raised e (q ∷ []) gs
          | stopped q ↦ stopped (q ∷ [])
        ])
    go _ (returns _ a q gs k e) = returns fs tt (q ∷ []) gs k e
    go _ (raises _ x q gs j k e) = raises fs x (q ∷ []) gs j k e
    go _ (stops_at _ q j e) = stops_at fs (q ∷ []) j e
