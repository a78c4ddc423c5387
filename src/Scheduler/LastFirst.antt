-- ===== src/Scheduler/LastFirst.antt =====
-- The order of the deferred actions: the last declared first, and each of them.
use octa.Common.{
  ℕ, ◌+◌, if◌then◌else◌, string_eq, ◌==◌, String, ◌≤◌, ◌≡◌, ◌↔◌, ◌⊎◌, refl, subst, Bool, Bool-cases,
  inl, inr, List, [], ◌∷◌, arith, nat_eq, leb, leb→le, filter, Mem, Mem-of_filter,
}
use octa.Scheduler.Deferred.{Action, insert_action, sort_actions}

Mem-past :
    (x y z : Action) (us ys : List Action)
    → (Mem z us ↔ ((x ≡ z) ⊎ Mem z ys))
    → Mem z (y ∷ us) ↔ ((x ≡ z) ⊎ Mem z (y ∷ ys))
Mem-past x y z us ys rest = (there, back)
  where
    there : Mem z (y ∷ us) → (x ≡ z) ⊎ Mem z (y ∷ ys)
    there (inl q) = inr (inl q)
    there (inr m) = elim (rest.0 m) [ inl q ↦ inl q | inr k ↦ inr (inr k) ]

    back : (x ≡ z) ⊎ Mem z (y ∷ ys) → Mem z (y ∷ us)
    back (inl q) = inr (rest.1 (inl q))
    back (inr (inl q)) = inl q
    back (inr (inr m)) = inr (rest.1 (inr m))

Mem-insert_action :
    (x z : Action) (ys : List Action) → Mem z (insert_action x ys) ↔ ((x ≡ z) ⊎ Mem z ys)
unfolding insert_action
Mem-insert_action x z [] = (λ m. m, λ m. m)
Mem-insert_action x z (y ∷ ys) = elim (Bool-cases (leb y.1.order x.1.order)) [
  | inl e ↦ rw e (λ m. m, λ m. m)
  | inr e ↦ rw e (Mem-past x y z _ ys (Mem-insert_action x z ys))
]

pub Mem-sort_actions : (z : Action) (xs : List Action) → Mem z (sort_actions xs) ↔ Mem z xs
unfolding sort_actions
Mem-sort_actions z [] = (λ m. m, λ m. m)
Mem-sort_actions z (x ∷ xs) =
    let i = Mem-insert_action x z (sort_actions xs) in
    let rest = Mem-sort_actions z xs in
    (
      λ m. elim (i.0 m) [ inl q ↦ inl q | inr k ↦ inr (rest.0 k) ],
      λ m. i.1 (elim m [ inl q ↦ inl q | inr k ↦ inr (rest.1 k) ]),
    )

-- The action declared last comes first.
abbrev pub LastFirst : List Action → Type 0
LastFirst [] = Unit
LastFirst (x ∷ xs) = ((y : Action) → Mem y xs → y.1.order ≤ x.1.order) × LastFirst xs

insert_action-LastFirst :
    (x : Action) (ys : List Action) → LastFirst ys → LastFirst (insert_action x ys)
unfolding insert_action
insert_action-LastFirst x [] h = (λ y m. elim m [ ], tt)
insert_action-LastFirst x (y ∷ ys) h = elim (Bool-cases (leb y.1.order x.1.order)) [
  | inl e ↦ rw e (first (leb→le _ _ e), h)
  | inr e ↦ rw e (past (ground (arith, e)), insert_action-LastFirst x ys h.1)
]
  where
    first : y.1.order ≤ x.1.order → (z : Action) → Mem z (y ∷ ys) → z.1.order ≤ x.1.order
    first le z (inl q) = subst (λ (w : Action). w.1.order ≤ x.1.order) q le
    first le z (inr m) = omega (arith, h.0 z m, le)

    past : x.1.order ≤ y.1.order → (z : Action) → Mem z (insert_action x ys) → z.1.order ≤ y.1.order
    past le z m = elim ((Mem-insert_action x z ys).0 m) [
      | inl q ↦ subst (λ (w : Action). w.1.order ≤ y.1.order) q le
      | inr k ↦ h.0 z k
    ]

pub sort_actions-LastFirst : (xs : List Action) → LastFirst (sort_actions xs)
unfolding sort_actions
sort_actions-LastFirst [] = tt
sort_actions-LastFirst (x ∷ xs) = insert_action-LastFirst x _ (sort_actions-LastFirst xs)

pub filter-LastFirst :
    (q : Action → Bool) (xs : List Action) → LastFirst xs → LastFirst (filter q xs)
filter-LastFirst q [] h = tt
filter-LastFirst q (x ∷ xs) h = elim (Bool-cases (q x)) [
  | inl e ↦ rw e (λ y m. h.0 y (Mem-of_filter q y xs m).0, filter-LastFirst q xs h.1)
  | inr e ↦ rw e (filter-LastFirst q xs h.1)
]

-- How often actions have this name.
abbrev pub times : String → List Action → ℕ
times k [] = 0
times k (x ∷ xs) = (if x.0 == k then 1 else 0) + times k xs

times-insert_action :
    (k : String) (x : Action) (xs : List Action) → times k (insert_action x xs) ≡ times k (x ∷ xs)
unfolding insert_action
times-insert_action k x [] = refl
times-insert_action k x (y ∷ ys) =
    ground (arith, times-insert_action k x ys, Bool-cases (leb y.1.order x.1.order))

pub times-sort_actions : (k : String) (xs : List Action) → times k (sort_actions xs) ≡ times k xs
unfolding sort_actions
times-sort_actions k [] = refl
times-sort_actions k (x ∷ xs) =
    omega (arith, times-insert_action k x (sort_actions xs), times-sort_actions k xs)

pub times-filter :
    (q : Action → Bool) (k : String) (xs : List Action) → times k (filter q xs) ≤ times k xs
times-filter q k [] = omega arith
times-filter q k (x ∷ xs) = ground (arith, times-filter q k xs, Bool-cases (q x))
