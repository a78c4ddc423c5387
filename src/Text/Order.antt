-- ===== src/Text/Order.antt =====
-- The lexicographic order of byte strings. Code points stand for bytes: UTF-8 keeps their order.
use Prim.Native.Nat.{compare, Ordering}
use octa.Common.{◌≡◌, refl, [], ◌∷◌, arith}
use octa.Text.{Str}

-- `<[u8]>::cmp`.
unfoldable pub cmp_bytes : Str → Str → Ordering
cmp_bytes [] [] = Ordering.eq
cmp_bytes [] (d ∷ t) = Ordering.lt
cmp_bytes (c ∷ s) [] = Ordering.gt
cmp_bytes (c ∷ s) (d ∷ t) =
    let rest = cmp_bytes s t in
    elim (compare c d) [
      | Ordering.lt ↦ Ordering.lt
      | Ordering.gt ↦ Ordering.gt
      | Ordering.eq ↦ rest
    ]

abbrev pub swap : Ordering → Ordering
swap Ordering.lt = Ordering.gt
swap Ordering.eq = Ordering.eq
swap Ordering.gt = Ordering.lt

pub cmp_bytes_refl : (s : Str) → cmp_bytes s s ≡ Ordering.eq
unfolding cmp_bytes
cmp_bytes_refl [] = refl
cmp_bytes_refl (c ∷ s) = ground (arith, cmp_bytes_refl s)

pub cmp_bytes-eq : (s t : Str) → cmp_bytes s t ≡ Ordering.eq → s ≡ t
unfolding cmp_bytes
cmp_bytes-eq [] [] h = refl
cmp_bytes-eq [] (d ∷ t) h = cc
cmp_bytes-eq (c ∷ s) [] h = cc
cmp_bytes-eq (c ∷ s) (d ∷ t) h = ground (arith, cmp_bytes-eq s t)

pub cmp_bytes-swap : (s t : Str) → cmp_bytes t s ≡ swap (cmp_bytes s t)
unfolding cmp_bytes
cmp_bytes-swap [] [] = refl
cmp_bytes-swap [] (d ∷ t) = refl
cmp_bytes-swap (c ∷ s) [] = refl
cmp_bytes-swap (c ∷ s) (d ∷ t) = ground (arith, cmp_bytes-swap s t)

pub cmp_bytes_trans :
    (s t u : Str)
    → cmp_bytes s t ≡ Ordering.lt
    → cmp_bytes t u ≡ Ordering.lt
    → cmp_bytes s u ≡ Ordering.lt
unfolding cmp_bytes
cmp_bytes_trans [] [] u h k = cc
cmp_bytes_trans [] (d ∷ t) [] h k = cc
cmp_bytes_trans [] (d ∷ t) (e ∷ u) h k = refl
cmp_bytes_trans (c ∷ s) [] u h k = cc
cmp_bytes_trans (c ∷ s) (d ∷ t) [] h k = cc
cmp_bytes_trans (c ∷ s) (d ∷ t) (e ∷ u) h k = ground (arith, cmp_bytes_trans s t u)
