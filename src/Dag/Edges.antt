-- ===== src/Dag/Edges.antt =====
-- The edges of a graph seen as multiplicities of target ids, and what is left of them when some
-- sources are taken away.
use octa.Common.{
  ℕ, ◌+◌, ◌<◌, String, ◌≡◌, refl, Option, none, some, List, [], ◌∷◌, map, arith, ◌==◌, string_eq,
  nat_eq, ==_iff, ==_refl, if◌then◌else◌, count, lookup, remove, lookup-remove, KeysDistinct,
  remove_absent, remove-KeysDistinct, inl, inr, Bool-cases, ltb, ltb→lt,
}

module _ {T : Type 0} (id : T → String) where
  abbrev pub ids : List T → List String
  ids = map id

  -- How many edges point at `v`.
  abbrev pub in_degree : String → List (String × List T) → ℕ
  in_degree v [] = 0
  in_degree v ((k, ns) ∷ es) = count v (ids ns) + in_degree v es

  abbrev pub targets_of : Option (List T) → List String
  targets_of none = []
  targets_of (some ns) = ids ns

  pub in_degree-lookup :
      (v k : String) (es : List (String × List T))
      → KeysDistinct es
      → in_degree v es ≡ count v (targets_of (lookup k es)) + in_degree v (remove k es)
  unfolding remove
  in_degree-lookup v k [] h = omega arith
  in_degree-lookup v k ((j, ns) ∷ es) h =
      ground (arith, in_degree-lookup v k es h.1, remove_absent k es, ==_iff j k)

  -- An edge into `v` that is counted has a source.
  pub in_degree_source :
      (v : String) (es : List (String × List T))
      → KeysDistinct es
      → 0 < in_degree v es
      → (k : String) × (0 < count v (targets_of (lookup k es)))
  in_degree_source v [] h p = absurd (omega arith)
  in_degree_source v ((j, ns) ∷ es) h p = elim (Bool-cases (ltb 0 (count v (ids ns)))) [
    | inl here ↦ (j, rw (==_refl j) (ltb→lt _ _ here))
    | inr gone ↦
        let (k, q) = in_degree_source v es h.1 (ground arith) in (k, ground (arith, ==_iff j k))
  ]

module _ {T : Type 0} where
  -- The edges whose source is not in the list.
  unfoldable pub remaining : List String → List (String × List T) → List (String × List T)
  remaining [] es = es
  remaining (k ∷ ks) es = remove k (remaining ks es)

  pub remaining-KeysDistinct :
      (ks : List String) (es : List (String × List T))
      → KeysDistinct es
      → KeysDistinct (remaining ks es)
  unfolding remaining
  remaining-KeysDistinct [] es h = h
  remaining-KeysDistinct (k ∷ ks) es h = remove-KeysDistinct k _ (remaining-KeysDistinct ks es h)

  pub lookup-remaining :
      (k : String) (ks : List String) (es : List (String × List T))
      → lookup k (remaining ks es) ≡ (if count k ks == 0 then lookup k es else none)
  unfolding remaining
  lookup-remaining k [] es = refl
  lookup-remaining k (j ∷ ks) es =
      ground (arith, lookup-remove j k (remaining ks es), lookup-remaining k ks es)
