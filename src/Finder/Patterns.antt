-- ===== src/Finder/Patterns.antt =====
-- What a pattern means: each of its segments spells a run of the name's segments.
use octa.Common.{
  ◌≡◌, ◌≢◌, ◌↔◌, subst, refl, sym, inl, inr, true, ◌||◌, Bool-cases, List, [], ◌∷◌, ◌++◌, arith,
  ◌==◌, ==_refl,
}
use octa.Text.{Str, str_eq, str_beq_iff}
use octa.Finder.{star, double_star, matches_segments}

-- `**` spells any segments, `*` any one, another segment itself.
pub data Piece : Str → List Str → Type 0 where
  any_run : (cs : List Str) → Piece double_star cs
  any_one : (c : Str) → Piece star (c ∷ [])
  itself : (c : Str) → c ≢ double_star → Piece c (c ∷ [])

pub data Spells : List Str → List Str → Type 0 where
  empty : Spells [] []
  joined :
      (head : Str) (tail : List Str) (run rest : List Str)
      → Piece head run
      → Spells tail rest
      → Spells (head ∷ tail) (run ++ rest)

-- A longer run of `**`.
lengthen :
    (tail : List Str) (c : Str) (cs : List Str)
    → Spells (double_star ∷ tail) cs
    → Spells (double_star ∷ tail) (c ∷ cs)
lengthen tail c cs h = grow double_star cs h refl
  where
    grow :
        (head : Str) (xs : List Str)
        → Spells (head ∷ tail) xs
        → head ≡ double_star
        → Spells (double_star ∷ tail) (c ∷ xs)
    grow _ _ (joined head tail run rest p s) e =
        joined double_star tail (c ∷ run) rest (any_run (c ∷ run)) s

matches-Spells :
    (pattern candidate : List Str)
    → matches_segments pattern candidate ≡ true
    → Spells pattern candidate
unfolding matches_segments
matches-Spells [] [] h = empty
matches-Spells [] (c ∷ cs) h = absurd (ground arith)
matches-Spells (head ∷ tail) [] h = elim (Bool-cases (head == double_star)) [
  | inl e ↦
      subst (λ (s : Str). Spells (s ∷ tail) []) (sym ((str_beq_iff head double_star).0 e))
        (joined double_star tail [] [] (any_run []) (matches-Spells tail [] (ground arith)))
  | inr e ↦ absurd (ground arith)
]
matches-Spells (head ∷ tail) (c ∷ cs) h = elim (Bool-cases (head == double_star)) [
  | inl e ↦
      subst (λ (s : Str). Spells (s ∷ tail) (c ∷ cs)) (sym ((str_beq_iff head double_star).0 e))
        (elim (Bool-cases (matches_segments tail (c ∷ cs))) [
          | inl skip ↦
              joined double_star tail [] (c ∷ cs) (any_run []) (matches-Spells tail (c ∷ cs) skip)
          | inr no_skip ↦ lengthen tail c cs (
              subst (λ (s : Str). Spells (s ∷ tail) cs) ((str_beq_iff head double_star).0 e)
                (matches-Spells (head ∷ tail) cs (ground arith)))
        ])
  | inr e ↦ elim (Bool-cases (head == star)) [
    | inl one ↦
        subst (λ (s : Str). Spells (s ∷ tail) (c ∷ cs)) (sym ((str_beq_iff head star).0 one))
          (joined star tail (c ∷ []) cs (any_one c) (matches-Spells tail cs (ground arith)))
    | inr no_one ↦
        subst (λ (s : Str). Spells (head ∷ tail) (s ∷ cs)) ((str_beq_iff head c).0 (ground arith))
          (joined head tail (head ∷ []) cs
            (itself head (λ same. absurd (ground (arith, str_beq_iff head double_star))))
            (matches-Spells tail cs (ground arith)))
  ]
]

run_lem :
    (tail run rest : List Str)
    → matches_segments tail rest ≡ true
    → matches_segments (double_star ∷ tail) (run ++ rest) ≡ true
unfolding matches_segments
run_lem tail [] [] h = ground arith
run_lem tail [] (c ∷ cs) h = ground arith
run_lem tail (c ∷ run) rest h = ground (arith, run_lem tail run rest h)

one_lem :
    (tail : List Str) (head c : Str) (rest : List Str)
    → head ≢ double_star
    → (head == star || head == c) ≡ true
    → matches_segments tail rest ≡ true
    → matches_segments (head ∷ tail) (c ∷ rest) ≡ true
unfolding matches_segments
one_lem tail head c rest n e h = ground (arith, str_beq_iff head double_star)

piece_lem :
    (head : Str) (tail run rest : List Str)
    → Piece head run
    → matches_segments tail rest ≡ true
    → matches_segments (head ∷ tail) (run ++ rest) ≡ true
piece_lem _ tail _ rest (any_run run) h = run_lem tail run rest h
piece_lem _ tail _ rest (any_one c) h = one_lem tail star c rest (λ e. absurd (ground arith)) refl h
piece_lem _ tail _ rest (itself c n) h = one_lem tail c c rest n (ground (arith, ==_refl c)) h

Spells-matches :
    (pattern candidate : List Str)
    → Spells pattern candidate
    → matches_segments pattern candidate ≡ true
unfolding matches_segments
Spells-matches _ _ empty = refl
Spells-matches _ _ (joined head tail run rest p s) =
    piece_lem head tail run rest p (Spells-matches tail rest s)

-- `matches_segments` decides whether the pattern spells the candidate.
pub matches_segments_iff :
    (pattern candidate : List Str)
    → (matches_segments pattern candidate ≡ true) ↔ Spells pattern candidate
matches_segments_iff pattern candidate =
    (matches-Spells pattern candidate, Spells-matches pattern candidate)
