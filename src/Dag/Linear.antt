-- ===== src/Dag/Linear.antt =====
-- `is_linear`: whether every step of the topological order has at most one runnable node.
use octa.Common.{
  ℕ, zero, suc, ◌+◌, ◌<◌, String, ◌≡◌, ◌↔◌, List, [], ◌∷◌, arith, ◌==◌, string_eq, nat_eq, ==_iff,
  ==_refl, count, length, length-le_of_count, length-map, Bool, true, false, inl, inr, Bool-cases,
  ◌++◌, length-append, count-append,
}
use native.Mathlib.Numerals.{add-one}
use octa.Dag.{Identifiable, Dag, ok, Degrees, linear_loop, is_linear, node_count}
use octa.Dag.Edges.{ids}
use octa.Dag.Sort.{IsGraph, Inv, Inv-Bounded, step-Inv, queued_sources, queued_fresh}
use octa.Dag.Cycles.{IsWellFormed, Walk, start-Inv, some-Walk, all_popped, popped-le, Walk-rank}
use octa.Dag.Lines.{LinksTo, IsPath, IsLine, queued-Edge, Ready, one-Ready}

module _ {T : Type 0} (I : Identifiable T) where
  open I use {id}

  module _ (names : List String) (es : List (String × List T)) (g : IsGraph I names es) where
    abbrev LineDecides : Bool → Type 0
    LineDecides true = (p : List String) × IsLine I names es p
    LineDecides false = (p : List String) → ¬ IsLine I names es p

    all_visited :
        (popped : List String) (m : Degrees)
        → Inv I names es popped m []
        → length popped ≡ length names
        → IsPath I es popped
        → IsLine I names es popped
    all_visited popped m inv full path = record {
      path = path;
      topological = inv.topological;
      members = λ v. ground (
        arith,
        popped-le I names es g popped m inv v,
        all_popped I names es g popped m inv full v,
        g.distinct v,
      );
    }

    line_acyclic : (p : List String) → IsLine I names es p → (v : String) → ¬ Walk I es v v
    line_acyclic p line v walk = absurd (
        omega (
          arith,
          Walk-rank I es p line.topological (λ x. omega (arith, line.members x, g.distinct x))
              (λ x y edge. omega (arith, line.members y, g.targets x y edge)) walk,
        ))

    swap-Inv :
        (popped : List String) (m : Degrees) (a b : String) (rest : List String)
        → Inv I names es popped m (a ∷ b ∷ rest)
        → Inv I names es popped m (b ∷ a ∷ rest)
    swap-Inv popped m a b rest inv = record {
      relaxed = record {
        degrees = inv.relaxed.degrees;
        queued = λ v. omega (arith, inv.relaxed.queued v);
      };
      topological = inv.topological;
    }

    queued-Ready :
        (popped : List String) (m : Degrees) (a : String) (rest : List String)
        → Inv I names es popped m (a ∷ rest)
        → Ready I names es g popped a
    queued-Ready popped m a rest inv = (
      queued_fresh I names es g popped m a rest inv,
      queued_sources I names es g popped m a rest inv,
    )

    two_queued :
        (popped : List String) (m : Degrees) (a b : String) (rest : List String)
        → Inv I names es popped m (a ∷ b ∷ rest)
        → (p : List String) → ¬ IsLine I names es p
    two_queued popped m a b rest inv p line =
        let within = λ (v : String). Inv-Bounded I names es g inv v in
        let counted = λ (v : String). count-append v (a ∷ b ∷ rest) popped in
        one-Ready I names es g popped inv.topological a b p line.path
          (queued-Ready popped m a (b ∷ rest) inv)
          (queued-Ready popped m b (a ∷ rest) (swap-Inv popped m a b rest inv))
          (λ e. ground (arith, e, within a, counted a, g.distinct a, ==_iff b a, ==_refl a))
          (ground (arith, line.members a, within a, counted a, ==_refl a))
          (ground (arith, line.members b, within b, counted b, ==_refl b))

    linear_loop_lem :
        (fuel : ℕ) (popped : List String) (m : Degrees) (queue : List String)
        → length names < fuel + length popped
        → Inv I names es popped m queue
        → IsPath I es popped
        → ((v : String) → 0 < count v queue → LinksTo I es v popped)
        → (b : Bool) × (linear_loop I fuel (length names) es m queue (length popped) ≡ ok b)
          × LineDecides b
    unfolding linear_loop
    linear_loop_lem zero popped m queue h inv path links = absurd (
        omega (
          arith,
          length-append queue popped,
          length-le_of_count (queue ++ popped) names (Inv-Bounded I names es g inv),
        ))
    linear_loop_lem (suc fuel) popped m [] h inv path links =
        elim (Bool-cases (length popped == length names)) [
          | inl full ↦ (
            true,
            rw full,
            (
              popped,
              all_visited popped m inv ((==_iff (length popped) (length names)).0 full) path,
            ),
          )
          | inr fewer ↦
              let (v, walk) =
                some-Walk I names es g popped m inv
                  (λ e. ground (arith, e, fewer, ==_iff (length popped) (length names))) in
              (false, rw fewer, λ p line. line_acyclic p line v walk)
        ]
    linear_loop_lem (suc fuel) popped m (a ∷ b ∷ rest) h inv path links =
        (false, ground arith, two_queued popped m a b rest inv)
    linear_loop_lem (suc fuel) popped m (node ∷ []) h inv path links =
        let (m', queue', e, inv') = step-Inv I names es g popped m node [] inv in
        let (b, r, answer) =
          linear_loop_lem fuel (node ∷ popped) m' queue' (omega arith) inv'
            (links node (ground (arith, ==_refl node)), path)
            (queued-Edge I names es g popped m m' node queue' inv inv') in
        (b, rw (e, add-one (length popped)) r, answer)

  IsLine-iff :
      (d : Dag T) (b : Bool)
      → (g : IsWellFormed I d) → is_linear I d ≡ ok b
      → LineDecides (ids id d.nodes) d.edges g b
      → (is_linear I d ≡ ok true) ↔ ((p : List String) × IsLine I (ids id d.nodes) d.edges p)
  IsLine-iff d true g e h = (λ _. h, λ _. e)
  IsLine-iff d false g e h = (λ e'. cc, λ (p, line). absurd (h p line))

  -- On a well-formed graph `is_linear` answers true exactly when all nodes, each once, lie on one
  -- path along edges that is also a topological order.
  pub is_linear-true_iff :
      (d : Dag T)
      → IsWellFormed I d
      → (is_linear I d ≡ ok true) ↔ ((p : List String) × IsLine I (ids id d.nodes) d.edges p)
  unfolding is_linear node_count
  is_linear-true_iff d g =
      let (m, queue, e, r, inv) = start-Inv I d g in
      let (b, s, answer) =
        linear_loop_lem (ids id d.nodes) d.edges g (suc (length (ids id d.nodes))) [] m queue
          (omega arith) inv tt (λ v h. tt) in
      IsLine-iff d b g (rw (e, r, ← length-map id d.nodes) s) answer
