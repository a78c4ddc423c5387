-- ===== src/RelativePath/Host.antt =====
-- `from_path`: a host path keeps its names.
use octa.Common.{
  ◌≤◌, some, List, [], ◌∷◌, ◌++◌, ◌≡◌, refl, ap, ◌∙◌, subst, arith, map, All, All-map,
}
use mathlib.Core.List.{append-nil, append_assoc}
use octa.Text.{Str, len, join}
use octa.Text.Split.{Free, split-join}
use octa.RelativePath.{
  RelativePath, PathResult, ok, err, max_cache_string_bytes, slash, validate, new, Component,
  normal, cur_dir, collect_components, from_collected, from_path, root,
}
use octa.RelativePath.Validity.{IsName, IsPath, names_valid, root_valid, validate_iff}
use octa.RelativePath.Containment.{parts}

abbrev pub as_component : Str → Component
as_component p = normal (some p)

collect_names :
    (names out : List Str) → collect_components (map as_component names) out ≡ ok (out ++ names)
unfolding collect_components
collect_names [] out = rw (append-nil out)
collect_names (p ∷ ps) out =
    collect_names ps (out ++ (p ∷ [])) ∙ ap ok (append_assoc out (p ∷ []) ps)

-- A relative host path of file names, with or without a leading `.`, is accepted within the size
-- limit, and the result has these names.
pub from_path_names :
    (p : Str) (ps : List Str)
    → len (join slash (p ∷ ps)) ≤ max_cache_string_bytes
    → All IsName (p ∷ ps)
    → (r : RelativePath) × (from_path (map as_component (p ∷ ps)) ≡ ok r)
      × (from_path (cur_dir ∷ map as_component (p ∷ ps)) ≡ ok r)
      × (parts r ≡ p ∷ ps)
from_path_names p ps size names = (r, accepted, accepted_dot, split_back)
  where
    r : RelativePath
    r = record { text = join slash (p ∷ ps) }

    made : new (join slash (p ∷ ps)) ≡ ok r
    made = unfold new in rw (names_valid p ps size names, new)

    accepted : from_path (map as_component (p ∷ ps)) ≡ ok r
    accepted = unfold from_path in rw (collect_names (p ∷ ps) []) made

    accepted_dot : from_path (cur_dir ∷ map as_component (p ∷ ps)) ≡ ok r
    accepted_dot = unfold from_path collect_components in rw (collect_names ps (p ∷ [])) made

    split_back : parts r ≡ p ∷ ps
    split_back = split-join slash p ps (All-map IsName (Free slash) (p ∷ ps) (λ q n. n.3) names)

new-IsPath : (value : Str) (r : RelativePath) → new value ≡ ok r → IsPath r.text
unfolding new
new-IsPath value r h = go (validate value) refl
  where
    go : (x : PathResult (Unit {0})) → validate value ≡ x → IsPath r.text
    go (ok u) e =
        let same : value ≡ r.text = ground (arith, h, e) in
        subst IsPath same ((validate_iff value).0 e)
    go (err x) e = absurd (ground (arith, h, e))

from_collected-IsPath :
    (x : PathResult (List Str)) (r : RelativePath) → from_collected x ≡ ok r → IsPath r.text
from_collected-IsPath (err e) r h = cc
from_collected-IsPath (ok []) r h =
    let same : root.text ≡ r.text = cc in subst IsPath same ((validate_iff root.text).0 root_valid)
from_collected-IsPath (ok (p ∷ ps)) r h = new-IsPath (join slash (p ∷ ps)) r h

-- Whatever `from_path` accepts is a path.
pub from_path-IsPath :
    (components : List Component) (r : RelativePath) → from_path components ≡ ok r → IsPath r.text
unfolding from_path
from_path-IsPath components r h = from_collected-IsPath (collect_components components []) r h
