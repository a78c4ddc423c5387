-- ===== src/OutputRoots/Examples.antt =====
-- Output roots of a small task, and the theorems at them.
use Prim.Native.Char.{code}
use Prim.Native.String.{String}
use octa.Common.{false, List, [], ◌∷◌, ◌≡◌, ◌≢◌, ◌↔◌, refl, All}
use octa.Text.{Str, str_eq, strip_prefix, split}
use octa.Text.Order.{cmp_bytes}
use octa.RelativePath.{RelativePath, is_root}
use octa.OutputRoots.{
  ok, err, overlap, cmp_parts, compare_paths, insert_sorted, sort_paths, ancestors, first_seen,
  check_root, check_roots, contains_path, validate_output_roots,
}
use octa.OutputRoots.Overlap.{AllApart, validate_output_roots_iff}

abbrev codes : String → Str
codes String.[] = []
codes (String.◌∷◌ c s) = code c ∷ codes s

abbrev path : String → RelativePath
path s = record { text = codes s }

program : Unit {0}
unfolding strip_prefix split cmp_bytes is_root cmp_parts compare_paths insert_sorted sort_paths
    ancestors first_seen check_root check_roots contains_path validate_output_roots
program = tt

abbrev apart_roots : List RelativePath
apart_roots = path "out" ∷ path "dist/b" ∷ path "dist-a" ∷ path "dist/a" ∷ []

sorted_roots :
    validate_output_roots apart_roots
    ≡ ok (path "dist/a" ∷ path "dist/b" ∷ path "dist-a" ∷ path "out" ∷ [])
unfolding program
sorted_roots = refl

refused_roots :
    validate_output_roots (path "dist/a" ∷ path "dist" ∷ [])
    ≡ err (overlap (codes "dist") (codes "dist/a"))
unfolding program
refused_roots = refl

validate_output_roots_iff_example :
    (validate_output_roots apart_roots ≡ ok (sort_paths apart_roots)) ↔ (
      (apart_roots ≢ [])
      × (sort_paths apart_roots ≡ sort_paths apart_roots)
      × All (λ r. is_root r ≡ false) (sort_paths apart_roots)
      × AllApart (sort_paths apart_roots))
validate_output_roots_iff_example = validate_output_roots_iff apart_roots (sort_paths apart_roots)
