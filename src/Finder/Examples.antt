-- ===== src/Finder/Examples.antt =====
-- Patterns and paths as in the unit tests of crates/octa-finder/src/lib.rs, and the theorems at them.
use octa.Common.{ℕ, ◌≡◌, ◌↔◌, ◌++◌, refl, true, false, some, [], ◌∷◌}
use octa.Text.{Str, str_eq, split, join}
use octa.Finder.{
  namespace_path, star, double_star, matches_segments, Octafile, octafile, no_more, includes, colon,
  get_included, cuts, try_cuts, descend_from, find_descendant, find_task, find_segments, find_exact,
}
use octa.Text.Order.{cmp_bytes}
use octa.Finder.Wildcards.{
  result_of, matching_tasks, collect_matching, insert_result, sort_results, find_wildcard,
}
use octa.Finder.Collected.{Has, Listed, find_wildcard_iff}
use octa.Finder.Patterns.{Spells, matches_segments_iff}

abbrev level : Str
level = b'l' ∷ []

abbrev task : Str
task = b't' ∷ []

double_star_spans : matches_segments (double_star ∷ task ∷ []) (level ∷ level ∷ task ∷ []) ≡ true
unfolding matches_segments
double_star_spans = refl

star_is_one : matches_segments (star ∷ task ∷ []) (level ∷ level ∷ task ∷ []) ≡ false
unfolding matches_segments
star_is_one = refl

matches_segments_iff_example :
    (matches_segments (double_star ∷ task ∷ []) (level ∷ level ∷ task ∷ []) ≡ true)
    ↔ Spells (double_star ∷ task ∷ []) (level ∷ level ∷ task ∷ [])
matches_segments_iff_example =
    matches_segments_iff (double_star ∷ task ∷ []) (level ∷ level ∷ task ∷ [])

program : Unit {0}
unfolding matches_segments cmp_bytes matching_tasks collect_matching insert_result sort_results
    find_wildcard split join get_included cuts try_cuts descend_from find_descendant find_task
    find_segments find_exact
program = tt

abbrev area : Str
area = b'a' ∷ []

-- A root with one discovered project, whose key `a:l` covers two segments.
abbrev project : Octafile ℕ
project = octafile (area ∷ level ∷ []) ((task, 5) ∷ []) no_more

abbrev root_file : Octafile ℕ
root_file = octafile [] [] (includes (join colon (area ∷ level ∷ [])) project no_more)

found_project : find_descendant root_file (area ∷ level ∷ []) ≡ some project
unfolding program
found_project = refl

found_task :
    find_exact root_file (join colon (area ∷ level ∷ task ∷ []))
    ≡ some (record { name = join colon (area ∷ level ∷ task ∷ []); file = project; task = 5 })
unfolding program
found_task = refl

-- `**:t` finds the task of the included project.
found_by_pattern :
    find_wildcard root_file (join colon (double_star ∷ task ∷ []))
    ≡ result_of project (task, 5) ∷ []
unfolding program
found_by_pattern = refl

find_wildcard_iff_example :
    Has
      (result_of project (task, 5))
      (find_wildcard root_file (join colon (double_star ∷ task ∷ [])))
    ↔ Listed
        (namespace_path root_file ++ split colon (join colon (double_star ∷ task ∷ [])))
        root_file
        (result_of project (task, 5))
find_wildcard_iff_example =
    find_wildcard_iff root_file (join colon (double_star ∷ task ∷ [])) (result_of project (task, 5))
