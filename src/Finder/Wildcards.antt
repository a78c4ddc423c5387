-- ===== src/Finder/Wildcards.antt =====
-- The wildcard search of crates/octa-finder/src/lib.rs: `collect_matching`, and the part of
-- `find_by_path` that sorts its results by name. The order of a list of included files stands for
-- the order in which a hash map yields them.
use octa.Common.{List, [], ◌∷◌, ◌++◌, if◌then◌else◌}
use Prim.Native.Nat.{Ordering}
use octa.Text.{Str, split, join}
use octa.Text.Order.{cmp_bytes}
use octa.Finder.{
  Octafile, octafile, Included, no_more, includes, namespace_path, colon, FindResult,
  matches_segments,
}

module _ {T : Type 0} where
  abbrev pub result_of : Octafile T → Str × T → FindResult T
  result_of file entry = record {
    name = join colon (namespace_path file ++ entry.0 ∷ []);
    file = file;
    task = entry.1;
  }

  -- The loop over the tasks of one file.
  unfoldable pub matching_tasks : List Str → Octafile T → List (Str × T) → List (FindResult T)
  matching_tasks pattern file [] = []
  matching_tasks pattern file (entry ∷ tasks) =
      let rest = matching_tasks pattern file tasks in
      if matches_segments pattern (namespace_path file ++ entry.0 ∷ [])
      then result_of file entry ∷ rest
      else rest

  unfoldable mutual
    pub collect_matching : List Str → Octafile T → List (FindResult T)
    collect_matching pattern (octafile namespace tasks included) =
        matching_tasks pattern (octafile namespace tasks included) tasks
        ++ collect_included pattern included

    pub collect_included : List Str → Included T → List (FindResult T)
    collect_included pattern no_more = []
    collect_included pattern (includes name file rest) =
        collect_matching pattern file ++ collect_included pattern rest

  -- `sort_by` on the names.
  unfoldable pub insert_result : FindResult T → List (FindResult T) → List (FindResult T)
  insert_result r [] = r ∷ []
  insert_result r (q ∷ qs) =
      let rest = q ∷ insert_result r qs in
      elim (cmp_bytes r.name q.name) [ Ordering.gt ↦ rest | _ ↦ r ∷ q ∷ qs ]

  unfoldable pub sort_results : List (FindResult T) → List (FindResult T)
  sort_results [] = []
  sort_results (r ∷ rs) = insert_result r (sort_results rs)

  -- `find_by_path` for a path with a wildcard, from the file that its leading colons select.
  unfoldable pub find_wildcard : Octafile T → Str → List (FindResult T)
  find_wildcard current path =
      sort_results (collect_matching (namespace_path current ++ split colon path) current)
