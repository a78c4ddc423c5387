-- ===== src/Finder.antt =====
-- crates/octa-finder/src/lib.rs: tasks found by their path, and the names that a search pattern
-- selects. A task file is a tree of included files; the names, the tasks and the included files are
-- read under a lock that is never poisoned, so reading them does not fail. The loading of the files
-- is not modelled.
mod Patterns
mod Descendants
mod Wildcards
mod Collected
mod Examples
use octa.Common.{
  ℕ, zero, suc, ◌++◌, map, Option, none, some, any, length, lookup, Bool, true, false, ◌&&◌, ◌||◌,
  List, [], ◌∷◌, ◌==◌, if◌then◌else◌,
}
use octa.Text.{Str, str_eq, split, join, is_empty}

abbrev pub star : Str
star = b'*' ∷ []

abbrev pub double_star : Str
double_star = b'*' ∷ b'*' ∷ []

-- Segments of a qualified name, which `:` separates.
unfoldable pub matches_segments : List Str → List Str → Bool
matches_segments [] [] = true
matches_segments [] (c ∷ cs) = false
matches_segments (head ∷ tail) [] =
    let rest = matches_segments tail [] in if head == double_star then rest else false
matches_segments (head ∷ tail) (c ∷ cs) =
    let skip = matches_segments tail (c ∷ cs) in
    let take = matches_segments (head ∷ tail) cs in
    let rest = matches_segments tail cs in
    if head == double_star then skip || take else (head == star || head == c) && rest

-- `Octafile`, with tasks of any type `T`.
mutual
  pub data Octafile (T : Type 0) : Type 0 where
    octafile : (namespace : List Str) (tasks : List (Str × T)) (included : Included T) → Octafile T

  pub data Included (T : Type 0) : Type 0 where
    no_more : Included T
    includes : (name : Str) (file : Octafile T) (rest : Included T) → Included T

abbrev pub colon : ℕ
colon = b':'

abbrev pub namespace_path : {T : Type 0} → Octafile T → List Str
namespace_path (octafile namespace tasks included) = namespace

abbrev pub tasks_of : {T : Type 0} → Octafile T → List (Str × T)
tasks_of (octafile namespace tasks included) = tasks

abbrev pub included_of : {T : Type 0} → Octafile T → Included T
included_of (octafile namespace tasks included) = included

-- `Octafile::get_included`.
unfoldable pub get_included : {T : Type 0} → Included T → Str → Option (Octafile T)
get_included no_more name = none
get_included (includes key file rest) name =
    let later = get_included rest name in if key == name then some file else later

pub record FindResult (T : Type 0) : Type 0 where
  pub name : Str
  pub file : Octafile T
  pub task : T

-- The ways to cut off a first part that is not empty, the longest first: `(1..=len).rev()`.
unfoldable pub cuts : List Str → List (List Str × List Str)
cuts [] = []
cuts (s ∷ segments) =
    map (λ (cut : List Str × List Str). (s ∷ cut.0, cut.1)) (cuts segments)
    ++ (s ∷ [], segments) ∷ []

-- The loop of `find_descendant` over the cuts; `descend` is the call for an included file.
unfoldable pub try_cuts :
    {T : Type 0}
    → (Octafile T → List Str → Option (Octafile T))
    → Included T
    → List (List Str × List Str)
    → Option (Octafile T)
try_cuts descend included [] = none
try_cuts descend included ((first, rest) ∷ more) =
    let later = try_cuts descend included more in
    elim (get_included included (join colon first)) [
      | none ↦ later
      | some file ↦ elim (descend file rest) [ some found ↦ some found | none ↦ later ]
    ]

-- Each call cuts off at least one segment, so the number of segments is fuel enough.
unfoldable pub descend_from : {T : Type 0} → ℕ → Octafile T → List Str → Option (Octafile T)
descend_from fuel file [] = some file
descend_from zero file (s ∷ segments) = none
descend_from (suc fuel) file (s ∷ segments) =
    try_cuts (descend_from fuel) (included_of file) (cuts (s ∷ segments))

unfoldable pub find_descendant : {T : Type 0} → Octafile T → List Str → Option (Octafile T)
find_descendant file namespace = descend_from (length namespace) file namespace

-- `split_last`.
abbrev pub split_last : List Str → Option (Str × List Str)
split_last [] = none
split_last (s ∷ []) = some (s, [])
split_last (s ∷ t ∷ segments) = elim (split_last (t ∷ segments)) [
  | none ↦ none
  | some x ↦ some (x.0, s ∷ x.1)
]

unfoldable pub find_task : {T : Type 0} → Str → Option (Octafile T) → Option (FindResult T)
find_task task_name none = none
find_task task_name (some file) = elim (lookup task_name (tasks_of file)) [
  | none ↦ none
  | some task ↦ some (record {
    name = join colon (namespace_path file ++ task_name ∷ []);
    file = file;
    task = task;
  })
]

unfoldable pub find_segments :
    {T : Type 0} → Octafile T → Option (Str × List Str) → Option (FindResult T)
find_segments file none = none
find_segments file (some x) =
    if is_empty x.0 || any is_empty x.1 then none else find_task x.0 (find_descendant file x.1)

unfoldable pub find_exact : {T : Type 0} → Octafile T → Str → Option (FindResult T)
find_exact file path = find_segments file (split_last (split colon path))
