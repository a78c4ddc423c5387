-- ===== src/RelativePath.antt =====
-- crates/octa-cache-protocol/src/path.rs: portable workspace-relative paths.
pub mod Validity
pub mod Containment
pub mod Host
mod Examples
use octa.Common.{
  ℕ, ◌+◌, ◌*◌, Bool, true, false, ◌&&◌, ◌||◌, Option, none, some, List, [], ◌∷◌, ◌++◌, ◌==◌, ltb,
  if◌then◌else◌, any, nat_eq,
}
use octa.Text.{Str, len, is_control, is_empty, str_eq, strip_prefix, starts_with_char, split, join}

abbrev pub max_cache_string_bytes : ℕ
max_cache_string_bytes = 16 * 1024

-- One constructor for each message of `CacheProtocolError::Path`.
pub data PathError : Type 0 where
  empty_path too_long not_portable has_control not_normalized not_utf8 not_relative : PathError

pub data PathResult (A : Type 0) : Type 0 where
  ok : A → PathResult A
  err : PathError → PathResult A

abbrev pub slash : ℕ
slash = b'/'

abbrev pub dot : Str
dot = b'.' ∷ []

abbrev pub dot_dot : Str
dot_dot = b'.' ∷ b'.' ∷ []

-- `value.contains(['\\', ':'])`.
abbrev pub is_backslash_or_colon : ℕ → Bool
is_backslash_or_colon c = c == 0x5c || c == b':'

abbrev pub is_bad_part : Str → Bool
is_bad_part p = is_empty p || (p == dot || p == dot_dot)

unfoldable pub validate : Str → PathResult (Unit {0})
validate value =
    if is_empty value
    then err empty_path
    else if ltb max_cache_string_bytes (len value)
    then err too_long
    else if value == dot
    then ok tt
    else if starts_with_char slash value || any is_backslash_or_colon value
    then err not_portable
    else if any is_control value
    then err has_control
    else if any is_bad_part (split slash value)
    then err not_normalized
    else ok tt

-- A value of this type comes from `new`, `from_path` or `root`.
pub record RelativePath : Type 0 where
  pub text : Str

pub new : Str → PathResult RelativePath
new value = elim (validate value) [ ok _ ↦ ok (record { text = value }) | err e ↦ err e ]

abbrev pub root : RelativePath
root = record { text = dot }

unfoldable pub is_root : RelativePath → Bool
is_root p = p.text == dot

-- `strip_prefix(root).is_some_and(|suffix| suffix.starts_with('/'))`.
abbrev pub is_slash_suffix : Option Str → Bool
is_slash_suffix none = false
is_slash_suffix (some suffix) = starts_with_char slash suffix

unfoldable pub is_within : RelativePath → RelativePath → Bool
is_within p r = is_root r || (p.text == r.text || is_slash_suffix (strip_prefix r.text p.text))

-- `std::path::Component`; a name that is not UTF-8 is `none`.
pub data Component : Type 0 where
  normal : Option Str → Component
  cur_dir parent_dir root_dir prefix : Component

-- The loop of `from_path` over `path.components()`.
pub collect_components : List Component → List Str → PathResult (List Str)
collect_components [] out = ok out
collect_components (normal none ∷ cs) out = err not_utf8
collect_components (normal (some value) ∷ cs) out = collect_components cs (out ++ (value ∷ []))
collect_components (cur_dir ∷ cs) [] = collect_components cs []
collect_components (cur_dir ∷ cs) (o ∷ out) = err not_relative
collect_components (parent_dir ∷ cs) out = err not_relative
collect_components (root_dir ∷ cs) out = err not_relative
collect_components (prefix ∷ cs) out = err not_relative

abbrev pub from_collected : PathResult (List Str) → PathResult RelativePath
from_collected (err e) = err e
from_collected (ok []) = ok root
from_collected (ok (p ∷ ps)) = new (join slash (p ∷ ps))

pub from_path : List Component → PathResult RelativePath
from_path components = from_collected (collect_components components [])
