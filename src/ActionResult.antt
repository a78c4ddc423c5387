-- ===== src/ActionResult.antt =====
-- crates/octa-cache-protocol/src/result.rs: the metadata of a cached result and its validation
-- (`ActionResultV1::validate`), with the bounded counter that measures its serialized form.
-- A `serde_json::Value` is of any type `V`; what serde makes of a result is a parameter.
mod Measure
pub mod Equal
mod Validity
mod Examples
use octa.Common.{
  ℕ, ◌+◌, Bool, true, false, not, ◌||◌, Option, none, some, List, [], ◌∷◌, ◌==◌, nat_eq, ltb, leb,
  if◌then◌else◌, length, any,
}
use octa.Text.{Str, len, is_control, is_empty}
use octa.RelativePath.{RelativePath, is_root, max_cache_string_bytes}
use octa.Digest.{DigestAlgorithm, blake3, Digest}
use octa.BlobDescriptor.{
  BlobDescriptor, algorithm_beq, ValidateError, ValidateResult, validate_blob,
}

abbrev pub action_result_version_v1 : ℕ
action_result_version_v1 = 1

abbrev pub max_cache_list_items : ℕ
max_cache_list_items = 4096

abbrev pub max_action_result_metadata_bytes : ℕ
max_action_result_metadata_bytes = 4194304

abbrev pub max_action_result_wire_bytes : ℕ
max_action_result_wire_bytes = 4259840

-- `usize::MAX + 1`.
abbrev pub usize_range : ℕ
usize_range = 18446744073709551616

pub record CachedArtifact : Type 0 where
  pub name : Str
  pub path : RelativePath
  pub content_type : Option Str

pub record CachedReport : Type 0 where
  pub name : Str
  pub path : RelativePath
  pub format : Str

pub record ActionResultV1 (V : Type 0) : Type 0 where
  pub result_version : ℕ
  pub action : Digest
  pub output_bundle : Option BlobDescriptor
  pub stdout : Option Str
  pub task_outputs : List (Str × V)
  pub artifacts : List CachedArtifact
  pub reports : List CachedReport

pub data ResultError : Type 0 where
  unsupported_version foreign_action missing_bundle too_many_items stdout_too_long : ResultError
  invalid_bundle : ValidateError → ResultError
  empty_string string_too_long string_has_control : ResultError
  null_output root_path too_large : ResultError

pub data Verdict : Type 0 where
  ok : Verdict
  err : ResultError → Verdict

-- `if wrong { return Err(e) }`, and `?`.
abbrev pub reject_if : Bool → ResultError → Verdict → Verdict
reject_if wrong e next = if wrong then err e else next

abbrev pub and_then : Verdict → Verdict → Verdict
and_then ok next = next
and_then (err e) next = err e

unfoldable pub validate_result_string : Str → Verdict
validate_result_string value = reject_if (is_empty value) empty_string (
    reject_if (ltb max_cache_string_bytes (len value)) string_too_long
      (reject_if (any is_control value) string_has_control ok))

-- `BoundedCounter`.
pub record BoundedCounter : Type 0 where
  pub bytes : ℕ
  pub maximum : ℕ
  pub exceeded : Bool

abbrev pub new_counter : ℕ → BoundedCounter
new_counter maximum = record { bytes = 0; maximum = maximum; exceeded = false }

-- `write`, for a buffer of `size` bytes; the Boolean tells whether it succeeds.
unfoldable pub write : BoundedCounter → ℕ → Bool × BoundedCounter
write c size =
    if leb usize_range (c.bytes + size)
    then (false, record c { exceeded = true })
    else if ltb c.maximum (c.bytes + size)
    then (false, record c { exceeded = true })
    else (true, record c { bytes = c.bytes + size })

-- The writes of `serde_json::to_writer`, up to the first that fails.
unfoldable pub write_all : BoundedCounter → List ℕ → Bool
write_all c [] = true
write_all c (size ∷ sizes) =
    let (fits, after) = write c size in
    let rest = write_all after sizes in if fits then rest else false

unfoldable pub measure_json : ℕ → List ℕ → Verdict
measure_json maximum sizes = if write_all (new_counter maximum) sizes then ok else err too_large

-- The sizes of the buffers that serde writes for the metadata and for the whole record, and
-- `Value::is_null`.
pub record Serde (V : Type 0) : Type 0 where
  pub is_null : V → Bool
  pub metadata_writes : ActionResultV1 V → List ℕ
  pub result_writes : ActionResultV1 V → List ℕ

abbrev pub bundle_verdict : ValidateResult → Verdict
bundle_verdict ValidateResult.ok = ok
bundle_verdict (ValidateResult.err e) = err (invalid_bundle e)

abbrev pub is_empty_list : {A : Type 0} → List A → Bool
is_empty_list [] = true
is_empty_list (x ∷ xs) = false

module _ {V : Type 0} (serde : Serde V) where
  abbrev pub check_bundle : ActionResultV1 V → Option BlobDescriptor → Verdict
  check_bundle r (some bundle) = bundle_verdict (validate_blob bundle)
  check_bundle r none =
      reject_if (not (is_empty_list r.artifacts) || not (is_empty_list r.reports)) missing_bundle ok

  unfoldable pub check_outputs : List (Str × V) → Verdict
  check_outputs [] = ok
  check_outputs ((name, value) ∷ outputs) =
      and_then (validate_result_string name)
        (reject_if (serde.is_null value) null_output (check_outputs outputs))

abbrev pub check_content_type : Option Str → Verdict
check_content_type none = ok
check_content_type (some content_type) = validate_result_string content_type

unfoldable pub check_artifacts : List CachedArtifact → Verdict
check_artifacts [] = ok
check_artifacts (a ∷ artifacts) = and_then (validate_result_string a.name) (
    reject_if (is_root a.path) root_path
      (and_then (check_content_type a.content_type) (check_artifacts artifacts)))

unfoldable pub check_reports : List CachedReport → Verdict
check_reports [] = ok
check_reports (r ∷ reports) = and_then (validate_result_string r.name) (
    and_then (validate_result_string r.format)
      (reject_if (is_root r.path) root_path (check_reports reports)))

abbrev pub is_too_long : Option Str → Bool
is_too_long none = false
is_too_long (some value) = ltb max_action_result_metadata_bytes (len value)

module _ {V : Type 0} (serde : Serde V) where
  -- `ActionResultV1::validate`.
  unfoldable pub validate : ActionResultV1 V → Verdict
  validate r = reject_if (not (r.result_version == action_result_version_v1)) unsupported_version (
      reject_if (not (algorithm_beq r.action.algorithm blake3)) foreign_action (
        and_then (check_bundle serde r r.output_bundle) (
          reject_if
            (ltb max_cache_list_items (length r.artifacts)
              || ltb max_cache_list_items (length r.reports))
            too_many_items
            (reject_if (is_too_long r.stdout) stdout_too_long (
              and_then (check_outputs serde r.task_outputs) (
                and_then (check_artifacts r.artifacts) (
                  and_then (check_reports r.reports) (
                    and_then
                      (measure_json max_action_result_metadata_bytes (serde.metadata_writes r))
                      (measure_json max_action_result_wire_bytes (serde.result_writes r))))))))))
