-- ===== src/ActionResult/Validity.antt =====
-- Which results `ActionResultV1::validate` accepts.
use octa.Common.{
  ◌≤◌, ◌≡◌, ◌↔◌, refl, Bool, true, false, not, ◌||◌, Option, none, some, List, [], ◌∷◌, arith, ◌==◌,
  ==_iff, nat_eq, ltb, length, any, All,
}
use octa.Text.{Str, len, is_control, is_empty}
use octa.RelativePath.{is_root, max_cache_string_bytes}
use octa.Digest.{blake3}
use octa.BlobDescriptor.{BlobDescriptor, algorithm_beq, algorithm_beq_iff}
use octa.BlobDescriptor.Validity.{IsConsistent, validate_blob_iff}
use octa.ActionResult.{
  action_result_version_v1, max_cache_list_items, max_action_result_metadata_bytes,
  max_action_result_wire_bytes, CachedArtifact, CachedReport, ActionResultV1, ResultError, Verdict,
  ok, err, reject_if, and_then, validate_result_string, measure_json, Serde, check_bundle,
  check_outputs, check_content_type, check_artifacts, check_reports, is_too_long, validate,
}
use octa.ActionResult.Measure.{sum, measure_json_iff}

-- A name, a format or a content type: not empty, bounded, on one line.
pub record IsLabel (value : Str) : Type 0 where
  pub nonempty : is_empty value ≡ false
  pub bounded : len value ≤ max_cache_string_bytes
  pub printable : any is_control value ≡ false

validate_result_string_iff : (value : Str) → (validate_result_string value ≡ ok) ↔ IsLabel value
unfolding validate_result_string
validate_result_string_iff value = (
  λ h. record { nonempty = ground arith; bounded = ground arith; printable = ground arith },
  λ l. ground (arith, l.nonempty, l.bounded, l.printable),
)

and_then_iff : (a b : Verdict) → (and_then a b ≡ ok) ↔ ((a ≡ ok) × (b ≡ ok))
and_then_iff ok b = (λ h. (refl, h), λ h. h.1)
and_then_iff (err e) b = ground arith

reject_if_iff :
    (t : Bool) (e : ResultError) (v : Verdict) → (reject_if t e v ≡ ok) ↔ ((t ≡ false) × (v ≡ ok))
reject_if_iff true e v = ground arith
reject_if_iff false e v = (λ h. (refl, h), λ h. h.1)

abbrev IsLabelled : Option Str → Type 0
IsLabelled none = Unit
IsLabelled (some value) = IsLabel value

abbrev IsArtifact : CachedArtifact → Type 0
IsArtifact a = IsLabel a.name × (is_root a.path ≡ false) × IsLabelled a.content_type

abbrev IsReport : CachedReport → Type 0
IsReport r = IsLabel r.name × IsLabel r.format × (is_root r.path ≡ false)

check_content_type_iff : (o : Option Str) → (check_content_type o ≡ ok) ↔ IsLabelled o
check_content_type_iff none = (λ h. tt, λ h. refl)
check_content_type_iff (some value) = validate_result_string_iff value

check_artifacts_iff :
    (artifacts : List CachedArtifact) → (check_artifacts artifacts ≡ ok) ↔ All IsArtifact artifacts
unfolding check_artifacts
check_artifacts_iff [] = (λ h. tt, λ h. refl)
check_artifacts_iff (a ∷ rest) = (
  λ h.
      let (named, h1) = (and_then_iff (validate_result_string a.name) _).0 h in
      let (placed, h2) = (reject_if_iff (is_root a.path) _ _).0 h1 in
      let (typed, h3) = (and_then_iff (check_content_type a.content_type) _).0 h2 in
      (
        (
          (validate_result_string_iff a.name).0 named,
          placed,
          (check_content_type_iff a.content_type).0 typed,
        ),
        (check_artifacts_iff rest).0 h3,
      ),
  λ ((named, placed, typed), others). (and_then_iff (validate_result_string a.name) _).1 (
    (validate_result_string_iff a.name).1 named,
    (reject_if_iff (is_root a.path) _ _).1 (
      placed,
      (and_then_iff (check_content_type a.content_type) _).1
          ((check_content_type_iff a.content_type).1 typed, (check_artifacts_iff rest).1 others),
    ),
  ),
)

check_reports_iff :
    (reports : List CachedReport) → (check_reports reports ≡ ok) ↔ All IsReport reports
unfolding check_reports
check_reports_iff [] = (λ h. tt, λ h. refl)
check_reports_iff (r ∷ rest) = (
  λ h.
      let (named, h1) = (and_then_iff (validate_result_string r.name) _).0 h in
      let (formatted, h2) = (and_then_iff (validate_result_string r.format) _).0 h1 in
      let (placed, h3) = (reject_if_iff (is_root r.path) _ _).0 h2 in
      (
        (
          (validate_result_string_iff r.name).0 named,
          (validate_result_string_iff r.format).0 formatted,
          placed,
        ),
        (check_reports_iff rest).0 h3,
      ),
  λ ((named, formatted, placed), others). (and_then_iff (validate_result_string r.name) _).1 (
    (validate_result_string_iff r.name).1 named,
    (and_then_iff (validate_result_string r.format) _).1 (
      (validate_result_string_iff r.format).1 formatted,
      (reject_if_iff (is_root r.path) _ _).1 (placed, (check_reports_iff rest).1 others),
    ),
  ),
)

module _ {V : Type 0} (serde : Serde V) where
  abbrev IsOutput : Str × V → Type 0
  IsOutput o = IsLabel o.0 × (serde.is_null o.1 ≡ false)

  check_outputs_iff :
      (outputs : List (Str × V)) → (check_outputs serde outputs ≡ ok) ↔ All IsOutput outputs
  unfolding check_outputs
  check_outputs_iff [] = (λ h. tt, λ h. refl)
  check_outputs_iff ((name, value) ∷ rest) = (
    λ h.
        let (named, h1) = (and_then_iff (validate_result_string name) _).0 h in
        let (present, h2) = (reject_if_iff (serde.is_null value) _ _).0 h1 in
        (((validate_result_string_iff name).0 named, present), (check_outputs_iff rest).0 h2),
    λ ((named, present), others). (and_then_iff (validate_result_string name) _).1 (
      (validate_result_string_iff name).1 named,
      (reject_if_iff (serde.is_null value) _ _).1 (present, (check_outputs_iff rest).1 others),
    ),
  )

  -- A consistent bundle, or none and then nothing that would lie in it.
  abbrev IsBundled : ActionResultV1 V → Option BlobDescriptor → Type 0
  IsBundled r (some bundle) = IsConsistent bundle
  IsBundled r none = (r.artifacts ≡ []) × (r.reports ≡ [])

  check_bundle_iff :
      (r : ActionResultV1 V) (o : Option BlobDescriptor)
      → (check_bundle serde r o ≡ ok) ↔ IsBundled r o
  check_bundle_iff r (some bundle) = ground (arith, validate_blob_iff bundle)
  check_bundle_iff r none = ground arith

  pub record IsValid (r : ActionResultV1 V) : Type 0 where
    pub version : r.result_version ≡ action_result_version_v1
    pub native : r.action.algorithm ≡ blake3
    pub bundle : IsBundled r r.output_bundle
    pub few_artifacts : length r.artifacts ≤ max_cache_list_items
    pub few_reports : length r.reports ≤ max_cache_list_items
    pub stdout_bounded : is_too_long r.stdout ≡ false
    pub outputs : All IsOutput r.task_outputs
    pub valid_artifacts : All IsArtifact r.artifacts
    pub valid_reports : All IsReport r.reports
    pub metadata_bytes : sum (serde.metadata_writes r) ≤ max_action_result_metadata_bytes
    pub wire_bytes : sum (serde.result_writes r) ≤ max_action_result_wire_bytes

  validate-IsValid : (r : ActionResultV1 V) → validate serde r ≡ ok → IsValid r
  unfolding validate
  validate-IsValid r h =
      let (v, h1) = (reject_if_iff (not (r.result_version == action_result_version_v1)) _ _).0 h in
      let (n, h2) = (reject_if_iff (not (algorithm_beq r.action.algorithm blake3)) _ _).0 h1 in
      let (b, h3) = (and_then_iff (check_bundle serde r r.output_bundle) _).0 h2 in
      let (c, h4) =
        (reject_if_iff
            (ltb max_cache_list_items (length r.artifacts)
              || ltb max_cache_list_items (length r.reports))
            _ _).0
          h3 in
      let (s, h5) = (reject_if_iff (is_too_long r.stdout) _ _).0 h4 in
      let (o, h6) = (and_then_iff (check_outputs serde r.task_outputs) _).0 h5 in
      let (a, h7) = (and_then_iff (check_artifacts r.artifacts) _).0 h6 in
      let (p, h8) = (and_then_iff (check_reports r.reports) _).0 h7 in
      let (m, w) =
        (and_then_iff (measure_json max_action_result_metadata_bytes (serde.metadata_writes r)) _).0
          h8 in
      record {
        version = ground (arith, ==_iff r.result_version action_result_version_v1);
        native = ground (arith, algorithm_beq_iff r.action.algorithm blake3);
        bundle = (check_bundle_iff r r.output_bundle).0 b;
        few_artifacts = ground arith;
        few_reports = ground arith;
        stdout_bounded = s;
        outputs = (check_outputs_iff r.task_outputs).0 o;
        valid_artifacts = (check_artifacts_iff r.artifacts).0 a;
        valid_reports = (check_reports_iff r.reports).0 p;
        metadata_bytes =
            (measure_json_iff max_action_result_metadata_bytes (serde.metadata_writes r)
                (omega arith)).0
              m;
        wire_bytes =
            (measure_json_iff max_action_result_wire_bytes (serde.result_writes r) (omega arith)).0
              w;
      }

  IsValid-validate : (r : ActionResultV1 V) → IsValid r → validate serde r ≡ ok
  unfolding validate
  IsValid-validate r g =
      (reject_if_iff (not (r.result_version == action_result_version_v1)) _ _).1 (
        ground (arith, g.version),
        (reject_if_iff (not (algorithm_beq r.action.algorithm blake3)) _ _).1 (
          ground (arith, algorithm_beq_iff r.action.algorithm blake3, g.native),
          (and_then_iff (check_bundle serde r r.output_bundle) _).1 (
            (check_bundle_iff r r.output_bundle).1 g.bundle,
            (reject_if_iff
                  (ltb max_cache_list_items (length r.artifacts)
                    || ltb max_cache_list_items (length r.reports))
                  _ _).1
                (
                  ground (arith, g.few_artifacts, g.few_reports),
                  (reject_if_iff (is_too_long r.stdout) _ _).1 (
                    g.stdout_bounded,
                    (and_then_iff (check_outputs serde r.task_outputs) _).1 (
                      (check_outputs_iff r.task_outputs).1 g.outputs,
                      (and_then_iff (check_artifacts r.artifacts) _).1 (
                        (check_artifacts_iff r.artifacts).1 g.valid_artifacts,
                        (and_then_iff (check_reports r.reports) _).1 (
                          (check_reports_iff r.reports).1 g.valid_reports,
                          (and_then_iff
                                (measure_json max_action_result_metadata_bytes
                                  (serde.metadata_writes r))
                                _).1
                              (
                                (measure_json_iff max_action_result_metadata_bytes
                                      (serde.metadata_writes r) (omega arith)).1
                                    g.metadata_bytes,
                                (measure_json_iff max_action_result_wire_bytes
                                      (serde.result_writes r) (omega arith)).1
                                    g.wire_bytes,
                              ),
                        ),
                      ),
                    ),
                  ),
                ),
          ),
        ),
      )

  -- `validate` accepts exactly the records of version 1 with a native action digest, a consistent
  -- bundle or nothing that needs one, lists and texts within their limits, proper names, no null
  -- output, no registration at the workspace root, and serialized forms within their limits.
  pub validate_result_iff : (r : ActionResultV1 V) → (validate serde r ≡ ok) ↔ IsValid r
  validate_result_iff r = (validate-IsValid r, IsValid-validate r)
