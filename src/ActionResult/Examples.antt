-- ===== src/ActionResult/Examples.antt =====
-- A small result without files, one with a registration and no bundle, and the theorem at the first.
use octa.Common.{ℕ, ◌≡◌, ◌↔◌, refl, false, none, some, [], ◌∷◌}
use octa.Text.{str_eq, len, is_control}
use octa.RelativePath.{is_root}
use octa.Digest.{blake3}
use octa.ActionResult.{
  CachedReport, ActionResultV1, missing_bundle, ok, err, validate_result_string, write, write_all,
  measure_json, Serde, check_outputs, check_artifacts, check_reports, validate,
}
use octa.ActionResult.Validity.{IsValid, validate_result_iff}

program : Unit {0}
unfolding len is_control is_root validate_result_string write write_all measure_json check_outputs
    check_artifacts check_reports validate
program = tt

-- Outputs are numbers, never null, and serde writes 30 bytes in two buffers.
abbrev serde : Serde ℕ
serde = record {
  is_null = λ v. false;
  metadata_writes = λ r. 10 ∷ 20 ∷ [];
  result_writes = λ r. 60 ∷ [];
}

abbrev sample : ActionResultV1 ℕ
sample = record {
  result_version = 1;
  action = record { algorithm = blake3; hash = []; size_bytes = 9 };
  output_bundle = none;
  stdout = some (b'o' ∷ b'k' ∷ []);
  task_outputs = (b'n' ∷ [], 3) ∷ [];
  artifacts = [];
  reports = [];
}

accepted : validate serde sample ≡ ok
unfolding program
accepted = refl

abbrev report : CachedReport
report = record { name = b'r' ∷ []; path = record { text = b'r' ∷ [] }; format = b'x' ∷ [] }

no_bundle : validate serde (record sample { reports = report ∷ [] }) ≡ err missing_bundle
unfolding program
no_bundle = refl

validate_result_iff_example : (validate serde sample ≡ ok) ↔ IsValid serde sample
validate_result_iff_example = validate_result_iff serde sample
