-- ===== src/ActionResult/Equal.antt =====
-- The derived `PartialEq` of `ActionResultV1` and its parts (crates/octa-cache-protocol/src/result.rs).
use octa.Common.{
  ◌≡◌, ◌↔◌, Bool, true, false, ◌&&◌, Option, none, some, List, [], ◌∷◌, arith, Eq, ◌==◌, ==_iff,
  nat_eq,
}
use octa.Text.{str_eq}
use octa.BlobDescriptor.{digest_beq, digest_beq_iff, blob_eq}
use octa.ActionResult.{CachedArtifact, CachedReport, ActionResultV1}

module _ {A : Type 0} ⦃e : Eq A⦄ where
  abbrev option_beq : Option A → Option A → Bool
  option_beq none none = true
  option_beq none (some y) = false
  option_beq (some x) none = false
  option_beq (some x) (some y) = x == y

  option_beq_iff : (x y : Option A) → (option_beq x y ≡ true) ↔ (x ≡ y)
  option_beq_iff none none = ground arith
  option_beq_iff none (some y) = ground arith
  option_beq_iff (some x) none = ground arith
  option_beq_iff (some x) (some y) = ground (arith, ==_iff x y)

  abbrev list_beq : List A → List A → Bool
  list_beq [] [] = true
  list_beq [] (y ∷ ys) = false
  list_beq (x ∷ xs) [] = false
  list_beq (x ∷ xs) (y ∷ ys) = x == y && list_beq xs ys

  list_beq_iff : (xs ys : List A) → (list_beq xs ys ≡ true) ↔ (xs ≡ ys)
  list_beq_iff [] [] = ground arith
  list_beq_iff [] (y ∷ ys) = ground arith
  list_beq_iff (x ∷ xs) [] = ground arith
  list_beq_iff (x ∷ xs) (y ∷ ys) = ground (arith, ==_iff x y, list_beq_iff xs ys)

module _ {A B : Type 0} ⦃e : Eq A⦄ ⦃f : Eq B⦄ where
  abbrev pair_beq : A × B → A × B → Bool
  pair_beq (a, b) (c, d) = a == c && b == d

  pair_beq_iff : (x y : A × B) → (pair_beq x y ≡ true) ↔ (x ≡ y)
  pair_beq_iff (a, b) (c, d) = ground (arith, ==_iff a c, ==_iff b d)

  instance abbrev pair_eq : Eq (A × B)
  pair_eq = record { same = pair_beq; same_iff = pair_beq_iff }

abbrev artifact_beq : CachedArtifact → CachedArtifact → Bool
artifact_beq a b =
    a.name == b.name && a.path.text == b.path.text && option_beq a.content_type b.content_type

artifact_beq_iff : (a b : CachedArtifact) → (artifact_beq a b ≡ true) ↔ (a ≡ b)
artifact_beq_iff a b = ground (
  arith,
  ==_iff a.name b.name,
  ==_iff a.path.text b.path.text,
  option_beq_iff a.content_type b.content_type,
)

instance abbrev artifact_eq : Eq CachedArtifact
artifact_eq = record { same = artifact_beq; same_iff = artifact_beq_iff }

abbrev report_beq : CachedReport → CachedReport → Bool
report_beq a b = a.name == b.name && a.path.text == b.path.text && a.format == b.format

report_beq_iff : (a b : CachedReport) → (report_beq a b ≡ true) ↔ (a ≡ b)
report_beq_iff a b =
    ground (arith, ==_iff a.name b.name, ==_iff a.path.text b.path.text, ==_iff a.format b.format)

instance abbrev report_eq : Eq CachedReport
report_eq = record { same = report_beq; same_iff = report_beq_iff }

module _ {V : Type 0} ⦃e : Eq V⦄ where
  abbrev pub result_beq : ActionResultV1 V → ActionResultV1 V → Bool
  result_beq a b =
      a.result_version == b.result_version
      && digest_beq a.action b.action
      && option_beq a.output_bundle b.output_bundle
      && option_beq a.stdout b.stdout
      && list_beq a.task_outputs b.task_outputs
      && list_beq a.artifacts b.artifacts
      && list_beq a.reports b.reports

  pub result_beq_iff : (a b : ActionResultV1 V) → (result_beq a b ≡ true) ↔ (a ≡ b)
  result_beq_iff a b = ground (
    arith,
    ==_iff a.result_version b.result_version,
    digest_beq_iff a.action b.action,
    option_beq_iff a.output_bundle b.output_bundle,
    option_beq_iff a.stdout b.stdout,
    list_beq_iff a.task_outputs b.task_outputs,
    list_beq_iff a.artifacts b.artifacts,
    list_beq_iff a.reports b.reports,
  )

  instance abbrev pub result_eq : Eq (ActionResultV1 V)
  result_eq = record { same = result_beq; same_iff = result_beq_iff }
