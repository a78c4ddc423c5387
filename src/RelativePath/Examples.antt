-- ===== src/RelativePath/Examples.antt =====
-- Paths of a small workspace, and the theorems at them.
use Prim.Native.Char.{code}
use Prim.Native.String.{String}
use octa.Common.{true, false, [], ◌∷◌, ◌≡◌, ◌↔◌, refl, arith, All}
use octa.Text.{Str, str_eq, len, is_control, strip_prefix, split}
use octa.RelativePath.{
  RelativePath, ok, err, not_normalized, not_portable, validate, is_root, is_within,
}
use octa.RelativePath.Validity.{IsName, IsPath, validate_iff}

abbrev codes : String → Str
codes String.[] = []
codes (String.◌∷◌ c s) = code c ∷ codes s

abbrev path : String → RelativePath
path s = record { text = codes s }

validate_accepts : validate (codes "dist/app") ≡ ok tt
unfolding validate len is_control split
validate_accepts = refl

validate_refuses_parent : validate (codes "dist/../x") ≡ err not_normalized
unfolding validate len is_control split
validate_refuses_parent = refl

validate_refuses_drive : validate (codes "c:/x") ≡ err not_portable
unfolding validate len is_control split
validate_refuses_drive = refl

within_child : is_within (path "dist/app") (path "dist") ≡ true
unfolding is_within is_root strip_prefix
within_child = refl

not_within_sibling : is_within (path "dist-old") (path "dist") ≡ false
unfolding is_within is_root strip_prefix
not_within_sibling = refl

within_grandchild : is_within (path "dist/app/x") (path "dist/app") ≡ true
unfolding is_within is_root strip_prefix
within_grandchild = refl

validate_iff_example : (validate (codes "dist/app") ≡ ok tt) ↔ IsPath (codes "dist/app")
validate_iff_example = validate_iff (codes "dist/app")

two_names : All IsName (codes "dist" ∷ codes "app" ∷ [])
unfolding is_control
two_names = ground arith
