-- ===== src/Tests/Naming.antt =====
-- The name org.sw-main, whose version is a branch.
use software.Base.{ℕ, ◌≡◌, refl, [], ◌∷◌, ok, err, arith}
use software.Support.Path.{is_valid_symbol, is_alnum, to_string, joined, parse, split}
use software.Support.Version.{branch, from_string, to_text, is_branch_name}
use software.Support.Name.{
  PackageName, split_package_string, name_from_string, name_text, no_version, dash,
}
use software.Support.Name.Text.{name_from_string-name_text}
use software.Tests.Paths.{org_sw, org_sw_text}
use software.Tests.Resolving.{numbers}

abbrev name : PackageName ℕ
name = record { ppath = org_sw; name_version = branch (109 ∷ 97 ∷ 105 ∷ 110 ∷ []) }

naming : Unit {0}
unfolding name_from_string name_text split_package_string from_string to_text to_string joined parse
    split is_valid_symbol is_alnum is_branch_name
naming = tt

name-no_version : name_from_string numbers org_sw_text ≡ err no_version
unfolding naming
name-no_version = refl

name_from_string-name_text_example :
    name_from_string numbers (name_text numbers (dash ∷ []) name) ≡ ok name
unfolding naming
name_from_string-name_text_example =
    name_from_string-name_text numbers name ((refl, (refl, (refl, tt))), ((refl, (refl, tt)), tt))
      (λ e. absurd (cc)) (omega arith) refl
