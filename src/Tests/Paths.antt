-- ===== src/Tests/Paths.antt =====
-- Package paths: org.sw, its parts, and their order.
use software.Base.{◌≡◌, ◌↔◌, refl, subst, Bool, true, false, [], ◌∷◌, map, ok, err, arith}
use software.Support.Path.{
  Str, PackagePath, dot, to_lower, is_valid_symbol, parse, split, to_string, joined, is_root_of,
  same_front, back, from_difference, same_string, same_path, less, namespace_order, has_same_parent,
  common_root, parent, bad_symbol,
}
use software.Support.Path.Text.{parse-to_string}
use software.Support.Path.Tree.{same_string-eq, same_string_refl}
use software.Support.Path.Order.{IsStrictOrder, less-IsStrictOrder}

abbrev org : Str
org = 111 ∷ 114 ∷ 103 ∷ []

abbrev sw : Str
sw = 115 ∷ 119 ∷ []

abbrev pub org_sw : PackagePath
org_sw = org ∷ sw ∷ []

abbrev pub org_sw_text : Str
org_sw_text = 111 ∷ 114 ∷ 103 ∷ dot ∷ 115 ∷ 119 ∷ []

-- Two paths outside of every namespace.
abbrev foo_path : PackagePath
foo_path = (102 ∷ []) ∷ []

abbrev bar_path : PackagePath
bar_path = (98 ∷ []) ∷ []

abbrev iequals : Str → Str → Bool
iequals a b = same_string (map to_lower a) (map to_lower b)

iequals_iff : (a b : Str) → (iequals a b ≡ true) ↔ (map to_lower a ≡ map to_lower b)
iequals_iff a b = (
  same_string-eq (map to_lower a) (map to_lower b),
  λ e. subst (λ t. same_string (map to_lower a) t ≡ true) e (same_string_refl (map to_lower a)),
)

paths : Unit {0}
unfolding to_lower is_valid_symbol parse split to_string joined is_root_of same_front back
    from_difference same_path less namespace_order has_same_parent common_root parent
paths = tt

parse-org_sw : parse org_sw_text ≡ ok org_sw
unfolding paths
parse-org_sw = refl

parse-dash : parse (45 ∷ []) ≡ err (bad_symbol 45)
unfolding paths
parse-dash = refl

foo-bar_unordered :
    (less iequals foo_path bar_path ≡ false)
    × (less iequals bar_path foo_path ≡ false)
    × (same_path foo_path bar_path ≡ false)
unfolding paths
foo-bar_unordered = (refl, refl, refl)

parse-to_string_example : parse (to_string (dot ∷ []) org_sw) ≡ ok org_sw
unfolding paths
parse-to_string_example =
    parse-to_string org_sw ((refl, (refl, (refl, tt))), ((refl, (refl, tt)), tt)) (λ e. absurd (cc))
      (omega arith)

less-IsStrictOrder_example : IsStrictOrder (less iequals)
less-IsStrictOrder_example = less-IsStrictOrder iequals iequals_iff
