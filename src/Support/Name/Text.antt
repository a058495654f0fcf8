-- ===== src/Support/Name/Text.antt =====
-- Package names and their text.
use software.Base.{
  ℕ, ◌≤◌, ◌≡◌, ◌≢◌, refl, Bool, true, false, not, ◌==◌, arith, [], ◌∷◌, ◌++◌, append_assoc, length,
  All, ok,
}
use software.Support.Path.{Str, dot, parse, to_string, is_valid_symbol, is_alnum}
use software.Support.Path.Text.{IsPlain, parse-to_string, printed-All}
use software.Support.Version.{VersionLib, PackageVersion, from_string, to_text}
use software.Support.Name.{dash, split_package_string, PackageName, name_from_string, name_text}

abbrev no_dash : ℕ → Bool
no_dash c = not (c == dash)

split-append :
    (p v : Str) → All (λ c. no_dash c ≡ true) p → split_package_string (p ++ dash ∷ v) ≡ (p, v)
unfolding split_package_string
split-append [] v h = refl
split-append (c ∷ p) v h =
    let plain : (c == dash) ≡ false = ground (arith, h.0) in rw (plain, split-append p v h.1) refl

plain-no_dash : (c : ℕ) → is_valid_symbol c ≡ true → no_dash c ≡ true
unfolding is_valid_symbol is_alnum
plain-no_dash c h = ground arith

module _ {V R : Type 0} (lib : VersionLib V R) where
  from_string_nil : (v : PackageVersion V) → from_string lib [] ≢ ok v
  unfolding from_string
  from_string_nil v e = absurd (cc)

  joined-name :
      (v : Str) (n : PackageName V)
      → parse (to_string (dot ∷ []) n.ppath) ≡ ok n.ppath
      → All (λ c. no_dash c ≡ true) (to_string (dot ∷ []) n.ppath)
      → from_string lib v ≡ ok n.name_version
      → name_from_string lib (to_string (dot ∷ []) n.ppath ++ dash ∷ v) ≡ ok n
  unfolding name_from_string
  joined-name [] n e d f = absurd (from_string_nil n.name_version f)
  joined-name (c ∷ s) n e d f =
      rw (split-append (to_string (dot ∷ []) n.ppath) (c ∷ s) d, e, f) refl

  -- Reading the text of a package name gives the name back, when its path is one that is read back
  -- from its text (letters, digits and underscores, not too long, not one empty element) and so is its
  -- version.
  pub name_from_string-name_text :
      (n : PackageName V)
      → All IsPlain n.ppath
      → n.ppath ≢ [] ∷ []
      → length (to_string (dot ∷ []) n.ppath) ≤ 4096
      → from_string lib (to_text lib n.name_version) ≡ ok n.name_version
      → name_from_string lib (name_text lib (dash ∷ []) n) ≡ ok n
  unfolding name_text
  name_from_string-name_text n h x l f =
      let printed = to_string (dot ∷ []) n.ppath in
      rw (append_assoc printed (dash ∷ []) (to_text lib n.name_version)) (
        joined-name (to_text lib n.name_version) n (parse-to_string n.ppath h x l)
          (printed-All (λ c. no_dash c ≡ true) n.ppath refl
            (λ c k. plain-no_dash c (ground (arith, k))) h)
          f)
