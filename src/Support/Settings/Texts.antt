-- ===== src/Support/Settings/Texts.antt =====
-- The contents of settings that PackageSetting::toJson writes as texts and PackageSetting::mergeFromJson reads from
-- them (src/sw/support/settings.cpp): paths, package paths, versions, names and ranges.
use software.Base.{
  ℕ, ◌≡◌, ◌≢◌, ap, ◌∙◌, ◌≤◌, ◌==◌, if◌then◌else◌, [], ◌∷◌, ◌++◌, length, All, Result, ok, ◌>>=◌,
}
use software.Support.Path.{Str, PackagePath, dot, parse, to_string, Error as PathError}
use software.Support.Path.Text.{IsPlain, parse-to_string}
use software.Support.Version.{
  VersionLib, PackageVersion, PackageVersionRange, version_range, branch_range, from_string,
  to_text, range_from_string, Error as VersionError,
}
use software.Support.Name.{
  PackageName, UnresolvedPackageName, dash, rethrow, name_text, name_from_string,
  unresolved_from_string, Error as NameError,
}

pub data TextError : Type 0 where
  bad_path : PathError → TextError
  bad_version : VersionError → TextError
  bad_name : NameError → TextError

-- Values of a type that stand in settings as numbers.
pub record Coded (A : Type 0) : Type 0 where
  pub value : ℕ → A
  pub number : A → ℕ

-- What the numbers stand for. Of the libraries are versions, the range of all versions, the text of a range, and
-- paths of files with to_printable_string.
pub record Contents (V R : Type 0) : Type 0 where
  pub lib : VersionLib V R
  pub any : R
  pub range_text : R → Str
  pub file_text : ℕ → Str
  pub file : Str → ℕ
  pub string : Coded Str
  pub package_path : Coded PackagePath
  pub package_version : Coded (PackageVersion V)
  pub name : Coded (PackageName V)
  pub range : Coded (PackageVersionRange R)
  pub unresolved : Coded (UnresolvedPackageName R)

module _ {V R : Type 0} (k : Contents V R) where
  -- PackageVersionRange::toString
  unfoldable pub range_to_text : PackageVersionRange R → Str
  range_to_text (branch_range b) = b
  range_to_text (version_range r) = k.range_text r

  -- UnresolvedPackageName::toString
  unfoldable pub unresolved_text : UnresolvedPackageName R → Str
  unfolding range_to_text
  unresolved_text u = to_string (dot ∷ []) u.upath ++ dash ∷ range_to_text u.range

  -- What toJson writes for the content of an alternative.
  unfoldable pub print_content : (index content : ℕ) → ℕ
  unfolding unresolved_text
  print_content n c =
      if n == 6
      then k.string.number (k.file_text c)
      else if n == 10
      then k.string.number (to_string (dot ∷ []) (k.package_path.value c))
      else if n == 11
      then k.string.number (to_text k.lib (k.package_version.value c))
      else if n == 12
      then k.string.number (name_text k.lib (dash ∷ []) (k.name.value c))
      else if n == 13
      then k.string.number (range_to_text (k.range.value c))
      else if n == 14
      then k.string.number (unresolved_text (k.unresolved.value c))
      else c

  -- What mergeFromJson reads from it.
  unfoldable pub parse_content : (index text : ℕ) → Result TextError ℕ
  unfolding parse from_string name_from_string range_from_string unresolved_from_string
  parse_content n t =
      let s = k.string.value t in
      if n == 6
      then ok (k.file s)
      else if n == 10
      then (do p ← rethrow bad_path (parse s); ok (k.package_path.number p))
      else if n == 11
      then (do v ← rethrow bad_version (from_string k.lib s); ok (k.package_version.number v))
      else if n == 12
      then (do m ← rethrow bad_name (name_from_string k.lib s); ok (k.name.number m))
      else if n == 13
      then (do r ← rethrow bad_version (range_from_string k.lib s); ok (k.range.number r))
      else if n == 14
      then (do
        u ← rethrow bad_name (unresolved_from_string k.lib k.any s)
        ok (k.unresolved.number u))
      else ok t

  -- A package path is read from its text when it is not the path with one empty element, its elements consist of
  -- letters, digits and underscores, and its text is not too long.
  pub parse_content-print_content :
      (c : ℕ)
      → k.string.value (k.string.number (to_string (dot ∷ []) (k.package_path.value c)))
        ≡ to_string (dot ∷ []) (k.package_path.value c)
      → k.package_path.number (k.package_path.value c) ≡ c
      → All IsPlain (k.package_path.value c)
      → k.package_path.value c ≢ [] ∷ []
      → length (to_string (dot ∷ []) (k.package_path.value c)) ≤ 4096
      → parse_content 10 (print_content 10 c) ≡ ok c
  unfolding parse_content print_content
  parse_content-print_content c written coded plain n l =
      ap (λ s. rethrow bad_path (parse s) >>= λ p. ok (k.package_path.number p)) written
      ∙ ap (λ x. rethrow bad_path x >>= λ p. ok (k.package_path.number p))
          (parse-to_string (k.package_path.value c) plain n l)
      ∙ ap (λ x. ok x) coded
