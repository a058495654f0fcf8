-- ===== src/Tests/Configuring.antt =====
-- Settings with an operating system and a native part.
use software.Base.{ℕ, ◌+◌, ◌*◌, ◌≡◌, refl, false, arith, ◌==◌, if◌then◌else◌, [], ◌∷◌, ok}
use software.Support.Path.{Str, to_string, is_valid_symbol}
use software.Support.Version.{version, version_range}
use software.Support.Settings.Texts.{
  Contents, print_content, parse_content, parse_content-print_content,
}
use software.Tests.Resolving.{numbers}
use software.Support.Settings.{
  Setting, setting, plain, array, object, nil, element, Settings, end, entry, unset, merge_missing,
  equal,
}
use software.Support.Settings.Hash.{hash_of}
use software.Support.Settings.Hash.Compared.{IsCompared}
use software.Support.Settings.Hash.Equal.{hash_of-equal}
use software.Support.Settings.Keys.{IsOrdered}
use software.Support.Settings.Merge.{leaf, or_else, leaf-merge_missing}
use software.Support.Settings.Json.{merge_from_json, to_json}
use software.Support.Settings.Json.Reading.{IsReadable, merge_from_json-to_json}

abbrev text : ℕ → Setting
text n = setting false (plain 5 n)

abbrev map_of : Settings → Setting
map_of m = setting false (object m)

-- 1 is "native", with 2 "library" and 3 "configuration"; 4 is "os".
abbrev given : Setting
given = map_of (entry 1 (map_of (entry 2 (text 10) end)) end)

abbrev defaults : Setting
defaults = map_of (
    entry 1 (map_of (entry 2 (text 11) (entry 3 (text 12) end)))
      (entry 4 (setting false (array (element (text 13) nil))) end))

defaults-IsOrdered : IsOrdered defaults
unfolding IsOrdered
defaults-IsOrdered = ground arith

given-IsOrdered : IsOrdered given
unfolding IsOrdered
given-IsOrdered = ground arith

leaf-merge_missing_example :
    leaf (1 ∷ 3 ∷ []) (merge_missing given defaults).1
    ≡ or_else (leaf (1 ∷ 3 ∷ []) given) (leaf (1 ∷ 3 ∷ []) defaults)
unfolding merge_missing
leaf-merge_missing_example = leaf-merge_missing given defaults (1 ∷ 3 ∷ []) defaults-IsOrdered refl

-- The string 7 and the package path 9 are "ab"; versions and ranges are numbers.
abbrev ab : Str
ab = 97 ∷ 98 ∷ []

abbrev contents : Contents ℕ (ℕ × ℕ)
contents = record {
  lib = numbers;
  any = (0, 9);
  range_text = λ r. [];
  file_text = λ p. [];
  file = λ s. 0;
  string = record {
    value = λ n. if n == 7 then ab else [];
    number = λ s. elim s [ [] ↦ 0 | c ∷ t ↦ 7 ];
  };
  package_path = record {
    value = λ n. if n == 9 then ab ∷ [] else [];
    number = λ p. elim p [ [] ↦ 0 | e ∷ t ↦ 9 ];
  };
  package_version = record { value = λ n. version n; number = λ v. 0 };
  name = record { value = λ n. record { ppath = []; name_version = version n }; number = λ v. 0 };
  range = record { value = λ n. version_range (n, n); number = λ r. 0 };
  unresolved = record {
    value = λ n. record { upath = []; range = version_range (n, n) };
    number = λ u. 0;
  };
}

-- Under 5 is a package path.
abbrev with_path : Setting
with_path = map_of (
    entry 1 (map_of (entry 2 (text 11) (entry 3 (text 12) end))) (
      entry 4 (setting false (array (element (text 13) nil)))
        (entry 5 (setting false (plain 10 9)) end)))

path-read : parse_content contents 10 (print_content contents 10 9) ≡ ok 9
unfolding to_string is_valid_symbol
path-read =
    parse_content-print_content contents 9 refl refl ((refl, (refl, tt)), tt) (λ e. cc)
      (omega arith)

with_path-IsReadable : IsReadable contents with_path
unfolding IsReadable print_content parse_content
with_path-IsReadable = (
  refl,
  (
    (refl, ((refl, (refl, refl)), ((refl, (refl, refl)), tt))),
    ((refl, ((refl, (refl, refl)), tt)), ((refl, (refl, path-read)), tt)),
  ),
)

with_path-IsOrdered : IsOrdered with_path
unfolding IsOrdered
with_path-IsOrdered = ground arith

merge_from_json-to_json_example :
    merge_from_json contents (to_json contents with_path) unset ≡ ok with_path
merge_from_json-to_json_example =
    merge_from_json-to_json contents with_path with_path-IsReadable with_path-IsOrdered

defaults-IsCompared : IsCompared defaults
unfolding IsCompared
defaults-IsCompared = ground arith

-- The defaults with an empty setting at 3: equal to them, and not the same.
abbrev padded : Setting
padded = map_of (
    entry 1 (map_of (entry 2 (text 11) (entry 3 (text 12) end)))
      (entry 3 unset (entry 4 (setting false (array (element (text 13) nil))) end)))

padded-IsCompared : IsCompared padded
unfolding IsCompared
padded-IsCompared = ground arith

padded-IsOrdered : IsOrdered padded
unfolding IsOrdered
padded-IsOrdered = ground arith

abbrev sum : ℕ → ℕ → ℕ
sum a b = a * 31 + b

hash_of-equal_example :
    hash_of sum (λ k. k) (λ n c. n + c) padded ≡ hash_of sum (λ k. k) (λ n c. n + c) defaults
unfolding equal
hash_of-equal_example =
    hash_of-equal sum (λ k. k) (λ n c. n + c) defaults padded defaults-IsCompared padded-IsCompared
      defaults-IsOrdered padded-IsOrdered refl
