-- ===== src/Support/Settings.antt =====
-- src/sw/support/settings.h and .cpp: PackageSetting and PackageSettings. The contents of the
-- alternatives that do not hold settings are numbers, with the index of the alternative in `Variant`; a
-- key is a number, in the order of the keys. NaN and what a resolver holds are not modelled.
pub mod Keys
pub mod Merge
pub mod Assign
pub mod Order
pub mod Texts
pub mod Json
pub mod Hash
use software.Base.{
  ℕ, Bool, true, false, not, ◌&&◌, ◌||◌, ◌==◌, ltb, if◌then◌else◌, Option, none, some, Result, ok,
  err,
}

-- PackageSetting with its Variant, std::vector<PackageSetting> and the map of PackageSettings
mutual
  pub data Setting : Type 0 where
    setting : (ignore_in_comparison : Bool) → (value : Value) → Setting

  pub data Value : Type 0 where
    empty : Value
    null : Value
    plain : (index content : ℕ) → Value
    array : Elements → Value
    object : Settings → Value

  pub data Elements : Type 0 where
    nil : Elements
    element : Setting → Elements → Elements

  pub data Settings : Type 0 where
    end : Settings
    entry : (key : ℕ) → Setting → Settings → Settings

pub data Error : Type 0 where
  bad_variant_access : Error

abbrev pub unset : Setting
unset = setting false empty

abbrev pub is_ignored : Setting → Bool
is_ignored (setting i v) = i

unfoldable pub is_empty : Setting → Bool
is_empty (setting i empty) = true
is_empty _ = false

-- `*this == true`; a bool is the alternative 2.
unfoldable pub is_bool_true : Setting → Bool
is_bool_true (setting i (plain n c)) = (n == 2) && (c == 1)
is_bool_true _ = false

-- PackageSetting::operator bool
unfoldable pub is_true : Setting → Bool
unfolding is_empty is_bool_true
is_true s = not (is_empty s) || is_bool_true s

-- std::map::find
unfoldable pub find : ℕ → Settings → Option Setting
find k end = none
find k (entry j s m) = if k == j then some s else find k m

-- PackageSettings::operator[] const
unfoldable pub at : ℕ → Settings → Setting
unfolding find
at k m = elim (find k m) [ none ↦ unset | some s ↦ s ]

-- What stands at a key of an object is replaced; a new key stands in the order of the keys.
unfoldable pub put : ℕ → Setting → Settings → Settings
put k s end = entry k s end
put k s (entry j t m) =
    let rest = put k s m in
    if k == j then entry k s m else if ltb k j then entry k s (entry j t m) else entry j t rest

-- mergeMissing of PackageSetting and PackageSettings. The settings are what they are when the function
-- returns or throws.
unfoldable mutual
  unfolding at put

  pub merge_missing : Setting → (rhs : Setting) → Result Error (Unit {0}) × Setting
  merge_missing (setting j (object m)) (setting i (object r)) =
      let (e, m') = merge_missing_all m r in (e, setting j (object m'))
  merge_missing (setting j (object m)) r = (err bad_variant_access, setting j (object m))
  merge_missing (setting j empty) r = (ok tt, r)
  merge_missing s r = (ok tt, s)

  pub merge_missing_all : Settings → (rhs : Settings) → Result Error (Unit {0}) × Settings
  merge_missing_all m end = (ok tt, m)
  merge_missing_all m (entry k v r) =
      let (e, s) = merge_missing (at k m) v in
      let (e', m') = merge_missing_all (put k s m) r in
      elim e [ err x ↦ (err x, put k s m) | ok u ↦ (e', m') ]

-- mergeAndAssign of PackageSetting and PackageSettings
unfoldable mutual
  unfolding at put

  pub merge_and_assign : Setting → (rhs : Setting) → Result Error (Unit {0}) × Setting
  merge_and_assign (setting j (object m)) (setting i (object r)) =
      let (e, m') = merge_and_assign_all m r in (e, setting j (object m'))
  merge_and_assign (setting j (object m)) r = (err bad_variant_access, setting j (object m))
  merge_and_assign s r = (ok tt, r)

  pub merge_and_assign_all : Settings → (rhs : Settings) → Result Error (Unit {0}) × Settings
  merge_and_assign_all m end = (ok tt, m)
  merge_and_assign_all m (entry k v r) =
      let (e, s) = merge_and_assign (at k m) v in
      let (e', m') = merge_and_assign_all (put k s m) r in
      elim e [ err x ↦ (err x, put k s m) | ok u ↦ (e', m') ]

-- PackageSettings::operator==, the loop over the settings of the left-hand side
unfoldable pub entries_known : (lhs rhs : Settings) → Bool
unfolding is_true find
entries_known end r = true
entries_known (entry k v m) r =
    let rest = entries_known m r in
    if is_ignored v
    then rest
    else elim (find k r) [ none ↦ not (is_true v) && rest | some w ↦ rest ]

-- PackageSetting::operator== and PackageSettings::operator==; the right-hand side comes first.
unfoldable mutual
  unfolding is_true find entries_known

  pub equal : (rhs lhs : Setting) → Bool
  equal (setting i v) (setting ignored w) = ignored || value_equal v w

  pub value_equal : (rhs lhs : Value) → Bool
  value_equal empty empty = true
  value_equal null null = true
  value_equal (plain n c) (plain n' c') = (n == n') && (c == c')
  value_equal (array es) (array es') = elements_equal es es'
  value_equal (object r) (object m) = entries_equal r m && entries_known m r
  value_equal _ _ = false

  pub elements_equal : (rhs lhs : Elements) → Bool
  elements_equal nil nil = true
  elements_equal (element v es) (element w es') = equal v w && elements_equal es es'
  elements_equal _ _ = false

  -- the loop over the settings of the right-hand side
  pub entries_equal : (rhs lhs : Settings) → Bool
  entries_equal end m = true
  entries_equal (entry k v r) m =
      let rest = entries_equal r m in
      if is_ignored v
      then rest
      else elim (find k m) [ none ↦ not (is_true v) && rest | some w ↦ equal v w && rest ]

-- PackageSettings::isSubsetOf
unfoldable mutual
  unfolding is_true find equal

  pub is_subset_of : Settings → Settings → Bool
  is_subset_of end s = true
  is_subset_of (entry k v m) s =
      let rest = is_subset_of m s in
      if not (is_true v) || is_ignored v
      then rest
      else elim (find k s) [ none ↦ false | some w ↦ is_true w && (is_part_of v w && rest) ]

  pub is_part_of : Setting → Setting → Bool
  is_part_of (setting i (object l)) (setting j (object r)) = is_subset_of l r
  is_part_of v w = equal v w
