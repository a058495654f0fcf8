-- ===== src/Support/Settings/Hash.antt =====
-- src/sw/support/settings.cpp: getHash1 of PackageSetting and PackageSettings. hash_combine and the hashes of
-- keys and of the values that hold no settings are parameters.
pub mod Fold
pub mod Compared
pub mod Equal
use software.Base.{ℕ, Bool, true, false, ◌==◌, if◌then◌else◌}
use software.Support.Settings.{
  Setting, setting, Value, empty, null, plain, array, object, Elements, nil, element, Settings, end,
  entry, is_ignored,
}

module _ (combine : ℕ → ℕ → ℕ) (hash_key : ℕ → ℕ) (hash_plain : (index content : ℕ) → ℕ) where
  unfoldable mutual
    -- PackageSetting::getHash1
    pub hash_of : Setting → ℕ
    hash_of (setting i v) = hash_value v

    pub hash_value : Value → ℕ
    hash_value empty = 0
    hash_value null = combine 0 0
    hash_value (plain n c) = hash_plain n c
    hash_value (array es) = hash_elements es 0
    hash_value (object m) = combine 0 (hash_settings m 0)

    pub hash_elements : Elements → (h : ℕ) → ℕ
    hash_elements nil h = h
    hash_elements (element s es) h = hash_elements es (combine h (hash_of s))

    -- PackageSettings::getHash1
    pub hash_settings : Settings → (h : ℕ) → ℕ
    hash_settings end h = h
    hash_settings (entry k v m) h =
        let h₂ = hash_of v in
        let skipped = hash_settings m h in
        let taken = hash_settings m (combine (combine h (hash_key k)) h₂) in
        if is_ignored v then skipped else if h₂ == 0 then skipped else taken
