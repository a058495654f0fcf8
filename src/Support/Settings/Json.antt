-- ===== src/Support/Settings/Json.antt =====
-- toJson and mergeFromJson of PackageSetting and PackageSettings (src/sw/support/settings.cpp). A value of
-- nlohmann::json is modelled as far as toJson makes one; of settings that are read when an exception comes
-- the exception is kept.
pub mod Reading
use software.Base.{
  ℕ, Bool, true, false, not, ◌&&◌, ◌||◌, ◌==◌, ltb, leb, if◌then◌else◌, Result, ok, err, ◌>>=◌,
}
use software.Support.Settings.{
  Setting, setting, Value, empty, null, plain, array, object, Elements, nil, element, Settings, end,
  entry, is_ignored, is_empty, unset, at, put,
}
use software.Support.Name.{rethrow}
use software.Support.Settings.Texts.{TextError, Contents, print_content, parse_content}

mutual
  pub data Json : Type 0 where
    nothing : Json
    -- a bool, a number or a string
    content : ℕ → Json
    list : Items → Json
    fields : Fields → Json
    -- The object that toJson makes of a setting: "index", "value", and whether it has "protperties".
    made : (index : ℕ) → (value : Json) → (has_properties : Bool) → Json

  pub data Items : Type 0 where
    no_items : Items
    item : Json → Items → Items

  pub data Fields : Type 0 where
    no_fields : Fields
    field : (key : ℕ) → Json → Fields → Fields

pub data JsonError : Type 0 where
  not_an_object not_settings type_error no_index unimplemented : JsonError
  text_error : TextError → JsonError

-- A value that nothing was put into is null, else it is an array or an object.
abbrev pub of_items : Items → Json
of_items no_items = nothing
of_items (item j js) = list (item j js)

abbrev pub of_fields : Fields → Json
of_fields no_fields = nothing
of_fields (field k j fs) = fields (field k j fs)

-- Variant::index
abbrev pub index : Value → ℕ
index empty = 0
index null = 1
index (plain n c) = n
index (array es) = 7
index (object m) = 8

-- The alternatives that are read by GET_RAW or as a path. Those from 6 on are written as texts.
abbrev pub is_raw : ℕ → Bool
is_raw n = (leb 2 n && leb n 6) || (leb 10 n && leb n 14)

-- getMap
unfoldable pub get_map : Setting → Result JsonError Settings
get_map (setting i empty) = ok end
get_map (setting i (object m)) = ok m
get_map _ = err not_settings

-- getMap resets an empty setting.
abbrev pub map_flag : Setting → Bool
map_flag s = not (is_empty s) && is_ignored s

module _ {V R : Type 0} (cs : Contents V R) where
  unfoldable mutual
    unfolding print_content

    pub to_json : Setting → Json
    to_json (setting i v) = made (index v) (value_to_json v) i

    pub value_to_json : Value → Json
    value_to_json empty = nothing
    value_to_json null = nothing
    value_to_json (plain n c) = content (print_content cs n c)
    value_to_json (array es) = of_items (elements_to_json es)
    value_to_json (object m) = of_fields (settings_to_json m)

    pub elements_to_json : Elements → Items
    elements_to_json nil = no_items
    elements_to_json (element s es) = item (to_json s) (elements_to_json es)

    pub settings_to_json : Settings → Fields
    settings_to_json end = no_fields
    settings_to_json (entry k v m) =
        let rest = settings_to_json m in
        if is_ignored v || is_empty v then rest else field k (to_json v) rest

  unfoldable pub read_content : ℕ → Json → Result JsonError Setting
  unfolding parse_content
  read_content n (content t) = do
    c ← rethrow text_error (parse_content cs n t)
    ok (setting false (plain n c))
  read_content n _ = err type_error

  unfoldable mutual
    unfolding read_content get_map at put is_empty

    -- PackageSetting::mergeFromJson
    pub merge_from_json : Json → Setting → Result JsonError Setting
    merge_from_json (made n j p) s =
        let elements = read_elements j in
        let merged = (do
          m ← get_map s
          m' ← merge_settings j m
          ok (setting (map_flag s) (object m'))) in
        if (n == 1) || (n == 9)
        then ok s
        else if is_raw n
        then read_content n j
        else if n == 7
        then (do es ← elements; ok (setting false (array es)))
        else if n == 8
        then merged
        else err unimplemented
    merge_from_json (fields fs) s = err no_index
    merge_from_json _ s = err not_an_object

    -- The loop over an array: null has no elements, and a value that is no array has itself or its fields.
    pub read_elements : Json → Result JsonError Elements
    read_elements nothing = ok nil
    read_elements (list js) = read_items js
    read_elements (fields fs) = read_fields fs
    read_elements _ = err not_an_object

    pub read_items : Items → Result JsonError Elements
    read_items no_items = ok nil
    read_items (item j js) =
        let rest = read_items js in (do s ← merge_from_json j unset; es ← rest; ok (element s es))

    pub read_fields : Fields → Result JsonError Elements
    read_fields no_fields = ok nil
    read_fields (field k j fs) =
        let rest = read_fields fs in (do s ← merge_from_json j unset; es ← rest; ok (element s es))

    -- PackageSettings::mergeFromJson
    pub merge_settings : Json → Settings → Result JsonError Settings
    merge_settings (fields fs) m = merge_fields fs m
    merge_settings _ m = err not_an_object

    pub merge_fields : Fields → Settings → Result JsonError Settings
    merge_fields no_fields m = ok m
    merge_fields (field k j fs) m = do s ← merge_from_json j (at k m); merge_fields fs (put k s m)
