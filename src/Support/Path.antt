-- ===== src/Support/Path.antt =====
-- src/sw/support/package_path.h, .cpp and .inl: PackagePath, the dotted name of a package. A string is
-- the list of its characters, which are numbers; a path is the list of its elements.
pub mod Text
pub mod Tree
pub mod Order
use software.Base.{
  ℕ, zero, suc, ◌+◌, ◌-◌, Bool, true, false, not, ◌&&◌, ◌||◌, ◌==◌, ltb, leb, if◌then◌else◌, List,
  [], ◌∷◌, ◌++◌, length, take, drop, map, Result, ok, err, ◌>>=◌, ◌>>◌, throw_if,
}

abbrev pub Str : Type 0
Str = List ℕ

abbrev pub PackagePath : Type 0
PackagePath = List Str

pub data Error : Type 0 where
  bad_symbol : ℕ → Error
  too_long : Error

abbrev pub dot : ℕ
dot = 46

-- std::tolower and std::isalnum of the "C" locale
unfoldable pub to_lower : ℕ → ℕ
to_lower c = if leb 65 c && leb c 90 then c + 32 else c

unfoldable pub is_alnum : ℕ → Bool
is_alnum c = leb 48 c && leb c 57 || leb 65 c && leb c 90 || leb 97 c && leb c 122

unfoldable pub is_valid_symbol : ℕ → Bool
unfolding is_alnum
is_valid_symbol c = ltb 0 c && leb c 127 && (is_alnum c || c == dot || c == 95)

-- std::equal on two whole ranges
abbrev pub equal_by {ℓ} : {A : Type ℓ} → (A → A → Bool) → List A → List A → Bool
equal_by eq [] [] = true
equal_by eq (x ∷ xs) (y ∷ ys) = eq x y && equal_by eq xs ys
equal_by eq [] (y ∷ ys) = false
equal_by eq (x ∷ xs) [] = false

abbrev pub same_string : Str → Str → Bool
same_string = equal_by λ a b. a == b

-- std::lexicographical_compare
abbrev pub less_by {ℓ} : {A : Type ℓ} → (A → A → Bool) → List A → List A → Bool
less_by lt [] [] = false
less_by lt [] (y ∷ ys) = true
less_by lt (x ∷ xs) [] = false
less_by lt (x ∷ xs) (y ∷ ys) =
    let rest = less_by lt xs ys in if lt x y then true else if lt y x then false else rest

-- The loop of the constructor: `data`, the element from `prev` on, and the characters ahead.
unfoldable pub split : PackagePath → (prev s : Str) → Result Error PackagePath
split elements prev [] = ok (elements ++ prev ∷ [])
split elements prev (c ∷ s) = do
  throw_if (not (is_valid_symbol c)) (bad_symbol c)
  (if c == dot then split (elements ++ prev ∷ []) [] s else split elements (prev ++ c ∷ []) s)

-- PackagePath(String)
unfoldable pub parse : Str → Result Error PackagePath
unfolding split
parse s = do
  p ← elim s [ [] ↦ ok [] | c ∷ cs ↦ split [] [] (c ∷ cs) ]
  throw_if (ltb 4096 (length s)) too_long
  ok p

-- The loop of `toString`, which puts the delimiter behind every element.
unfoldable pub joined : Str → PackagePath → Str
joined delim [] = []
joined delim (e ∷ es) = e ++ delim ++ joined delim es

unfoldable pub to_string : Str → PackagePath → Str
unfolding joined
to_string delim [] = []
to_string delim (e ∷ es) = let p = joined delim (e ∷ es) in take (length p - length delim) p

unfoldable pub to_string_lower : Str → PackagePath → Str
unfolding to_string to_lower
to_string_lower delim p = map to_lower (to_string delim p)

-- operator==
unfoldable pub same_path : PackagePath → PackagePath → Bool
unfolding to_lower
same_path = equal_by (equal_by λ a b. to_lower a == to_lower b)

-- operator/
abbrev pub append_path : PackagePath → PackagePath → PackagePath
append_path p e = p ++ e

unfoldable pub parent : PackagePath → PackagePath
parent [] = []
parent (e ∷ es) = take (length es) (e ∷ es)

-- The loop of isRootOf; the other path is the longer one.
unfoldable pub same_front : PackagePath → PackagePath → Bool
same_front [] q = true
same_front (x ∷ xs) [] = true
same_front (x ∷ xs) (y ∷ ys) = same_string x y && same_front xs ys

unfoldable pub is_root_of : PackagePath → PackagePath → Bool
unfolding same_front
is_root_of p q = if leb (length q) (length p) then false else same_front p q

-- The loop of `back`: the elements from the first difference on, or nothing.
unfoldable pub from_difference : (root p : PackagePath) → PackagePath
from_difference [] p = []
from_difference (x ∷ xs) [] = []
from_difference (x ∷ xs) (y ∷ ys) = if same_string y x then from_difference xs ys else y ∷ ys

unfoldable pub back : (p root : PackagePath) → PackagePath
unfolding from_difference is_root_of
back p root =
    if not (is_root_of root p)
    then []
    else elim (from_difference root p) [ [] ↦ drop (length root) p | e ∷ es ↦ e ∷ es ]

-- The while loop of hasSameParent, on the number of parents that `p1` has, itself included.
unfoldable pub common_root : ℕ → (p1 p q : PackagePath) → Bool
unfolding is_root_of parent
common_root zero p1 p q = false
common_root (suc n) [] p q = false
common_root (suc n) (e ∷ es) p q =
    let up = common_root n (parent (e ∷ es)) p q in
    if is_root_of (e ∷ es) p && is_root_of (e ∷ es) q then true else up

unfoldable pub has_same_parent : PackagePath → PackagePath → Bool
unfolding common_root same_path
has_same_parent [] q = false
has_same_parent (e ∷ es) [] = false
has_same_parent (e ∷ es) (f ∷ fs) =
    if same_path (e ∷ es) (f ∷ fs)
    then true
    else common_root (suc (length (e ∷ es))) (e ∷ es) (e ∷ es) (f ∷ fs)

-- package_path.inl, in its order: loc, org, pub, com, pvt
abbrev pub namespaces : List Str
namespaces =
    (108 ∷ 111 ∷ 99 ∷ [])
    ∷ (111 ∷ 114 ∷ 103 ∷ [])
    ∷ (112 ∷ 117 ∷ 98 ∷ [])
    ∷ (99 ∷ 111 ∷ 109 ∷ [])
    ∷ (112 ∷ 118 ∷ 116 ∷ [])
    ∷ []

-- operator<, with Boost's iequals
module _ (iequals : Str → Str → Bool) where
  unfoldable pub namespace_order : List Str → Str → Str → Bool
  namespace_order [] a b = false
  namespace_order (n ∷ ns) a b =
      let rest = namespace_order ns a b in
      if iequals a n then true else if iequals b n then false else rest

  unfoldable pub less : PackagePath → PackagePath → Bool
  unfolding namespace_order to_lower
  less [] [] = false
  less [] (y ∷ ys) = true
  less (x ∷ xs) [] = false
  less (x ∷ xs) (y ∷ ys) =
      if iequals x y
      then less_by (less_by λ a b. ltb (to_lower a) (to_lower b)) (x ∷ xs) (y ∷ ys)
      else namespace_order namespaces x y

-- Whether the string is one of the namespaces.
is_namespace : List Str → Str → Bool
is_namespace [] e = false
is_namespace (n ∷ ns) e = same_string e n || is_namespace ns e

unfoldable pub has_namespace : PackagePath → Bool
unfolding is_namespace
has_namespace [] = false
has_namespace (e ∷ es) = is_namespace namespaces e

-- isAbsolute
unfoldable pub is_absolute : PackagePath → (username : Str) → Bool
unfolding has_namespace
is_absolute p [] = has_namespace p && ltb 1 (length p)
is_absolute [] (c ∷ cs) = false
is_absolute (e ∷ []) (c ∷ cs) = false
is_absolute (e ∷ owner ∷ tail) (c ∷ cs) =
    has_namespace (e ∷ owner ∷ tail)
    && (ltb 2 (length (e ∷ owner ∷ tail)) && same_string owner (c ∷ cs))
