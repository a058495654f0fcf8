-- ===== src/Support/Settings/Order.antt =====
-- The order of the keys under mergeMissing and mergeAndAssign.
use software.Base.{Result, ok, err}
use software.Support.Settings.{
  Error, Setting, setting, empty, null, plain, array, object, Settings, end, entry, at, put,
  merge_missing, merge_missing_all, merge_and_assign, merge_and_assign_all,
}
use software.Support.Settings.Keys.{IsOrdered, IsMap, IsAbove-IsMap, at-IsMap, put-IsMap}
use software.Support.Settings.Merge.{goes_on}

goes_on-IsMap :
    (e : Result Error (Unit {0})) (x : Settings) (y : Result Error (Unit {0}) × Settings)
    → IsMap x
    → IsMap y.1
    → IsMap (goes_on e x y).1
goes_on-IsMap (ok u) x y a b = b
goes_on-IsMap (err z) x y a b = a

mutual
  unfolding merge_missing IsOrdered

  merge_missing-IsOrdered_here :
      (s r : Setting) → IsOrdered s → IsOrdered r → IsOrdered (merge_missing s r).1
  merge_missing-IsOrdered_here (setting j empty) r a b = b
  merge_missing-IsOrdered_here (setting j null) r a b = a
  merge_missing-IsOrdered_here (setting j (plain n c)) r a b = a
  merge_missing-IsOrdered_here (setting j (array es)) r a b = a
  merge_missing-IsOrdered_here (setting j (object m)) (setting i (object r)) a b =
      merge_missing_all-IsMap m r a b
  merge_missing-IsOrdered_here (setting j (object m)) (setting i empty) a b = a
  merge_missing-IsOrdered_here (setting j (object m)) (setting i null) a b = a
  merge_missing-IsOrdered_here (setting j (object m)) (setting i (plain n c)) a b = a
  merge_missing-IsOrdered_here (setting j (object m)) (setting i (array es)) a b = a

  merge_missing_all-IsMap : (m r : Settings) → IsMap m → IsMap r → IsMap (merge_missing_all m r).1
  merge_missing_all-IsMap m end a b = a
  merge_missing_all-IsMap m (entry j v r) a b =
      let x = merge_missing (at j m) v in
      let kept =
        put-IsMap j x.1 m (merge_missing-IsOrdered_here (at j m) v (at-IsMap j m a) b.0) a in
      goes_on-IsMap x.0 (put j x.1 m) (merge_missing_all (put j x.1 m) r) kept
        (merge_missing_all-IsMap (put j x.1 m) r kept (IsAbove-IsMap j r b.1))

-- mergeMissing keeps the keys in order, when it throws too.
pub merge_missing-IsOrdered :
    (s r : Setting) → IsOrdered s → IsOrdered r → IsOrdered (merge_missing s r).1
merge_missing-IsOrdered s r a b = merge_missing-IsOrdered_here s r a b

mutual
  unfolding merge_and_assign IsOrdered

  merge_and_assign-IsOrdered_here :
      (s r : Setting) → IsOrdered s → IsOrdered r → IsOrdered (merge_and_assign s r).1
  merge_and_assign-IsOrdered_here (setting j empty) r a b = b
  merge_and_assign-IsOrdered_here (setting j null) r a b = b
  merge_and_assign-IsOrdered_here (setting j (plain n c)) r a b = b
  merge_and_assign-IsOrdered_here (setting j (array es)) r a b = b
  merge_and_assign-IsOrdered_here (setting j (object m)) (setting i (object r)) a b =
      merge_and_assign_all-IsMap m r a b
  merge_and_assign-IsOrdered_here (setting j (object m)) (setting i empty) a b = a
  merge_and_assign-IsOrdered_here (setting j (object m)) (setting i null) a b = a
  merge_and_assign-IsOrdered_here (setting j (object m)) (setting i (plain n c)) a b = a
  merge_and_assign-IsOrdered_here (setting j (object m)) (setting i (array es)) a b = a

  merge_and_assign_all-IsMap :
      (m r : Settings) → IsMap m → IsMap r → IsMap (merge_and_assign_all m r).1
  merge_and_assign_all-IsMap m end a b = a
  merge_and_assign_all-IsMap m (entry j v r) a b =
      let x = merge_and_assign (at j m) v in
      let kept =
        put-IsMap j x.1 m (merge_and_assign-IsOrdered_here (at j m) v (at-IsMap j m a) b.0) a in
      goes_on-IsMap x.0 (put j x.1 m) (merge_and_assign_all (put j x.1 m) r) kept
        (merge_and_assign_all-IsMap (put j x.1 m) r kept (IsAbove-IsMap j r b.1))

-- mergeAndAssign keeps the keys in order, when it throws too.
pub merge_and_assign-IsOrdered :
    (s r : Setting) → IsOrdered s → IsOrdered r → IsOrdered (merge_and_assign s r).1
merge_and_assign-IsOrdered s r a b = merge_and_assign-IsOrdered_here s r a b
