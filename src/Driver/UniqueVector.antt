-- ===== src/Driver/UniqueVector.antt =====
-- src/sw/driver/options.h: UniqueVector. The elements are numbers.
pub mod First
use software.Base.{
  ℕ, Bool, true, false, not, ◌==◌, if◌then◌else◌, List, [], ◌∷◌, ◌++◌, mem, filter_by,
}

-- The elements in order, and the set that insert() and erase() ask.
pub record UniqueVector : Type 0 where
  pub v : List ℕ
  pub u : List ℕ

abbrev pub empty_vector : UniqueVector
empty_vector = record { v = []; u = [] }

unfoldable pub insert_one : ℕ → UniqueVector → UniqueVector × Bool
insert_one e c =
    if mem e c.u then (c, false) else (record { v = c.v ++ e ∷ []; u = c.u ++ e ∷ [] }, true)

unfoldable pub insert_all : List ℕ → UniqueVector → UniqueVector
unfolding insert_one
insert_all [] c = c
insert_all (e ∷ es) c = insert_all es (insert_one e c).0

unfoldable pub erase_element : ℕ → UniqueVector → UniqueVector
erase_element e c =
    if mem e c.u
    then record { v = filter_by (λ x. not (x == e)) c.v; u = filter_by (λ x. not (x == e)) c.u }
    else c

unfoldable pub push_back_element : ℕ → UniqueVector → UniqueVector
push_back_element e c = record c { v = c.v ++ e ∷ [] }
