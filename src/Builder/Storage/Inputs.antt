-- ===== src/Builder/Storage/Inputs.antt =====
-- getImplicitInputs after setImplicitInputs.
use software.Base.{
  ℕ, ◌≡◌, refl, sym, ap, ◌∙◌, Bool, true, false, ◌||◌, ◌==◌, ==_iff, if◌then◌else◌, Bool-cases,
  Option-cases, List, [], ◌∷◌, ◌++◌, insert, mem, mem-insert, Option, none, some, some-eq, Result,
  ok, err, inl, inr, arith, subst,
}
use software.Builder.Storage.{
  Names, write_name, Error, no_such_file, Paths, Record, get_inputs, get_implicit_inputs,
  set_inputs, set_implicit_inputs,
}

abbrev pub add_file : ℕ → List ℕ → List ℕ
add_file p files = if p == 0 then files else insert p files

-- The normal forms of the files, without the empty path.
abbrev pub normalized : Paths → List ℕ → (found : List ℕ) → List ℕ
normalized ps [] found = found
normalized ps (f ∷ fs) found = normalized ps fs (add_file (ps.normalize f) found)

get_inputs-known :
    (names : Names) (h p : ℕ) (hs files : List ℕ)
    → names h ≡ some p
    → get_inputs names (h ∷ hs) files ≡ get_inputs names hs (add_file p files)
unfolding get_inputs
get_inputs-known names h p hs files n =
    ap
      (λ o. elim o [
        | none ↦ err (no_such_file h)
        | some q ↦ get_inputs names hs (add_file q files)
      ])
      n

err-ok :
    (h : ℕ) (acc : List ℕ)
    → (let x : Result Error (List ℕ) = err (no_such_file h) in x) ≡ ok acc
    → ⊥
err-ok h acc e = cc

-- The first hash of inputs that are found.
get_inputs-first :
    (names : Names) (h : ℕ) (hs files acc : List ℕ)
    → get_inputs names (h ∷ hs) files ≡ ok acc
    → (p : ℕ) × (names h ≡ some p) × (get_inputs names hs (add_file p files) ≡ ok acc)
unfolding get_inputs
get_inputs-first names h hs files acc e = elim (Option-cases (names h)) [
  | inl n ↦
      elim (err-ok h acc (
        sym (
          ap
            (λ o. elim o [
              | none ↦ err (no_such_file h)
              | some q ↦ get_inputs names hs (add_file q files)
            ])
            n)
        ∙ e)) [ ]
  | inr (p, n) ↦ (p, n, sym (get_inputs-known names h p hs files n) ∙ e)
]

ok-eq : {a b : List ℕ} → (let x : Result Error (List ℕ) = ok a in x) ≡ ok b → a ≡ b
ok-eq h = cc

get_inputs-append :
    (names : Names) (hs : List ℕ) (h p : ℕ) (files acc : List ℕ)
    → get_inputs names hs files ≡ ok acc
    → names h ≡ some p
    → get_inputs names (hs ++ h ∷ []) files ≡ ok (add_file p acc)
unfolding get_inputs
get_inputs-append names [] h p files acc e n =
    get_inputs-known names h p [] files n ∙ ap (λ fs. ok (add_file p fs)) (ok-eq e)
get_inputs-append names (i ∷ hs) h p files acc e n =
    let (u, q, r) = get_inputs-first names i hs files acc e in
    get_inputs-known names i u (hs ++ h ∷ []) files q
    ∙ get_inputs-append names hs h p (add_file u files) acc r n

-- A name of another hash changes nothing.
get_inputs-write_name :
    (names : Names) (h p : ℕ) (hs files acc : List ℕ)
    → mem h hs ≡ false
    → get_inputs names hs files ≡ ok acc
    → get_inputs (write_name names h p) hs files ≡ ok acc
unfolding get_inputs
get_inputs-write_name names h p [] files acc m e = e
get_inputs-write_name names h p (i ∷ hs) files acc m e =
    let (u, q, r) = get_inputs-first names i hs files acc e in
    let other : (i == h) ≡ false = ground arith in
    let later : mem h hs ≡ false = ground arith in
    get_inputs-known (write_name names h p) i u hs files
      (ap (λ b. if b then some p else names i) other ∙ q)
    ∙ get_inputs-write_name names h p hs (add_file u files) acc later r

mem-add_file : (q p : ℕ) (files : List ℕ) → mem q files ≡ true → mem q (add_file p files) ≡ true
mem-add_file q p files m = ground (arith, mem-insert q p files)

mem-get_inputs-kept :
    (names : Names) (q : ℕ) (hs files acc : List ℕ)
    → get_inputs names hs files ≡ ok acc
    → mem q files ≡ true
    → mem q acc ≡ true
unfolding get_inputs
mem-get_inputs-kept names q [] files acc e m = subst (λ x. mem q x ≡ true) (ok-eq e) m
mem-get_inputs-kept names q (i ∷ hs) files acc e m =
    let (u, n, r) = get_inputs-first names i hs files acc e in
    mem-get_inputs-kept names q hs (add_file u files) acc r (mem-add_file q u files m)

-- What a hash stands for is among the files already.
add_file-known :
    (names : Names) (h p : ℕ) (hs files acc : List ℕ)
    → get_inputs names hs files ≡ ok acc
    → mem h hs ≡ true
    → names h ≡ some p
    → add_file p acc ≡ acc
add_file-known names h p [] files acc e m n = cc
add_file-known names h p (i ∷ hs) files acc e m n =
    let (u, q, r) = get_inputs-first names i hs files acc e in
    elim (Bool-cases (h == i)) [
      | inl b ↦
          let same : u ≡ p = some-eq (sym q ∙ ap names (sym ((==_iff h i).0 b)) ∙ n) in
          let r' : get_inputs names hs (add_file p files) ≡ ok acc =
            subst (λ x. get_inputs names hs (add_file x files) ≡ ok acc) same r in
          elim (Bool-cases (p == 0)) [
            | inl z ↦ ap (λ x. if x then acc else insert p acc) z
            | inr z ↦
                let put : mem p (add_file p files) ≡ true = ground (arith, mem-insert p p files) in
                let kept = mem-get_inputs-kept names p hs (add_file p files) acc r' put in
                ap (λ x. if x then acc else insert p acc) z
                ∙ ap (λ x. if x then acc else acc ++ p ∷ []) kept
          ]
      | inr b ↦ add_file-known names h p hs (add_file u files) acc r (ground arith) n
    ]

-- Every name stands under its hash.
unfoldable pub IsNamed : Paths → Names → Type 0
IsNamed ps names = (h p : ℕ) → names h ≡ some p → ps.path_hash p ≡ h

abbrev named : Names → (h p : ℕ) → Names
named names h p = elim (names h) [ none ↦ write_name names h p | some q ↦ names ]

abbrev IsRead : Names → List ℕ → List ℕ → Type 0
IsRead names hashes found = get_inputs names hashes [] ≡ ok found

IsNamed-write_name :
    (ps : Paths) (names : Names) (str : ℕ)
    → IsNamed ps names
    → IsNamed ps (write_name names (ps.path_hash str) str)
unfolding IsNamed
IsNamed-write_name ps names str n i p e =
    let h : ℕ = ps.path_hash str in
    let choice : Bool → Option ℕ = λ b. if b then some str else names i in
    elim (Bool-cases (i == h)) [
      | inl b ↦ ap ps.path_hash (some-eq (sym e ∙ ap choice b)) ∙ sym ((==_iff i h).0 b)
      | inr b ↦ n i p (sym (ap choice b) ∙ e)
    ]

none-some : (p : ℕ) → (let x : Option ℕ = none in x) ≡ some p → ⊥
none-some p h = cc

mem-unknown :
    (names : Names) (h : ℕ) (hs files acc : List ℕ)
    → get_inputs names hs files ≡ ok acc
    → names h ≡ none
    → mem h hs ≡ false
mem-unknown names h [] files acc e n = refl
mem-unknown names h (i ∷ hs) files acc e n =
    let (u, q, r) = get_inputs-first names i hs files acc e in
    elim (Bool-cases (h == i)) [
      | inl b ↦ elim (none-some u (sym n ∙ ap names ((==_iff h i).0 b) ∙ q)) [ ]
      | inr b ↦ ap (λ x. x || mem h hs) b ∙ mem-unknown names h hs (add_file u files) acc r n
    ]

-- One file of setImplicitInputs.
set_inputs-step :
    (ps : Paths) (names : Names) (str : ℕ) (hashes acc : List ℕ)
    → ((q : ℕ) → names (ps.path_hash str) ≡ some q → q ≡ str)
    → IsNamed ps names
    → IsRead names hashes acc
    → IsNamed ps (named names (ps.path_hash str) str)
      × IsRead
          (named names (ps.path_hash str) str)
          (insert (ps.path_hash str) hashes)
          (add_file str acc)
unfolding IsNamed
set_inputs-step ps names str hashes acc own named_so e =
    let h : ℕ = ps.path_hash str in
    let Good : Names → Type 0 = λ n. IsNamed ps n × IsRead n (insert h hashes) (add_file str acc) in
    let pick : Option ℕ → Names = λ o. elim o [ none ↦ write_name names h str | some q ↦ names ] in
    let all : (n : Names)
        → n h ≡ some str
        → IsRead n hashes acc
        → IsRead n (insert h hashes) (add_file str acc) =
      λ n k r. elim (Bool-cases (mem h hashes)) [
        | inl m ↦
            ap (λ b. get_inputs n (if b then hashes else hashes ++ h ∷ []) []) m
            ∙ r
            ∙ ap (λ x. ok x) (sym (add_file-known n h str hashes [] acc r m k))
        | inr m ↦
            ap (λ b. get_inputs n (if b then hashes else hashes ++ h ∷ []) []) m
            ∙ get_inputs-append n hashes h str [] acc r k
      ] in
    elim (Option-cases (names h)) [
      | inl n ↦
          let absent : mem h hashes ≡ false = mem-unknown names h hashes [] acc e n in
          let read = get_inputs-write_name names h str hashes [] acc absent e in
          let found : write_name names h str h ≡ some str = ground arith in
          subst (λ o. Good (pick o)) (sym n)
            (IsNamed-write_name ps names str named_so, all (write_name names h str) found read)
      | inr (q, n) ↦
          let is_str : q ≡ str = own q n in
          subst (λ o. Good (pick o)) (sym n) (named_so, all names (n ∙ ap (λ x. some x) is_str) e)
    ]

-- No name in the table is another path with the hash of one of the files.
abbrev pub IsOwn : Paths → List ℕ → Names → Type 0
IsOwn ps files names =
    (f q : ℕ)
    → mem f files ≡ true
    → names (ps.path_hash (ps.normalize f)) ≡ some q
    → q ≡ ps.normalize f

-- Files with one hash are one file.
abbrev pub IsDistinct : Paths → List ℕ → Type 0
IsDistinct ps files =
    (f g : ℕ)
    → mem f files ≡ true
    → mem g files ≡ true
    → ps.path_hash (ps.normalize f) ≡ ps.path_hash (ps.normalize g)
    → ps.normalize f ≡ ps.normalize g

mem-later : (f g : ℕ) (fs : List ℕ) → mem g fs ≡ true → mem g (f ∷ fs) ≡ true
mem-later f g fs m = ground arith

mem-first : (f : ℕ) (fs : List ℕ) → mem f (f ∷ fs) ≡ true
mem-first f fs = ground arith

IsOwn-named :
    (ps : Paths) (f : ℕ) (fs : List ℕ) (names : Names)
    → IsDistinct ps (f ∷ fs)
    → IsOwn ps (f ∷ fs) names
    → IsOwn ps fs (named names (ps.path_hash (ps.normalize f)) (ps.normalize f))
IsOwn-named ps f fs names distinct own =
    let str : ℕ = ps.normalize f in
    let h : ℕ = ps.path_hash str in
    let pick : Option ℕ → Names = λ o. elim o [ none ↦ write_name names h str | some q ↦ names ] in
    let kept : IsOwn ps fs names = λ g q m e. own g q (mem-later f g fs m) e in
    elim (Option-cases (names h)) [
      | inr (q, n) ↦ subst (λ o. IsOwn ps fs (pick o)) (sym n) kept
      | inl n ↦
          subst (λ o. IsOwn ps fs (pick o)) (sym n)
            (λ g q m e.
              let i : ℕ = ps.path_hash (ps.normalize g) in
              let choice : Bool → Option ℕ = λ b. if b then some str else names i in
              elim (Bool-cases (i == h)) [
                | inl b ↦
                    some-eq (sym e ∙ ap choice b)
                    ∙ distinct f g (mem-first f fs) (mem-later f g fs m) (sym ((==_iff i h).0 b))
                | inr b ↦ kept g q m (sym (ap choice b) ∙ e)
              ])
    ]

set_inputs-IsRead :
    (ps : Paths) (files hashes acc : List ℕ) (names : Names)
    → IsDistinct ps files
    → IsOwn ps files names
    → IsNamed ps names
    → IsRead names hashes acc
    → IsRead
        (set_inputs ps files hashes names).1
        (set_inputs ps files hashes names).0
        (normalized ps files acc)
unfolding set_inputs
set_inputs-IsRead ps [] hashes acc names distinct own n e = e
set_inputs-IsRead ps (f ∷ fs) hashes acc names distinct own n e =
    let str : ℕ = ps.normalize f in
    let (n', e') = set_inputs-step ps names str hashes acc (λ q. own f q (mem-first f fs)) n e in
    set_inputs-IsRead ps fs (insert (ps.path_hash str) hashes) (add_file str acc)
      (named names (ps.path_hash str) str)
      (λ g k m m'. distinct g k (mem-later f g fs m) (mem-later f k fs m'))
      (IsOwn-named ps f fs names distinct own) n' e'

-- What getImplicitInputs gives after setImplicitInputs: the normal forms of the files, each once and without the
-- empty path, when every name of the table stands under its hash, no other name stands under the hash of a
-- file, and files with different normal forms have different hashes.
pub get_implicit_inputs-set_implicit_inputs :
    (ps : Paths) (files : List ℕ) (r : Record) (names : Names)
    → IsDistinct ps files
    → IsOwn ps files names
    → IsNamed ps names
    → get_implicit_inputs
        (set_implicit_inputs ps files r names).1
        (set_implicit_inputs ps files r names).0
      ≡ ok (normalized ps files [])
unfolding get_implicit_inputs set_implicit_inputs get_inputs
get_implicit_inputs-set_implicit_inputs ps files r names distinct own n =
    set_inputs-IsRead ps files [] [] names distinct own n refl
