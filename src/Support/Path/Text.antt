-- ===== src/Support/Path/Text.antt =====
-- PackagePath and its text: parsing and printing.
use software.Base.{
  ℕ, ◌+◌, ◌-◌, ◌≤◌, ◌≡◌, ◌≢◌, refl, sym, ap, subst, ◌∙◌, Bool, true, false, not, ◌&&◌, ◌==◌,
  if◌then◌else◌, ltb, arith, ==_iff, List, [], ◌∷◌, ◌++◌, length, length-append, take, append-nil,
  append_assoc, ok, throw_if, block-ok, Bool-cases, inl, inr, All, All-append, All-map,
}
use software.Support.Path.{
  Str, PackagePath, bad_symbol, too_long, dot, is_valid_symbol, split, parse, joined, to_string,
}

module _ {ℓ} {A : Type ℓ} where
  take-append : (xs ys : List A) → take (length xs) (xs ++ ys) ≡ xs
  take-append [] ys = refl
  take-append (x ∷ xs) ys = ap (λ t. x ∷ t) (take-append xs ys)

joined-append :
    (delim : Str) (p q : PackagePath) → joined delim (p ++ q) ≡ joined delim p ++ joined delim q
unfolding joined
joined-append delim [] q = refl
joined-append delim (e ∷ es) q = simp (joined-append delim es q, append_assoc)

-- What the loop has read stands in the elements and in the one that it reads.
split-joined :
    (elements : PackagePath) (prev s : Str) (p : PackagePath)
    → split elements prev s ≡ ok p
    → joined (dot ∷ []) p ≡ joined (dot ∷ []) elements ++ prev ++ s ++ dot ∷ []
unfolding split joined
split-joined elements prev [] p e =
    let same : elements ++ prev ∷ [] ≡ p = cc in
    rw (sym same) (simp (joined-append, append-nil, append_assoc))
split-joined elements prev (c ∷ s) p e =
    let (u, checked, rest) =
      block-ok (throw_if (not (is_valid_symbol c)) (bad_symbol c))
        (λ u.
          if c == dot
          then split (elements ++ prev ∷ []) [] s
          else split elements (prev ++ c ∷ []) s)
        e in
    elim (Bool-cases (c == dot)) [
      | inl q ↦ rw ((==_iff c dot).0 q) (
          split-joined (elements ++ prev ∷ []) [] s p (rw q at rest)
          ∙ simp (joined-append, append-nil, append_assoc))
      | inr q ↦ split-joined elements (prev ++ c ∷ []) s p (rw q at rest) ∙ simp (append_assoc)
    ]

take-joined :
    (s : Str) (p : PackagePath) → joined (dot ∷ []) p ≡ s ++ dot ∷ [] → to_string (dot ∷ []) p ≡ s
unfolding joined to_string
take-joined [] [] e = refl
take-joined (c ∷ s) [] e = absurd (cc)
take-joined s (x ∷ xs) e =
    let size : length s + 1 - 1 ≡ length s = omega arith in
    rw (e, length-append s (dot ∷ []), size) (take-append s (dot ∷ []))

-- Printing a parsed path gives the text back.
pub to_string-parse : (s : Str) (p : PackagePath) → parse s ≡ ok p → to_string (dot ∷ []) p ≡ s
unfolding parse to_string
to_string-parse [] p e = let same : [] ≡ p = cc in rw (sym same) refl
to_string-parse (c ∷ s) p e =
    let (q, parsed, rest) = block-ok (split [] [] (c ∷ s)) _ e in
    let (u, short, returned) =
      block-ok (throw_if (ltb 4096 (length (c ∷ s))) too_long) (λ u. ok q) rest in
    let same : q ≡ p = cc in
    take-joined (c ∷ s) p (rw (sym same) (split-joined [] [] (c ∷ s) q parsed))

-- The symbols of an element.
abbrev pub is_plain : ℕ → Bool
is_plain c = is_valid_symbol c && not (c == dot)

-- The text of a path that is not empty.
text : Str → PackagePath → Str
text e [] = e
text e (f ∷ fs) = e ++ dot ∷ text f fs

text-joined : (e : Str) (es : PackagePath) → joined (dot ∷ []) (e ∷ es) ≡ text e es ++ dot ∷ []
unfolding joined text
text-joined e [] = simp (append-nil)
text-joined e (f ∷ fs) = rw (text-joined f fs) (simp (append_assoc))

abbrev pub IsPlain : Str → Type 0
IsPlain = All λ c. is_plain c ≡ true

plain-cases : (c : ℕ) → is_plain c ≡ true → (is_valid_symbol c ≡ true) × ((c == dot) ≡ false)
plain-cases c h = (ground (arith, h), ground (arith, h))

split-element :
    (elements : PackagePath) (prev e s : Str)
    → IsPlain e
    → split elements prev (e ++ s) ≡ split elements (prev ++ e) s
unfolding split
split-element elements prev [] s h = simp (append-nil)
split-element elements prev (c ∷ e) s h =
    let (valid, no_dot) = plain-cases c h.0 in
    rw (valid, no_dot) (split-element elements (prev ++ c ∷ []) e s h.1 ∙ simp (append_assoc))

split-text :
    (elements : PackagePath) (e : Str) (es : PackagePath)
    → All IsPlain (e ∷ es)
    → split elements [] (text e es) ≡ ok (elements ++ e ∷ es)
unfolding split text is_valid_symbol
split-text elements e [] h =
    ap (split elements []) (sym (append-nil e)) ∙ split-element elements [] e [] h.0
split-text elements e (f ∷ fs) h =
    split-element elements [] e (dot ∷ text f fs) h.0
    ∙ split-text (elements ++ e ∷ []) f fs h.1
    ∙ simp (append_assoc)

parse-text :
    (s : Str) (p : PackagePath) → split [] [] s ≡ ok p → s ≢ [] → length s ≤ 4096 → parse s ≡ ok p
unfolding parse
parse-text [] p e n l = absurd (n refl)
parse-text (c ∷ s) p e n l =
    let short : ltb 4096 (length (c ∷ s)) ≡ false = ground arith in rw (e, short) refl

text_nil : (e : Str) (es : PackagePath) → (e ∷ es) ≢ ([] ∷ []) → text e es ≢ []
unfolding text
text_nil [] [] n h = n refl
text_nil [] (f ∷ fs) n h = absurd (cc)
text_nil (c ∷ e) [] n h = absurd (cc)
text_nil (c ∷ e) (f ∷ fs) n h = absurd (cc)

-- Parsing a printed path gives the path back, when its elements consist of letters, digits and
-- underscores, its text is not too long, and it is not the path with one empty element.
pub parse-to_string :
    (p : PackagePath)
    → All IsPlain p
    → p ≢ [] ∷ []
    → length (to_string (dot ∷ []) p) ≤ 4096
    → parse (to_string (dot ∷ []) p) ≡ ok p
unfolding parse to_string
parse-to_string [] h n l = refl
parse-to_string (e ∷ es) h n l =
    let printed : to_string (dot ∷ []) (e ∷ es) ≡ text e es =
      take-joined (text e es) (e ∷ es) (text-joined e es) in
    rw printed (
      parse-text (text e es) (e ∷ es) (split-text [] e es h) (text_nil e es n)
        (subst (λ t. length t ≤ 4096) printed l))

text-All :
    (P : ℕ → Type 0) (e : Str) (es : PackagePath)
    → P dot
    → ((c : ℕ) → is_plain c ≡ true → P c)
    → All IsPlain (e ∷ es)
    → All P (text e es)
unfolding text
text-All P e [] d f h = All-map _ P f e h.0
text-All P e (g ∷ gs) d f h =
    All-append P e (dot ∷ text g gs) (All-map _ P f e h.0) (d, text-All P g gs d f h.1)

-- What holds of the dot and of plain symbols holds of every symbol of a printed path.
pub printed-All :
    (P : ℕ → Type 0) (p : PackagePath)
    → P dot
    → ((c : ℕ) → is_plain c ≡ true → P c)
    → All IsPlain p
    → All P (to_string (dot ∷ []) p)
unfolding to_string
printed-All P [] d f h = tt
printed-All P (e ∷ es) d f h =
    subst (All P) (sym (take-joined (text e es) (e ∷ es) (text-joined e es)))
      (text-All P e es d f h)
