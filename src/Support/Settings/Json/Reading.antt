-- ===== src/Support/Settings/Json/Reading.antt =====
-- Reading what toJson wrote.
use software.Base.{
  ℕ, ◌<◌, ◌≡◌, refl, sym, ap, ◌∙◌, true, false, ◌||◌, if◌then◌else◌, ok, ◌>>=◌, arith, subst,
}
use software.Support.Settings.{
  Setting, setting, Value, empty, null, plain, array, object, Elements, nil, element, Settings, end,
  entry, is_ignored, is_empty, unset, at, put, find,
}
use software.Support.Settings.Keys.{IsOrdered, AreOrdered, IsMap, IsAbove, IsAbove-IsMap}
use software.Support.Name.{rethrow}
use software.Support.Settings.Texts.{Contents, print_content, parse_content}
use software.Support.Settings.Json.{
  text_error, Items, no_items, item, field, of_items, of_fields, to_json, elements_to_json,
  settings_to_json, is_raw, merge_from_json, read_elements, read_items, merge_settings,
  merge_fields, content, made, read_content,
}

module _ {V R : Type 0} (cs : Contents V R) where
  -- What can be read: nothing in it is empty, null, a resolver, an object without settings, or ignored in
  -- comparisons, and each path, version, name and range is what is read from its text.
  unfoldable mutual
    pub IsReadable : Setting → Type 0
    IsReadable (setting i v) = (i ≡ false) × ValueIsReadable v

    pub ValueIsReadable : Value → Type 0
    ValueIsReadable empty = ⊥
    ValueIsReadable null = ⊥
    ValueIsReadable (plain n c) =
        (is_raw n ≡ true) × (parse_content cs n (print_content cs n c) ≡ ok c)
    ValueIsReadable (array es) = AreReadable es
    ValueIsReadable (object end) = ⊥
    ValueIsReadable (object (entry k s m)) = IsReadable s × AllAreReadable m

    pub AreReadable : Elements → Type 0
    AreReadable nil = Unit
    AreReadable (element s es) = IsReadable s × AreReadable es

    pub AllAreReadable : Settings → Type 0
    AllAreReadable end = Unit
    AllAreReadable (entry k s m) = IsReadable s × AllAreReadable m

  -- The keys of the settings are below a number.
  AreBelow : Settings → ℕ → Type 0
  AreBelow end b = Unit
  AreBelow (entry k s m) b = (k < b) × AreBelow m b

  abbrev Follows : Settings → Settings → Type 0
  Follows m end = Unit
  Follows m (entry k s r) = AreBelow m k

  abbrev join : Settings → Settings → Settings
  join end r = r
  join (entry k s m) r = entry k s (join m r)

  AreBelow-put :
      (m : Settings) (k b : ℕ) (s : Setting) → AreBelow m k → k < b → AreBelow (put k s m) b
  unfolding put AreBelow
  AreBelow-put end k b s h l = (l, tt)
  AreBelow-put (entry j t m) k b s h l = ground (arith, AreBelow-put m k b s)

  at-AreBelow : (m : Settings) (k : ℕ) → AreBelow m k → at k m ≡ unset
  unfolding at find AreBelow
  at-AreBelow end k h = refl
  at-AreBelow (entry j t m) k h = ground (arith, at-AreBelow m k)

  join-put :
      (m r : Settings) (k : ℕ) (s : Setting)
      → AreBelow m k
      → join (put k s m) r ≡ join m (entry k s r)
  unfolding put AreBelow
  join-put end r k s h = refl
  join-put (entry j t m) r k s h = ground (arith, join-put m r k s)

  join-end : (m : Settings) → join m end ≡ m
  join-end end = refl
  join-end (entry k s m) = ap (entry k s) (join-end m)

  read-raw :
      (n c : ℕ)
      → is_raw n ≡ true
      → parse_content cs n (print_content cs n c) ≡ ok c
      → merge_from_json cs (made n (content (print_content cs n c)) false) unset
        ≡ ok (setting false (plain n c))
  unfolding merge_from_json read_content
  read-raw n c h e =
      let t : ℕ = print_content cs n c in
      let read : read_content cs n (content t) ≡ ok (setting false (plain n c)) =
        ap (λ x. rethrow text_error x >>= λ c'. ok (setting false (plain n c'))) e in
      let reach : merge_from_json cs (made n (content t) false) unset
          ≡ read_content cs n (content t) =
        ground arith in
      reach ∙ read

  IsReadable-written : (s : Setting) → IsReadable s → (is_ignored s || is_empty s) ≡ false
  unfolding IsReadable is_empty
  IsReadable-written (setting i empty) (e, r) = elim r [ ]
  IsReadable-written (setting i null) (e, r) = elim r [ ]
  IsReadable-written (setting i (plain n c)) (e, r) = rw e refl
  IsReadable-written (setting i (array es)) (e, r) = rw e refl
  IsReadable-written (setting i (object m)) (e, r) = rw e refl

  settings_to_json-entry :
      (k : ℕ) (s : Setting) (m : Settings)
      → IsReadable s
      → settings_to_json cs (entry k s m) ≡ field k (to_json cs s) (settings_to_json cs m)
  unfolding to_json
  settings_to_json-entry k s m r =
      ap (λ b. if b then settings_to_json cs m else field k (to_json cs s) (settings_to_json cs m))
        (IsReadable-written s r)

  Follows-put :
      (m r : Settings) (k : ℕ) (s : Setting) → AreBelow m k → IsAbove k r → Follows (put k s m) r
  unfolding IsOrdered
  Follows-put m end k s h a = tt
  Follows-put m (entry j t r) k s h a = AreBelow-put m k j s h a.0

  read_elements-list : (js : Items) → read_elements cs (of_items js) ≡ read_items cs js
  unfolding merge_from_json
  read_elements-list no_items = refl
  read_elements-list (item j js) = refl

  mutual
    unfolding to_json merge_from_json IsReadable IsOrdered AreBelow

    merge_from_json-to_json_here :
        (s : Setting) → IsReadable s → IsOrdered s → merge_from_json cs (to_json cs s) unset ≡ ok s
    merge_from_json-to_json_here (setting i empty) (e, r) o = elim r [ ]
    merge_from_json-to_json_here (setting i null) (e, r) o = elim r [ ]
    merge_from_json-to_json_here (setting i (plain n c)) (e, r) o =
        subst
          (λ b.
            merge_from_json cs (made n (content (print_content cs n c)) b) unset
            ≡ ok (setting b (plain n c)))
          (sym e) (read-raw n c r.0 r.1)
    merge_from_json-to_json_here (setting i (array es)) (e, r) o =
        ap (λ x. x >>= λ es'. ok (setting false (array es')))
          (read_elements-list (elements_to_json cs es) ∙ read_items-elements_to_json es r o)
        ∙ ap (λ b. ok (setting b (array es))) (sym e)
    merge_from_json-to_json_here (setting i (object end)) (e, r) o = elim r [ ]
    merge_from_json-to_json_here (setting i (object (entry k s m))) (e, r) o =
        ap (λ fs. merge_settings cs (of_fields fs) end >>= λ m'. ok (setting false (object m')))
          (settings_to_json-entry k s m r.0)
        ∙ ap (λ x. x >>= λ m'. ok (setting false (object m')))
            (ap (λ fs. merge_fields cs fs end) (sym (settings_to_json-entry k s m r.0))
              ∙ merge_fields-settings_to_json (entry k s m) end r o tt)
        ∙ ap (λ b. ok (setting b (object (entry k s m)))) (sym e)

    read_items-elements_to_json :
        (es : Elements)
        → AreReadable es
        → AreOrdered es
        → read_items cs (elements_to_json cs es) ≡ ok es
    read_items-elements_to_json nil r o = refl
    read_items-elements_to_json (element s es) (r, rs) (o, os) =
        ap (λ x. x >>= λ s'. read_items cs (elements_to_json cs es) >>= λ es'. ok (element s' es'))
          (merge_from_json-to_json_here s r o)
        ∙ ap (λ x. x >>= λ es'. ok (element s es')) (read_items-elements_to_json es rs os)

    merge_fields-settings_to_json :
        (r m : Settings)
        → AllAreReadable r
        → IsMap r
        → Follows m r
        → merge_fields cs (settings_to_json cs r) m ≡ ok (join m r)
    merge_fields-settings_to_json end m a o f = ap (λ x. ok x) (sym (join-end m))
    merge_fields-settings_to_json (entry k s r) m (a, rest) (o, os) f =
        ap (λ fs. merge_fields cs fs m) (settings_to_json-entry k s r a)
        ∙ ap
            (λ t. merge_from_json cs (to_json cs s) t >>= λ t'.
              merge_fields cs (settings_to_json cs r) (put k t' m))
            (at-AreBelow m k f)
        ∙ ap (λ x. x >>= λ t'. merge_fields cs (settings_to_json cs r) (put k t' m))
            (merge_from_json-to_json_here s a o)
        ∙ merge_fields-settings_to_json r (put k s m) rest (IsAbove-IsMap k r os)
            (Follows-put m r k s f os)
        ∙ ap (λ x. ok x) (join-put m r k s f)

  -- Reading what toJson wrote gives the settings again, when nothing in them is empty, null, a resolver, an
  -- object without settings, or ignored in comparisons, the keys are in order, and each path, package path,
  -- version, name and range in them is what is read from its own text.
  pub merge_from_json-to_json :
      (s : Setting) → IsReadable s → IsOrdered s → merge_from_json cs (to_json cs s) unset ≡ ok s
  merge_from_json-to_json s r o = merge_from_json-to_json_here s r o
