-- ===== src/Suites/Yaml/Cleaning.antt =====
-- Cleaned values are clean: what `cleanObject` and the reading of the assertions return, they leave as it is.
use testing_environment.Common.{
  String, Bool, true, false, Option, none, some, List, [], ◌∷◌, map, or_else, if◌then◌else◌, str_eq,
  str_eq_iff, Bool-cases, ◌≡◌, refl, ap, ◌∙◌, inl, inr, All, subst,
}
use testing_environment.Common.Text.{trim, is_blank}
use testing_environment.Common.Text.Trimming.{trim-trim, is_blank-trim}
use testing_environment.Suites.Flow.{Json, FlowAssertion, ExecutionAssertion, AssertionOperator}
use testing_environment.Suites.Steps.{
  is_dropped, some_if_any, filled, filled_texts, clean_object, clean_texts, clean_value, not_empty,
  to_assertion, assertion_entries, to_assertions, add_option,
}
use testing_environment.Suites.Yaml.Export.{to_raw_assertion, raw_assertions}

filled-filled : (es : List (String × Json)) → filled (filled es) ≡ filled es
filled-filled [] = refl
filled-filled ((k, v) ∷ es) = elim (Bool-cases (is_dropped v)) [
  | inl e ↦ rw e (filled-filled es)
  | inr e ↦ rw e (rw e (ap (λ x. (k, v) ∷ x) (filled-filled es)))
]

filled_texts_twice :
    (es : List (String × String)) → filled_texts (filled_texts es) ≡ filled_texts es
filled_texts_twice [] = refl
filled_texts_twice ((k, v) ∷ es) = elim (Bool-cases (str_eq v "")) [
  | inl e ↦ rw e (filled_texts_twice es)
  | inr e ↦ rw e (rw e (ap (λ x. (k, v) ∷ x) (filled_texts_twice es)))
]

clean_some :
    (es : List (String × Json)) → filled es ≡ es → clean_object (some_if_any es) ≡ some_if_any es
unfolding clean_object
clean_some [] h = refl
clean_some (e ∷ es) h = ap some_if_any h

clean_texts_some :
    (es : List (String × String))
    → filled_texts es ≡ es
    → clean_texts (some_if_any es) ≡ some_if_any es
unfolding clean_texts
clean_texts_some [] h = refl
clean_texts_some (e ∷ es) h = ap some_if_any h

pub clean_object_twice :
    (o : Option (List (String × Json))) → clean_object (clean_object o) ≡ clean_object o
unfolding clean_object
clean_object_twice none = refl
clean_object_twice (some es) = clean_some (filled es) (filled-filled es)

pub clean_texts_twice :
    (o : Option (List (String × String))) → clean_texts (clean_texts o) ≡ clean_texts o
unfolding clean_texts
clean_texts_twice none = refl
clean_texts_twice (some es) = clean_texts_some (filled_texts es) (filled_texts_twice es)

pub clean_value_twice : (o : Option Json) → clean_value (clean_value o) ≡ clean_value o
clean_value_twice none = refl
clean_value_twice (some v) = elim (Bool-cases (is_dropped v)) [
  | inl e ↦ rw e refl
  | inr e ↦ rw e (rw e refl)
]

pub not_empty_twice : (o : Option String) → not_empty (not_empty o) ≡ not_empty o
not_empty_twice none = refl
not_empty_twice (some s) = elim (Bool-cases (str_eq s "")) [
  | inl e ↦ rw e refl
  | inr e ↦ rw e (rw e refl)
]

-- An assertion that was read is read from what it is exported as.
abbrev pub IsRead : ExecutionAssertion → Type 0
IsRead a =
    (is_blank a.field_path ≡ false)
    × (trim a.field_path ≡ a.field_path)
    × (not_empty a.expected_value ≡ a.expected_value)

blank_empty : is_blank "" ≡ true
unfolding is_blank trim
blank_empty = refl

-- `cleanObject` keeps a text that is not blank.
pub present_text : (s : String) → is_blank s ≡ false → not_empty (some s) ≡ some s
present_text s h = elim (Bool-cases (str_eq s "")) [
  | inl e ↦ cc (h, blank_empty, ap is_blank ((str_eq_iff s "").0 e))
  | inr e ↦ rw e refl
]

passes_if :
    {A : Type 0} (b : Bool) (r a : A)
    → (if b then none else some r) ≡ some a
    → (b ≡ false) × (r ≡ a)
passes_if true r a h = cc
passes_if false r a h = (refl, cc)

to_assertion-IsRead :
    (f : FlowAssertion) (a : ExecutionAssertion) → to_assertion f ≡ some a → IsRead a
to_assertion-IsRead f = read_fields f.field_path f.operator f.expected_value
  where
    read_fields :
        (p : Option String) (o : Option AssertionOperator) (e : Option String)
        (a : ExecutionAssertion)
        → to_assertion (record { field_path = p; operator = o; expected_value = e }) ≡ some a
        → IsRead a
    read_fields none o e a h = cc
    read_fields (some p) none e a h = cc
    read_fields (some p) (some o) e a h =
        let (b, r) = passes_if (is_blank p) _ a h in
        subst IsRead r (is_blank-trim p ∙ b, trim-trim p, not_empty_twice e)

to_assertion-to_raw_assertion :
    (a : ExecutionAssertion) → IsRead a → to_assertion (to_raw_assertion a) ≡ some a
unfolding to_raw_assertion
to_assertion-to_raw_assertion a h =
    rw (present_text a.field_path h.0)
      (rw h.0 (rw (not_empty_twice a.expected_value) (rw h.2 (rw h.1 refl))))

added :
    (f : FlowAssertion) (o : Option ExecutionAssertion)
    → to_assertion f ≡ o
    → (es : List ExecutionAssertion) → All IsRead es
    → All IsRead (add_option o es)
added f none e es h = h
added f (some a) e es h = (to_assertion-IsRead f a e, h)

assertion_entries-IsRead : (fs : List FlowAssertion) → All IsRead (assertion_entries fs)
unfolding assertion_entries
assertion_entries-IsRead [] = tt
assertion_entries-IsRead (f ∷ fs) =
    added f (to_assertion f) refl (assertion_entries fs) (assertion_entries-IsRead fs)

assertion_entries_back :
    (es : List ExecutionAssertion)
    → All IsRead es
    → assertion_entries (map to_raw_assertion es) ≡ es
unfolding assertion_entries
assertion_entries_back [] h = refl
assertion_entries_back (e ∷ es) h =
    rw (to_assertion-to_raw_assertion e h.0) (ap (λ x. e ∷ x) (assertion_entries_back es h.1))

to_assertions_back :
    (es : List ExecutionAssertion)
    → All IsRead es
    → to_assertions (raw_assertions (some_if_any es)) ≡ some_if_any es
unfolding to_assertions assertion_entries raw_assertions
to_assertions_back [] h = refl
to_assertions_back (e ∷ es) h = ap some_if_any (assertion_entries_back (e ∷ es) h)

-- Assertions that were read are read again from what they are exported as.
pub to_assertions_again :
    (o : Option (List FlowAssertion))
    → to_assertions (raw_assertions (to_assertions o)) ≡ to_assertions o
unfolding to_assertions
to_assertions_again o =
    to_assertions_back (assertion_entries (or_else o [])) (assertion_entries-IsRead (or_else o []))
