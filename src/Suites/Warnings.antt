-- ===== src/Suites/Warnings.antt =====
-- When the compiler warns of variables that two steps save.
use testing_environment.Common.{
  ◌+◌, ◌≤◌, String, ◌≡◌, ◌⊎◌, ◌↔◌, refl, Bool, false, Option, none, some, List, [], ◌∷◌, map,
  if◌then◌else◌, str_eq, str_eq_iff, arith, Bool-cases, inl, inr, All, All-append, ◌==◌,
}
use text.Mathlib.TextPositions.{eq_refl}
use testing_environment.Suites.Order.Counting.{occ, occ-cons, occ-nil, occ-sort}
use testing_environment.Suites.Order.{insert, sort}
use testing_environment.Suites.Flow.{VariableDefinition, ExecutionStep, StepConfig}
use testing_environment.Suites.Compiler.{
  owner_of, warnings_from, collect_variables, all_variables, step_variables, saved, build_warnings,
}

abbrev names : List VariableDefinition → List String
names vs = map (λ v. v.name) vs

-- Every variable has the id of the step that saves it.
abbrev pub HaveOwners : List VariableDefinition → Type 0
HaveOwners vs = All (λ v. str_eq v.source_step_id "" ≡ false) vs

-- Every owner that has been noted is an id.
abbrev AreOwners : List (String × String) → Type 0
AreOwners saved_by = All (λ e. str_eq e.1 "" ≡ false) saved_by

abbrev keys : List (String × String) → List String
keys saved_by = map (λ e. e.0) saved_by

owner_of_lem :
    (saved_by : List (String × String)) (x : String)
    → AreOwners saved_by
    → ((owner_of x saved_by ≡ none) × (occ x (keys saved_by) ≡ 0))
      ⊎ ((o : String) × (owner_of x saved_by ≡ some o)
          × (str_eq o "" ≡ false)
          × (1 ≤ occ x (keys saved_by)))
unfolding owner_of
owner_of_lem [] x h = inl (refl, occ-nil x)
owner_of_lem ((k, o) ∷ rest) x h = elim (Bool-cases (str_eq k x)) [
  | inl p ↦ inr (o, rw p refl, h.0, rw (occ-cons, p) (omega arith))
  | inr p ↦ elim (owner_of_lem rest x h.1) [
    | inl (e, z) ↦ inl (rw p e, rw (occ-cons, p) (omega (arith, z)))
    | inr (owner, e, q, z) ↦ inr (owner, rw p e, q, rw (occ-cons, p) (omega (arith, z)))
  ]
]

-- No name is saved twice, nor one that has been saved.
abbrev AreNew : List (String × String) → List VariableDefinition → Type 0
AreNew saved_by vs =
    (x : String) → (if occ x (keys saved_by) == 0 then 0 else 1) + occ x (names vs) ≤ 1

-- To note a name that is new uses it up.
noted :
    (saved_by : List (String × String)) (v : VariableDefinition) (vs : List VariableDefinition)
    → occ v.name (keys saved_by) ≡ 0
    → (x : String)
    → (if occ x (keys saved_by) == 0 then 0 else 1) + occ x (v.name ∷ names vs)
      ≡ (if occ x (v.name ∷ keys saved_by) == 0 then 0 else 1) + occ x (names vs)
unfolding occ
noted saved_by v vs z x = elim (Bool-cases (str_eq v.name x)) [
  | inl p ↦
      let q : v.name ≡ x = (str_eq_iff v.name x).0 p in
      let gone : occ x (keys saved_by) ≡ 0 = rw q at z in rw (occ-cons, p, gone) (omega arith)
  | inr p ↦ rw (occ-cons, p) (ground arith)
]

warnings_from_iff :
    (saved_by : List (String × String)) (vs : List VariableDefinition)
    → AreOwners saved_by
    → HaveOwners vs
    → (warnings_from saved_by vs ≡ []) ↔ AreNew saved_by vs
unfolding warnings_from
warnings_from_iff saved_by [] owners own = (λ h x. rw occ-nil (ground arith), λ h. refl)
warnings_from_iff saved_by (v ∷ vs) owners own =
    let ih = warnings_from_iff ((v.name, v.source_step_id) ∷ saved_by) vs (own.0, owners) own.1 in
    elim (owner_of_lem saved_by v.name owners) [
      | inl (e, z) ↦ (
        λ h x. let k = ih.0 (rw e at h) x in omega (arith, k, noted saved_by v vs z x),
        λ h. rw e (ih.1 (λ x. omega (arith, h x, noted saved_by v vs z x))),
      )
      | inr (o, e, q, z) ↦ (
        λ h. let k = rw (e, q) at h in cc,
        λ h.
            absurd (ground (arith, h v.name, z, rw eq_refl at (occ-cons v.name (names vs) v.name))),
      )
    ]

All-insert :
    {A : Type 0} (P : A → Type 0) (le : A → A → Bool) (x : A) (xs : List A)
    → P x
    → All P xs
    → All P (insert le x xs)
unfolding insert
All-insert P le x [] h k = (h, tt)
All-insert P le x (y ∷ ys) h k = elim (Bool-cases (le x y)) [
  | inl e ↦ rw e (h, k)
  | inr e ↦ rw e (k.0, All-insert P le x ys h k.1)
]

All-sort :
    {A : Type 0} (P : A → Type 0) (le : A → A → Bool) (xs : List A) → All P xs → All P (sort le xs)
unfolding sort
All-sort P le [] h = tt
All-sort P le (x ∷ xs) h = All-insert P le x (sort le xs) h.0 (All-sort P le xs h.1)

saved-HaveOwners :
    (id : String) (es : Option (List (String × String)))
    → str_eq id "" ≡ false
    → HaveOwners (saved id es)
saved-HaveOwners id none h = tt
saved-HaveOwners id (some []) h = tt
saved-HaveOwners id (some (e ∷ es)) h = (h, saved-HaveOwners id (some es) h)

step_variables-HaveOwners :
    (s : ExecutionStep) (config : StepConfig)
    → s.config ≡ config
    → str_eq s.id "" ≡ false
    → HaveOwners (step_variables s)
unfolding step_variables
step_variables-HaveOwners s (StepConfig.api_request request) e h =
    rw e (saved-HaveOwners s.id request.save h)
step_variables-HaveOwners s (StepConfig.poll_until request _ _ _) e h =
    rw e (saved-HaveOwners s.id request.save h)
step_variables-HaveOwners s (StepConfig.set_variable name value from path) e h = rw e (h, tt)
step_variables-HaveOwners s (StepConfig.wait _) e h = rw e tt
step_variables-HaveOwners s (StepConfig.assert _ _ _ _) e h = rw e tt

all_variables-HaveOwners :
    (steps : List ExecutionStep)
    → All (λ s. str_eq s.id "" ≡ false) steps
    → HaveOwners (all_variables steps)
unfolding all_variables
all_variables-HaveOwners [] h = tt
all_variables-HaveOwners (s ∷ ss) h =
    All-append (λ (v : VariableDefinition). str_eq v.source_step_id "" ≡ false) (step_variables s)
      (all_variables ss) (step_variables-HaveOwners s s.config refl h.0)
      (all_variables-HaveOwners ss h.1)

module _ (locale_le : String → String → Bool) (code_le : String → String → Bool)
    (upper : String → String) where
  -- The compiler warns of nothing exactly if no variable is saved twice, where every step has an id.
  pub build_warnings_iff :
      (steps : List ExecutionStep)
      → All (λ s. str_eq s.id "" ≡ false) steps
      → (build_warnings locale_le code_le upper steps ≡ [])
        ↔ ((x : String) → occ x (map (λ v. v.name) (all_variables steps)) ≤ 1)
  unfolding build_warnings collect_variables
  build_warnings_iff steps ids =
      let by_name : VariableDefinition → VariableDefinition → Bool =
        λ a b. locale_le a.name b.name in
      let own =
        All-sort (λ (v : VariableDefinition). str_eq v.source_step_id "" ≡ false) by_name
          (all_variables steps) (all_variables-HaveOwners steps ids) in
      let k = warnings_from_iff [] (sort by_name (all_variables steps)) tt own in
      let same = λ (x : String).
        occ-sort (λ (v : VariableDefinition). v.name) by_name x (all_variables steps) in
      (
        λ h x. let c = k.0 h x in ground (arith, c, same x),
        λ h. k.1 (λ x. ground (arith, h x, same x, occ-nil x)),
      )
