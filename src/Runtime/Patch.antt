-- ===== src/Runtime/Patch.antt =====
-- A patch event of snapshot-events.js carries what a client needs to rebuild the snapshot.
use pane_fleet.Base.{
  ◌≡◌, refl, ap, ◌∙◌, Bool, true, false, not, ◌&&◌, Option, none, some, List, [], ◌∷◌, filter, find,
  Option-cases, Text, text_eq, text_eq_sound, text_eq_self, includes, if◌then◌else◌, Bool-cases,
  inl, inr, arith,
}
use pane_fleet.Runtime.Snapshot.{Field, has_field, is_changed, changes_of, keys_of, removed_of}

-- A Map has each key once.
abbrev pub AreUnique : List Field → Type 0
AreUnique [] = Unit
AreUnique (field ∷ fields) = (includes (keys_of fields) field.key ≡ false) × AreUnique fields

abbrev pub value_in : Text → List Field → Option Text
value_in key [] = none
value_in key (field ∷ fields) =
    if has_field key field then some field.serialized else value_in key fields

-- What a client holds for a key after a patch: the changed value, nothing for a removed key, else what
-- it held before.
abbrev pub patched : List Field → List Field → List Text → Text → Option Text
patched previous changes removed key = elim (value_in key changes) [
  | some serialized ↦ some serialized
  | none ↦ if includes removed key then none else value_in key previous
]

find-value :
    (key : Text) (fields : List Field)
    → elim (find (has_field key) fields) [ none ↦ none | some field ↦ some field.serialized ]
      ≡ value_in key fields
find-value key [] = refl
find-value key (field ∷ fields) = elim (Bool-cases (has_field key field)) [
  | inl e ↦ rw e refl
  | inr e ↦ rw e (find-value key fields)
]

-- is_changed by the value that the previous snapshot holds.
changed_value : Option Text → Text → Bool
changed_value none serialized = true
changed_value (some old) serialized = not (text_eq old serialized)

is_changed-value :
    (previous : List Field) (field : Field)
    → is_changed previous field ≡ changed_value (value_in field.key previous) field.serialized
unfolding is_changed changed_value
is_changed-value previous field = elim (Option-cases (find (has_field field.key) previous)) [
  | inl e ↦ rw (is_changed, e, ← (find-value field.key previous), e) refl
  | inr (old, e) ↦ rw (is_changed, e, ← (find-value field.key previous), e) refl
]

-- A key that no field has.
value_in-absent :
    (key : Text) (fields : List Field)
    → includes (keys_of fields) key ≡ false
    → value_in key fields ≡ none
unfolding keys_of includes
value_in-absent key [] h = refl
value_in-absent key (field ∷ fields) h = elim (Bool-cases (has_field key field)) [
  | inl e ↦ absurd (cc (rw e at h))
  | inr e ↦ rw e (value_in-absent key fields (rw e at h))
]

keys-filter :
    (f : Field → Bool) (key : Text) (fields : List Field)
    → includes (keys_of fields) key ≡ false
    → includes (keys_of (filter f fields)) key ≡ false
unfolding keys_of includes
keys-filter f key [] h = refl
keys-filter f key (field ∷ fields) h = elim (Bool-cases (has_field key field)) [
  | inl e ↦ absurd (cc (rw e at h))
  | inr e ↦ elim (Bool-cases (f field)) [
    | inl k ↦ rw (k, e) (keys-filter f key fields (rw e at h))
    | inr k ↦ rw k (keys-filter f key fields (rw e at h))
  ]
]

absent-value_in :
    (key : Text) (fields : List Field)
    → value_in key fields ≡ none
    → includes (keys_of fields) key ≡ false
unfolding keys_of includes
absent-value_in key [] h = refl
absent-value_in key (field ∷ fields) h = elim (Bool-cases (has_field key field)) [
  | inl e ↦ absurd (cc (rw e at h))
  | inr e ↦ rw e (absent-value_in key fields (rw e at h))
]

present-value_in :
    (key v : Text) (fields : List Field)
    → value_in key fields ≡ some v
    → includes (keys_of fields) key ≡ true
unfolding keys_of includes
present-value_in key v [] h = absurd (cc h)
present-value_in key v (field ∷ fields) h = elim (Bool-cases (has_field key field)) [
  | inl e ↦ rw e refl
  | inr e ↦ rw e (present-value_in key v fields (rw e at h))
]

removed-includes :
    (fields : List Field) (keys : List Text) (key : Text)
    → includes (filter (λ k. not (includes (keys_of fields) k)) keys) key
      ≡ (not (includes (keys_of fields) key) && includes keys key)
unfolding includes
removed-includes fields [] key = ground arith
removed-includes fields (k ∷ keys) key = elim (Bool-cases (text_eq k key)) [
  | inl e ↦ rw (text_eq_sound k key e) (elim (Bool-cases (includes (keys_of fields) key)) [
    | inl m ↦ rw m (removed-includes fields keys key ∙ rw m refl)
    | inr m ↦ rw (m, text_eq_self key) refl
  ])
  | inr e ↦ elim (Bool-cases (includes (keys_of fields) k)) [
    | inl m ↦ rw (m, e) (removed-includes fields keys key)
    | inr m ↦ rw (m, e) (removed-includes fields keys key)
  ]
]

module _ (previous : List Field) (key : Text) where
  changed_here :
      (field : Field)
      → has_field key field ≡ true
      → is_changed previous field ≡ changed_value (value_in key previous) field.serialized
  changed_here field e =
      is_changed-value previous field
      ∙ ap (λ k. changed_value (value_in k previous) field.serialized)
          (text_eq_sound field.key key e)

  changes-kept :
      (v : Text) (fields : List Field)
      → value_in key fields ≡ some v
      → changed_value (value_in key previous) v ≡ true
      → value_in key (changes_of previous fields) ≡ some v
  unfolding changes_of
  changes-kept v [] h c = absurd (cc h)
  changes-kept v (field ∷ fields) h c = elim (Bool-cases (has_field key field)) [
    | inl e ↦
        let same : field.serialized ≡ v = cc (rw e at h) in
        rw (changed_here field e, same, c) (rw e refl)
    | inr e ↦ elim (Bool-cases (is_changed previous field)) [
      | inl m ↦ rw m (rw e (changes-kept v fields (rw e at h) c))
      | inr m ↦ rw m (changes-kept v fields (rw e at h) c)
    ]
  ]

  changes-none :
      (fields : List Field)
      → value_in key fields ≡ none
      → value_in key (changes_of previous fields) ≡ none
  unfolding changes_of
  changes-none fields h =
      value_in-absent key _
        (keys-filter (is_changed previous) key fields (absent-value_in key fields h))

  changes-dropped :
      (v : Text) (fields : List Field)
      → AreUnique fields
      → value_in key fields ≡ some v
      → changed_value (value_in key previous) v ≡ false
      → value_in key (changes_of previous fields) ≡ none
  unfolding changes_of
  changes-dropped v [] u h c = refl
  changes-dropped v (field ∷ fields) u h c = elim (Bool-cases (has_field key field)) [
    | inl e ↦
        let same : field.serialized ≡ v = cc (rw e at h) in
        let once : includes (keys_of fields) key ≡ false =
          rw (← (text_eq_sound field.key key e)) u.0 in
        rw (changed_here field e, same, c)
          (value_in-absent key _ (keys-filter (is_changed previous) key fields once))
    | inr e ↦ elim (Bool-cases (is_changed previous field)) [
      | inl m ↦ rw m (rw e (changes-dropped v fields u.1 (rw e at h) c))
      | inr m ↦ rw m (changes-dropped v fields u.1 (rw e at h) c)
    ]
  ]

unchanged-value : (o : Option Text) (v : Text) → changed_value o v ≡ false → o ≡ some v
unfolding changed_value
unchanged-value none v h = absurd (cc h)
unchanged-value (some old) v h = ap some (text_eq_sound old v (ground (arith, h)))

absent_before :
    (previous : List Field) (key : Text)
    → (if includes (keys_of previous) key then none else value_in key previous) ≡ none
absent_before previous key = elim (Bool-cases (includes (keys_of previous) key)) [
  | inl e ↦ rw e refl
  | inr e ↦ rw e (value_in-absent key previous e)
]

-- For a snapshot whose keys are distinct, the changes and the removed keys that the patch carries turn the previous snapshot into the new one: every key then has the value that the new snapshot gives it, or none.
pub patched-value_in :
    (previous fields : List Field) (key : Text)
    → AreUnique fields
    → patched previous (changes_of previous fields) (removed_of previous fields) key
      ≡ value_in key fields
unfolding removed_of
patched-value_in previous fields key u = elim (Option-cases (value_in key fields)) [
  | inl h ↦
      rw
        (
          patched,
          changes-none previous key fields h,
          removed-includes fields (keys_of previous) key,
          absent-value_in key fields h,
          h,
        )
        (absent_before previous key)
  | inr (v, h) ↦ elim (Bool-cases (changed_value (value_in key previous) v)) [
    | inl c ↦ rw (patched, changes-kept previous key v fields h c, h) refl
    | inr c ↦
        rw
          (
            patched,
            changes-dropped previous key v fields u h c,
            removed-includes fields (keys_of previous) key,
            present-value_in key v fields h,
            h,
          )
          (unchanged-value _ v c)
  ]
]
