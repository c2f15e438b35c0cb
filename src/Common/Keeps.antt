-- ===== src/Common/Keeps.antt =====
-- What every assignment keeps, the loops of `UpdateFields` keep.
use mathlib.Core.Path.{subst}
use go_dbw.Prelude.{◌≡◌, String, to_upper, is_some, arith, inl, inr, Bool-cases, Option-cases}
use go_dbw.Prelude.Dict.{Dict, lookup}
use go_dbw.Errors.{ok, >>=-eq-ok}
use go_dbw.Reflect.{Value, Fields, FieldInfo, struct, ptr, done, field, to_interface}
use go_dbw.Common.{
  Update, to_value, to_null, Scan, assign, visit_mask, visit_null, visit_embedded, visit_inner,
  visit_field, visit_fields,
}

module _ (left right : Dict String) (P : Scan → Type 0)
    (assigned : (p : String) (u : Update) (s : Scan) → P s → P (assign p u s)) where
  visit_mask-keeps :
      (f : FieldInfo) (v : Value) (s s' : Scan) → visit_mask left right f v s ≡ ok s' → P s → P s'
  unfolding visit_mask
  visit_mask-keeps f v s s' e h = elim (Option-cases (lookup (to_upper f.name) left)) [
    | inl absent ↦ let same : s ≡ s' = ground arith in subst P same h
    | inr (p, found) ↦
        let done : assign p (to_value (to_interface v)) s ≡ s' = ground arith in
        subst P done (assigned p (to_value (to_interface v)) s h)
  ]

  visit_null-keeps : (f : FieldInfo) (s : Scan) → P s → P (visit_null left right f s)
  unfolding visit_null
  visit_null-keeps f s h = elim (Option-cases (lookup (to_upper f.name) right)) [
    | inl absent ↦ rw (absent, visit_null) h
    | inr (p, found) ↦ rw (found, visit_null) (assigned p to_null s h)
  ]

  visit_embedded-keeps :
      (fs : Fields) (s s' : Scan) → visit_embedded left right fs s ≡ ok s' → P s → P s'
  unfolding visit_embedded
  visit_embedded-keeps done s s' e h = let same : s ≡ s' = ground arith in subst P same h
  visit_embedded-keeps (field f v fs) s s' e h =
      let (t, visited, rest) = >>=-eq-ok (visit_mask left right f v s) _ e in
      visit_embedded-keeps fs (visit_null left right f t) s' rest
        (visit_null-keeps f t (visit_mask-keeps f v s t visited h))

  visit_inner-keeps : (v : Value) (s s' : Scan) → visit_inner left right v s ≡ ok s' → P s → P s'
  unfolding visit_inner
  visit_inner-keeps (struct t fs) s s' e h = visit_embedded-keeps fs s s' e h
  visit_inner-keeps (ptr (struct t fs)) s s' e h = visit_embedded-keeps fs s s' e h
  visit_inner-keeps _ s s' e h = let same : s ≡ s' = ground arith in subst P same h

  visit_field-keeps :
      (f : FieldInfo) (v : Value) (s s' : Scan) → visit_field left right f v s ≡ ok s' → P s → P s'
  unfolding visit_field
  visit_field-keeps f v s s' e h = elim (Bool-cases (is_some (lookup (to_upper f.name) left))) [
    | inl masked ↦
        let visited : visit_mask left right f v s ≡ ok s' = ground arith in
        visit_mask-keeps f v s s' visited h
    | inr free ↦ elim (Bool-cases (is_some (lookup (to_upper f.name) right))) [
      | inl null ↦
          let visited : visit_null left right f s ≡ s' = ground arith in
          subst P visited (visit_null-keeps f s h)
      | inr free' ↦ elim (Bool-cases f.exported) [
        | inl readable ↦
            let visited : visit_inner left right v s ≡ ok s' = ground arith in
            visit_inner-keeps v s s' visited h
        | inr hidden ↦ let same : s ≡ s' = ground arith in subst P same h
      ]
    ]
  ]

  pub visit_fields-keeps :
      (fs : Fields) (s s' : Scan) → visit_fields left right fs s ≡ ok s' → P s → P s'
  unfolding visit_fields
  visit_fields-keeps done s s' e h = let same : s ≡ s' = ground arith in subst P same h
  visit_fields-keeps (field f v fs) s s' e h =
      let (t, visited, rest) = >>=-eq-ok (visit_field left right f v s) _ e in
      visit_fields-keeps fs t s' rest (visit_field-keeps f v s t visited h)
