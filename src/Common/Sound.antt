-- ===== src/Common/Sound.antt =====
-- Every update that `UpdateFields` returns was asked for.
use mathlib.Core.Path.{subst, subst₂}
use go_dbw.Prelude.{
  ◌≡◌, refl, sym, ◌∙◌, ap, ◌⊎◌, inl, inr, String, ◌==◌, eq_iff, true, some, List, [], ◌∷◌, any,
  Bool-cases, Option-cases, to_upper, equal_fold, equal_fold_iff, is_some, arith,
}
use go_dbw.Prelude.Dict.{Dict, lookup, lookup-insert}
use go_dbw.Errors.{ok, >>=-eq-ok}
use go_dbw.Reflect.{Value, Fields, FieldInfo, struct, ptr, done, field, to_interface, indirect}
use go_dbw.Common.Intersection.{Slice, last_match}
use go_dbw.Common.Run.{update_fields-Run, start}
use go_dbw.Common.{
  Update, to_value, to_null, Scan, assign, visit_mask, visit_null, visit_embedded, visit_inner,
  visit_field, visit_fields, update_fields, elements, struct_fields, check_missing,
}

-- A field called `p` up to case, that can be read, and whose value is `v`.
abbrev pub IsNamed : String → Value → FieldInfo → Value → Type 0
IsNamed p v f w = (equal_fold f.name p ≡ true) × (f.exported ≡ true) × (v ≡ to_interface w)

abbrev pub HasDirect : String → Value → Fields → Type 0
HasDirect p v done = ⊥
HasDirect p v (field f w fs) = IsNamed p v f w ⊎ HasDirect p v fs

-- Such a field of a struct, or of a struct behind a pointer.
abbrev pub HasInner : String → Value → Value → Type 0
HasInner p v (struct _ fs) = HasDirect p v fs
HasInner p v (ptr (struct _ fs)) = HasDirect p v fs
HasInner p v _ = ⊥

-- Such a field of the resource, or of one of its exported fields of struct type.
abbrev pub HasField : String → Value → Fields → Type 0
HasField p v done = ⊥
HasField p v (field f w fs) =
    IsNamed p v f w ⊎ (((f.exported ≡ true) × HasInner p v w) ⊎ HasField p v fs)

-- Literal membership.
abbrev pub Has : String → List String → Type 0
Has q xs = any (λ x. x == q) xs ≡ true

pub last_match_named :
    (k : String) (av : List String) (p : String)
    → last_match k av ≡ some p
    → Has p av × (equal_fold k p ≡ true)
unfolding last_match
last_match_named k [] p h = cc
last_match_named k (a ∷ av) p h =
    ground (arith, last_match_named k av p, eq_iff a p, equal_fold_iff k p, equal_fold_iff a k)

-- An update to a value wants a mask path and `H`, one to null a null path.
abbrev pub IsAskedFor :
    List String → List String → (String → Value → Type 0) → String → Update → Type 0
IsAskedFor masks nulls H q (to_value v) = Has q masks × H q v
IsAskedFor masks nulls H q to_null = Has q nulls

module _ (masks nulls : List String) (left right : Dict String)
    (by_left : (k : String) → lookup (to_upper k) left ≡ last_match k masks)
    (by_right : (k : String) → lookup (to_upper k) right ≡ last_match k nulls)
    (H : String → Value → Type 0) where
  abbrev Assigned : String → Update → Type 0
  Assigned = IsAskedFor masks nulls H

  abbrev AllAssigned : Scan → Type 0
  AllAssigned s = (q : String) (u : Update) → lookup q s.updates ≡ some u → Assigned q u

  assign-AllAssigned :
      (p : String) (u : Update) (s : Scan)
      → Assigned p u
      → AllAssigned s
      → AllAssigned (assign p u s)
  unfolding assign
  assign-AllAssigned p u s a h q w e = elim (Bool-cases (p == q)) [
    | inl same ↦
        let stored : u ≡ w = ground (arith, lookup-insert p q u s.updates) in
        subst₂ Assigned ((eq_iff p q).0 same) stored a
    | inr other ↦ h q w (ground (arith, lookup-insert p q u s.updates))
  ]

  visit_mask-AllAssigned :
      (f : FieldInfo) (v : Value) (s s' : Scan)
      → ((p : String) → IsNamed p (to_interface v) f v → H p (to_interface v))
      → visit_mask left right f v s ≡ ok s'
      → AllAssigned s
      → AllAssigned s'
  unfolding visit_mask
  visit_mask-AllAssigned f v s s' named e h = elim (Option-cases (lookup (to_upper f.name) left)) [
    | inl absent ↦ let same : s ≡ s' = ground arith in subst AllAssigned same h
    | inr (p, found) ↦
        let n = last_match_named f.name masks p (sym (by_left f.name) ∙ found) in
        let readable : f.exported ≡ true = ground arith in
        let assigned : assign p (to_value (to_interface v)) s ≡ s' = ground arith in
        subst AllAssigned assigned (assign-AllAssigned p _ s (n.0, named p (n.1, readable, refl)) h)
  ]

  visit_null-AllAssigned :
      (f : FieldInfo) (s : Scan) → AllAssigned s → AllAssigned (visit_null left right f s)
  unfolding visit_null
  visit_null-AllAssigned f s h = elim (Option-cases (lookup (to_upper f.name) right)) [
    | inl absent ↦ rw (absent, visit_null) h
    | inr (p, found) ↦
        let n = last_match_named f.name nulls p (sym (by_right f.name) ∙ found) in
        rw (found, visit_null) (assign-AllAssigned p to_null s n.0 h)
  ]

  visit_embedded-AllAssigned :
      (fs : Fields) (s s' : Scan)
      → ((p : String) (v : Value) → HasDirect p v fs → H p v)
      → visit_embedded left right fs s ≡ ok s'
      → AllAssigned s
      → AllAssigned s'
  unfolding visit_embedded
  visit_embedded-AllAssigned done s s' named e h =
      let same : s ≡ s' = ground arith in subst AllAssigned same h
  visit_embedded-AllAssigned (field f v fs) s s' named e h =
      let (t, visited, rest) = >>=-eq-ok (visit_mask left right f v s) _ e in
      visit_embedded-AllAssigned fs (visit_null left right f t) s' (λ p w d. named p w (inr d)) rest
        (visit_null-AllAssigned f t
          (visit_mask-AllAssigned f v s t (λ p d. named p _ (inl d)) visited h))

  visit_inner-AllAssigned :
      (v : Value) (s s' : Scan)
      → ((p : String) (w : Value) → HasInner p w v → H p w)
      → visit_inner left right v s ≡ ok s'
      → AllAssigned s
      → AllAssigned s'
  unfolding visit_inner
  visit_inner-AllAssigned (struct t fs) s s' named e h =
      visit_embedded-AllAssigned fs s s' named e h
  visit_inner-AllAssigned (ptr (struct t fs)) s s' named e h =
      visit_embedded-AllAssigned fs s s' named e h
  visit_inner-AllAssigned _ s s' named e h =
      let same : s ≡ s' = ground arith in subst AllAssigned same h

  visit_field-AllAssigned :
      (f : FieldInfo) (v : Value) (s s' : Scan)
      → ((p : String) (w : Value) → IsNamed p w f v → H p w)
      → ((p : String) (w : Value) → (f.exported ≡ true) × HasInner p w v → H p w)
      → visit_field left right f v s ≡ ok s'
      → AllAssigned s
      → AllAssigned s'
  unfolding visit_field
  visit_field-AllAssigned f v s s' named inner e h =
      elim (Bool-cases (is_some (lookup (to_upper f.name) left))) [
        | inl masked ↦
            let visited : visit_mask left right f v s ≡ ok s' = ground arith in
            visit_mask-AllAssigned f v s s' (λ p d. named p (to_interface v) d) visited h
        | inr free ↦ elim (Bool-cases (is_some (lookup (to_upper f.name) right))) [
          | inl null ↦
              let visited : visit_null left right f s ≡ s' = ground arith in
              subst AllAssigned visited (visit_null-AllAssigned f s h)
          | inr free' ↦ elim (Bool-cases f.exported) [
            | inl readable ↦
                let visited : visit_inner left right v s ≡ ok s' = ground arith in
                visit_inner-AllAssigned v s s' (λ p w d. inner p w (readable, d)) visited h
            | inr hidden ↦ let same : s ≡ s' = ground arith in subst AllAssigned same h
          ]
        ]
      ]

  visit_fields-AllAssigned :
      (fs : Fields) (s s' : Scan)
      → ((p : String) (v : Value) → HasField p v fs → H p v)
      → visit_fields left right fs s ≡ ok s'
      → AllAssigned s
      → AllAssigned s'
  unfolding visit_fields
  visit_fields-AllAssigned done s s' named e h =
      let same : s ≡ s' = ground arith in subst AllAssigned same h
  visit_fields-AllAssigned (field f v fs) s s' named e h =
      let (t, visited, rest) = >>=-eq-ok (visit_field left right f v s) _ e in
      visit_fields-AllAssigned fs t s' (λ p w d. named p w (inr (inr d))) rest
        (visit_field-AllAssigned f v s t (λ p w d. named p w (inl d))
          (λ p w d. named p w (inr (inl d))) visited h)

-- What an update says of the resource's fields and the caller's two lists of paths.
abbrev pub Requested : Fields → List String → List String → String → Update → Type 0
Requested fs masks nulls = IsAskedFor masks nulls (λ p v. HasField p v fs)

checked-updates :
    (masks nulls : List String) (s : Scan) (us : Dict Update)
    → check_missing masks nulls s ≡ ok us
    → s.updates ≡ us
unfolding check_missing
checked-updates masks nulls s us h = ground arith

start-AllAssigned : {A : Type 0} (q : String) (u : Update) → lookup q start.updates ≡ some u → A
unfolding lookup
start-AllAssigned q u h = cc

-- Every update that `UpdateFields` returns was asked for: its key is one of the caller's paths as
-- the caller spelt it; a null update's path is among the null paths; any other's is among the mask
-- paths, and its value is that of an exported field of that name up to case, of the resource or of
-- an exported field of struct (or pointer to struct) type.
pub update_fields_sound :
    (i : Value) (masks nulls : Slice) (fs : Fields) (us : Dict Update) (q : String) (u : Update)
    → struct_fields (indirect i) ≡ ok fs
    → update_fields i masks nulls ≡ ok us
    → lookup q us ≡ some u
    → Requested fs (elements masks) (elements nulls) q u
update_fields_sound i masks nulls fs us q u at_fields e stored =
    let run = update_fields-Run i masks nulls us e in
    let is = run.is_intersection in
    let same : fs ≡ run.fields = cc (at_fields, run.at_fields) in
    let scanned =
      subst (λ gs. visit_fields run.paths.left run.paths.right gs start ≡ ok run.scan) (sym same)
        run.scanned in
    visit_fields-AllAssigned (elements masks) (elements nulls) run.paths.left run.paths.right
      is.left is.right (λ p v. HasField p v fs) fs start run.scan (λ p v d. d) scanned
      (λ p w h. start-AllAssigned p w h) q u
      (ap (lookup q) (checked-updates (elements masks) (elements nulls) run.scan us run.checked)
        ∙ stored)
