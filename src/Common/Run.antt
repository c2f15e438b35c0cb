-- ===== src/Common/Run.antt =====
-- A successful run of `UpdateFields`, step by step.
use mathlib.Core.Path.{subst}
use go_dbw.Prelude.{◌≡◌, ap, String, Bool, true, false, ◌&&◌, not, some, List, [], is_empty, arith}
use go_dbw.Prelude.Dict.{Dict}
use go_dbw.Errors.{ok, Error, fail_if, >>=-eq-ok}
use go_dbw.Reflect.{Value, Fields, indirect, is_no_value}
use go_dbw.Common.Intersection.{Slice, Intersected, intersection, IsIntersection, intersection_lem}
use go_dbw.Common.{
  Update, Scan, visit_fields, check_missing, elements, struct_fields, or_invalid, update_fields,
}

abbrev pub start : Scan
start = record { updates = []; found = [] }

pub record Run (i : Value) (masks nulls : Slice) (us : Dict Update) : Type 0 where
  pub paths : Intersected
  pub fields : Fields
  pub scan : Scan
  pub is_intersection : IsIntersection (elements masks) (elements nulls) paths
  pub disjoint : is_empty paths.common ≡ true
  pub at_fields : struct_fields (indirect i) ≡ ok fields
  pub scanned : visit_fields paths.left paths.right fields start ≡ ok scan
  pub checked : check_missing (elements masks) (elements nulls) scan ≡ ok us

passed : (b : Bool) (e : Error) {t : Unit {0}} → fail_if b e ≡ ok t → b ≡ false
passed b e h = ground arith

accepted-IsIntersection :
    (op : String) (av bv : List String) (r : Intersected)
    → or_invalid op (intersection (some av) (some bv)) ≡ ok r
    → IsIntersection av bv r
accepted-IsIntersection op av bv r h =
    let (t, found, is) = intersection_lem av bv in
    let same : t ≡ r = ground (arith, ap (or_invalid op) found) in
    subst (IsIntersection av bv) same is

-- Each step of a run that succeeds has succeeded.
pub update_fields-Run :
    (i : Value) (masks nulls : Slice) (us : Dict Update)
    → update_fields i masks nulls ≡ ok us
    → Run i masks nulls us
unfolding update_fields
update_fields-Run i masks nulls us h =
    let (_, _, h1) = >>=-eq-ok (fail_if (is_no_value i) _) _ h in
    let (_, _, h2) =
      >>=-eq-ok (fail_if (is_empty (elements masks) && is_empty (elements nulls)) _) _ h1 in
    let (r, intersected, h3) =
      >>=-eq-ok
        (or_invalid "dbw.UpdateFields"
          (intersection (some (elements masks)) (some (elements nulls))))
        _ h2 in
    let (_, empty, h4) = >>=-eq-ok (fail_if (not (is_empty r.common)) _) _ h3 in
    let (fs, found, h5) = >>=-eq-ok (struct_fields (indirect i)) _ h4 in
    let (s, scanned, h6) = >>=-eq-ok (visit_fields r.left r.right fs start) _ h5 in
    record {
      paths = r;
      fields = fs;
      scan = s;
      is_intersection = accepted-IsIntersection _ _ _ r intersected;
      disjoint = ground (arith, passed (not (is_empty r.common)) _ empty);
      at_fields = found;
      scanned = scanned;
      checked = h6;
    }
