-- ===== src/Common/Intersection.antt =====
-- `Intersection` of common.go.
use go_dbw.Prelude.{
  ◌≡◌, refl, sym, ap, ◌∙◌, String, eq_iff, ◌&&◌, Option, none, some, List, [], ◌∷◌, ◌++◌, map,
  to_upper, to_lower, equal_fold, equal_fold_iff, is_empty, is_some, arith, if◌then◌else◌,
}
use go_dbw.Prelude.Dict.{Dict, lookup, insert, lookup-insert}
use go_dbw.Errors.{Outcome, ok, err, errorf, sentinel, invalid_parameter}
use go_dbw.Contains.{contains, keep}
use mathlib.Core.List.{append_assoc, append-nil}

-- A `[]string`: `none` is the nil slice.
abbrev pub Slice : Type 0
Slice = Option (List String)

-- The three results: the values in both, and each argument keyed by upper case.
pub record Intersected : Type 0 where
  pub common : List String
  pub left : Dict String
  pub right : Dict String

-- The loop over `av`: a later spelling of the same name replaces an earlier one.
unfoldable pub upper_map : List String → Dict String → Dict String
upper_map [] ah = ah
upper_map (a ∷ av) ah = upper_map av (insert (to_upper a) a ah)

-- The loop over `bv`.
unfoldable pub intersect_loop : Dict String → List String → List String → Dict String → Intersected
intersect_loop ah [] s bh = record { common = s; left = ah; right = bh }
intersect_loop ah (b ∷ bv) s bh =
    intersect_loop ah bv (if is_some (lookup (to_upper b) ah) then s ++ to_lower b ∷ [] else s)
      (insert (to_upper b) b bh)

unfoldable pub intersection : Slice → Slice → Outcome Intersected
unfolding upper_map intersect_loop
intersection none bv =
    err (errorf "dbw.Intersection: av is missing" [] (sentinel invalid_parameter))
intersection (some av) none =
    err (errorf "dbw.Intersection: bv is missing" [] (sentinel invalid_parameter))
intersection (some av) (some bv) =
    if is_empty av && is_empty bv
    then ok (record { common = []; left = []; right = [] })
    else ok (intersect_loop (upper_map av []) bv [] [])

-- The last element that is a given name up to case.
unfoldable pub last_match : String → List String → Option String
last_match k [] = none
last_match k (a ∷ av) = elim (last_match k av) [
  | some b ↦ some b
  | none ↦ if equal_fold a k then some a else none
]

or_else : Option String → Option String → Option String
or_else (some a) o = some a
or_else none o = o

lookup-upper_map :
    (k : String) (av : List String) (ah : Dict String)
    → lookup (to_upper k) (upper_map av ah) ≡ or_else (last_match k av) (lookup (to_upper k) ah)
unfolding upper_map last_match or_else
lookup-upper_map k [] ah = refl
lookup-upper_map k (a ∷ av) ah = ground (
  arith,
  lookup-upper_map k av (insert (to_upper a) a ah),
  lookup-insert (to_upper a) (to_upper k) a ah,
  equal_fold_iff a k,
  eq_iff (to_upper a) (to_upper k),
)

pub last_match-contains :
    (k : String) (av : List String) → is_some (last_match k av) ≡ contains av k
unfolding last_match contains
last_match-contains k [] = refl
last_match-contains k (a ∷ av) = ground (arith, last_match-contains k av)

lookup-upper_map_empty :
    (k : String) (av : List String) → lookup (to_upper k) (upper_map av []) ≡ last_match k av
unfolding or_else lookup
lookup-upper_map_empty k av = ground (arith, lookup-upper_map k av [])

present :
    (b : String) (av : List String)
    → is_some (lookup (to_upper b) (upper_map av [])) ≡ contains av b
present b av = ap is_some (lookup-upper_map_empty b av) ∙ last_match-contains b av

common-intersect_loop :
    (av bv s : List String) (bh : Dict String)
    → (intersect_loop (upper_map av []) bv s bh).common ≡ s ++ map to_lower (keep (contains av) bv)
unfolding intersect_loop keep
common-intersect_loop av [] s bh = sym (append-nil s)
common-intersect_loop av (b ∷ bv) s bh =
    let bh' = insert (to_upper b) b bh in
    ground (
      arith,
      present b av,
      common-intersect_loop av bv s bh',
      common-intersect_loop av bv (s ++ to_lower b ∷ []) bh',
      append_assoc s (to_lower b ∷ []) (map to_lower (keep (contains av) bv)),
    )

left-intersect_loop :
    (ah : Dict String) (bv s : List String) (bh : Dict String)
    → (intersect_loop ah bv s bh).left ≡ ah
unfolding intersect_loop
left-intersect_loop ah [] s bh = refl
left-intersect_loop ah (b ∷ bv) s bh = left-intersect_loop ah bv _ _

right-intersect_loop :
    (ah : Dict String) (bv s : List String) (bh : Dict String)
    → (intersect_loop ah bv s bh).right ≡ upper_map bv bh
unfolding intersect_loop upper_map
right-intersect_loop ah [] s bh = refl
right-intersect_loop ah (b ∷ bv) s bh = right-intersect_loop ah bv _ _

-- What a result of `Intersection` says of its arguments.
pub record IsIntersection (av bv : List String) (r : Intersected) : Type 0 where
  pub common : r.common ≡ map to_lower (keep (contains av) bv)
  pub left : (k : String) → lookup (to_upper k) r.left ≡ last_match k av
  pub right : (k : String) → lookup (to_upper k) r.right ≡ last_match k bv

intersect_loop-IsIntersection :
    (av bv : List String) → IsIntersection av bv (intersect_loop (upper_map av []) bv [] [])
intersect_loop-IsIntersection av bv = record {
  common = common-intersect_loop av bv [] [];
  left = λ k. rw left-intersect_loop (lookup-upper_map_empty k av);
  right = λ k. rw right-intersect_loop (lookup-upper_map_empty k bv);
}

-- On two slices that are not nil the function always succeeds. The common values are the elements of
-- the second slice that the first contains up to case, in lower case and in order; the two maps
-- give, under a name in upper case, the last spelling of it in the slice.
pub intersection_lem :
    (av bv : List String)
    → (r : Intersected) × (intersection (some av) (some bv) ≡ ok r) × IsIntersection av bv r
unfolding intersection keep last_match lookup
intersection_lem [] [] = (_, refl, record { common = refl; left = λ k. refl; right = λ k. refl })
intersection_lem [] (b ∷ bv) = (_, refl, intersect_loop-IsIntersection [] (b ∷ bv))
intersection_lem (a ∷ av) bv = (_, refl, intersect_loop-IsIntersection (a ∷ av) bv)
