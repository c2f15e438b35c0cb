-- ===== src/Reflect/Zero.antt =====
-- `reflect.Zero` of a value's type, and `isZero` of common.go.
use go_dbw.Prelude.{
  zero, suc, ◌≡◌, refl, sym, ap, ◌==◌, eq_iff, eq_refl, Bool, true, false, ◌&&◌, none, some, pos,
  negsuc, arith,
}
use go_dbw.Reflect.{
  Value, Fields, no_value, boolean, integer, text, nil_ptr, ptr, nil_slice, slice, reference,
  struct, iface, done, field, type_of,
}

unfoldable mutual
  -- `reflect.Zero(v.Type())`
  pub zero_of : Value → Value
  zero_of no_value = no_value
  zero_of (boolean t _) = boolean t false
  zero_of (integer t _) = integer t (pos zero)
  zero_of (text t _) = text t ""
  zero_of (nil_ptr t) = nil_ptr t
  zero_of (ptr v) = nil_ptr (type_of v)
  zero_of (nil_slice t) = nil_slice t
  zero_of (slice t _) = nil_slice t
  zero_of (reference r t _) = reference r t none
  zero_of (struct t fs) = struct t (zero_fields fs)
  zero_of (iface t _) = iface t no_value

  pub zero_fields : Fields → Fields
  zero_fields done = done
  zero_fields (field f v fs) = field f (zero_of v) (zero_fields fs)

  -- `reflect.DeepEqual(v, reflect.Zero(v.Type()).Interface())`, with `isZero`'s nil case.
  pub is_zero : Value → Bool
  is_zero no_value = true
  is_zero (boolean _ false) = true
  is_zero (boolean _ true) = false
  is_zero (integer _ (pos zero)) = true
  is_zero (integer _ (pos (suc _))) = false
  is_zero (integer _ (negsuc _)) = false
  is_zero (text _ s) = s == ""
  is_zero (nil_ptr _) = true
  is_zero (ptr _) = false
  is_zero (nil_slice _) = true
  is_zero (slice _ _) = false
  is_zero (reference _ _ none) = true
  is_zero (reference _ _ (some _)) = false
  is_zero (struct _ fs) = are_zero fs
  is_zero (iface _ no_value) = true
  is_zero (iface _ _) = false

  pub are_zero : Fields → Bool
  are_zero done = true
  are_zero (field _ v fs) = is_zero v && are_zero fs

mutual
  unfolding zero_of zero_fields is_zero are_zero

  is_zero_of_zero : (v : Value) → is_zero v ≡ true → v ≡ zero_of v
  is_zero_of_zero no_value h = refl
  is_zero_of_zero (boolean t b) h = ground arith
  is_zero_of_zero (integer t n) h = ground arith
  is_zero_of_zero (text t s) h = ap (text t) ((eq_iff s "").0 h)
  is_zero_of_zero (nil_ptr t) h = refl
  is_zero_of_zero (ptr v) h = cc
  is_zero_of_zero (nil_slice t) h = refl
  is_zero_of_zero (slice t xs) h = cc
  is_zero_of_zero (reference r t o) h = ground arith
  is_zero_of_zero (struct t fs) h = ap (struct t) (are_zero_of_zero fs h)
  is_zero_of_zero (iface t v) h = ground arith

  are_zero_of_zero : (fs : Fields) → are_zero fs ≡ true → fs ≡ zero_fields fs
  are_zero_of_zero done h = refl
  are_zero_of_zero (field f v fs) h = ground (arith, is_zero_of_zero v, are_zero_of_zero fs)

mutual
  unfolding zero_of zero_fields is_zero are_zero

  is_zero-zero_of_lem : (v : Value) → is_zero (zero_of v) ≡ true
  is_zero-zero_of_lem no_value = refl
  is_zero-zero_of_lem (boolean t b) = refl
  is_zero-zero_of_lem (integer t n) = refl
  is_zero-zero_of_lem (text t s) = eq_refl ""
  is_zero-zero_of_lem (nil_ptr t) = refl
  is_zero-zero_of_lem (ptr v) = refl
  is_zero-zero_of_lem (nil_slice t) = refl
  is_zero-zero_of_lem (slice t xs) = refl
  is_zero-zero_of_lem (reference r t o) = refl
  is_zero-zero_of_lem (struct t fs) = are_zero-zero_fields fs
  is_zero-zero_of_lem (iface t v) = refl

  are_zero-zero_fields : (fs : Fields) → are_zero (zero_fields fs) ≡ true
  are_zero-zero_fields done = refl
  are_zero-zero_fields (field f v fs) = rw (is_zero-zero_of_lem v) (are_zero-zero_fields fs)

pub is_zero-zero_of : (v : Value) → is_zero (zero_of v) ≡ true
is_zero-zero_of v = is_zero-zero_of_lem v

-- Zeroing a value keeps its type.
pub type_of-zero_of : (v : Value) → type_of (zero_of v) ≡ type_of v
unfolding zero_of
type_of-zero_of no_value = refl
type_of-zero_of _ = refl

pub zero_of_idem : (v : Value) → zero_of (zero_of v) ≡ zero_of v
zero_of_idem v = sym (is_zero_of_zero (zero_of v) (is_zero-zero_of v))

pub zero_fields_idem : (fs : Fields) → zero_fields (zero_fields fs) ≡ zero_fields fs
zero_fields_idem fs = sym (are_zero_of_zero (zero_fields fs) (are_zero-zero_fields fs))
