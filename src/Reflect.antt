-- ===== src/Reflect.antt =====
-- The part of Go's `reflect` that the package works with: dynamic values, their kinds and types.
-- A pointer owns what it points to, so a value is a tree: sharing and cycles are not modelled.
pub mod Zero
use go_dbw.Prelude.{
  ℕ, zero, suc, String, ◌==◌, Bool, true, false, ◌&&◌, Option, none, some, ℤ, pos, eqb,
}

pub data Kind : Type 0 where
  invalid_kind bool_kind int_kind string_kind ptr_kind map_kind chan_kind func_kind : Kind
  slice_kind struct_kind interface_kind : Kind

abbrev kind_code : Kind → ℕ
kind_code invalid_kind = 0
kind_code bool_kind = 1
kind_code int_kind = 2
kind_code string_kind = 3
kind_code ptr_kind = 4
kind_code map_kind = 5
kind_code chan_kind = 6
kind_code func_kind = 7
kind_code slice_kind = 8
kind_code struct_kind = 9
kind_code interface_kind = 10

abbrev pub kind_eq : Kind → Kind → Bool
kind_eq k l = eqb (kind_code k) (kind_code l)

-- A type by its kind and name; pointers and slices by their element types.
pub data GoType : Type 0 where
  named : Kind → String → GoType
  ptr_type : GoType → GoType
  slice_type : GoType → GoType

abbrev pub type_kind : GoType → Kind
type_kind (named k _) = k
type_kind (ptr_type _) = ptr_kind
type_kind (slice_type _) = slice_kind

-- `==` on `reflect.Type`
unfoldable pub type_eq : GoType → GoType → Bool
type_eq (named k s) (named l t) = kind_eq k l && s == t
type_eq (ptr_type a) (ptr_type b) = type_eq a b
type_eq (slice_type a) (slice_type b) = type_eq a b
type_eq _ _ = false

-- What `reflect.StructField` says of a field.
pub record FieldInfo : Type 0 where
  pub name : String
  pub exported : Bool
  pub embedded : Bool

-- The kinds whose contents the package never looks at.
pub data RefKind : Type 0 where
  map_ref chan_ref func_ref : RefKind

abbrev pub ref_kind : RefKind → Kind
ref_kind map_ref = map_kind
ref_kind chan_ref = chan_kind
ref_kind func_ref = func_kind

mutual
  pub data Value : Type 0 where
    -- a nil `interface{}`, and the zero `reflect.Value`
    no_value : Value
    boolean : String → Bool → Value
    integer : String → ℤ → Value
    text : String → String → Value
    -- a nil pointer, by its element type
    nil_ptr : GoType → Value
    ptr : Value → Value
    nil_slice : GoType → Value
    slice : GoType → Items → Value
    -- a map, a channel or a function: nil, or one with the given identity
    reference : RefKind → String → Option String → Value
    struct : String → Fields → Value
    -- a field or an element of interface type, and the value that it holds
    iface : String → Value → Value

  pub data Items : Type 0 where
    nil : Items
    item : Value → Items → Items

  pub data Fields : Type 0 where
    done : Fields
    field : FieldInfo → Value → Fields → Fields

-- `reflect.ValueOf(i).Kind()`
abbrev pub kind_of : Value → Kind
kind_of no_value = invalid_kind
kind_of (boolean _ _) = bool_kind
kind_of (integer _ _) = int_kind
kind_of (text _ _) = string_kind
kind_of (nil_ptr _) = ptr_kind
kind_of (ptr _) = ptr_kind
kind_of (nil_slice _) = slice_kind
kind_of (slice _ _) = slice_kind
kind_of (reference r _ _) = ref_kind r
kind_of (struct _ _) = struct_kind
kind_of (iface _ _) = interface_kind

-- The type of a value that is there.
abbrev pub type_of : Value → GoType
type_of no_value = named invalid_kind ""
type_of (boolean t _) = named bool_kind t
type_of (integer t _) = named int_kind t
type_of (text t _) = named string_kind t
type_of (nil_ptr t) = ptr_type t
type_of (ptr v) = ptr_type (type_of v)
type_of (nil_slice t) = slice_type t
type_of (slice t _) = slice_type t
type_of (reference r t _) = named (ref_kind r) t
type_of (struct t _) = named struct_kind t
type_of (iface t _) = named interface_kind t

-- `Value.Interface()`: a slot of interface type gives the value that it holds.
abbrev pub to_interface : Value → Value
to_interface (iface _ v) = v
to_interface v = v

-- `reflect.Indirect`: the element of a pointer, the zero Value for a nil one, else the value.
abbrev pub indirect : Value → Value
indirect (ptr v) = v
indirect (nil_ptr _) = no_value
indirect v = v

-- `Value.Len()` of a slice
abbrev pub count_items : Items → ℕ
count_items nil = zero
count_items (item _ xs) = suc (count_items xs)

abbrev pub len : Value → ℕ
len (slice _ xs) = count_items xs
len _ = zero

-- `reflect.ValueOf(i).Index(0).Interface()`; the callers have checked that the slice is not empty.
abbrev pub first_item : Value → Value
first_item (slice _ (item v _)) = to_interface v
first_item _ = no_value

-- `isNil` of rw.go. Functions are not among the kinds that it tests.
abbrev pub is_nil : Value → Bool
is_nil no_value = true
is_nil (nil_ptr _) = true
is_nil (nil_slice _) = true
is_nil (reference map_ref _ none) = true
is_nil (reference chan_ref _ none) = true
is_nil _ = false

-- `v == nil` for an `interface{}`
abbrev pub is_no_value : Value → Bool
is_no_value no_value = true
is_no_value _ = false
