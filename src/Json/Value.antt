-- ===== src/Json/Value.antt =====
-- agent/source/json.hpp: the values, their accessors and the object builder.
-- An `int64_t` is its 64-bit two's complement pattern, and a `double` its IEEE bit pattern.
-- An object is the content of the `std::map`, in the map's order.
use switch_mcp.Base.{
  ℕ, ◌+◌, ◌-◌, ◌*◌, ◌/◌, ◌%◌, ◌^◌, Bool, true, false, Option, none, some, ltb, leb, ◌==◌,
  if◌then◌else◌, Bytes, eq, before, ◌&&◌,
}

mutual
  pub data Value : Type 0 where
    null : Value
    boolean : Bool → Value
    int : ℕ → Value
    double : ℕ → Value
    string : Bytes → Value
    array : Items → Value
    object : Fields → Value

  pub data Items : Type 0 where
    nil : Items
    cons : Value → Items → Items

  pub data Fields : Type 0 where
    end : Fields
    field : Bytes → Value → Fields → Fields

abbrev pub i64_mod : ℕ
i64_mod = 2 ^ 64

-- `static_cast<int64_t>(double)`: towards zero. Out of range C++ leaves the value open; this is
-- the AArch64 conversion, which saturates and takes a NaN to 0.
pub truncate : ℕ → ℕ
truncate bits =
    let negative = leb (2 ^ 63) bits in
    let exponent = bits / 2 ^ 52 % 2048 in
    let mantissa = bits % 2 ^ 52 + 2 ^ 52 in
    let size =
      if leb exponent 1022
      then 0
      else if leb exponent 1075
      then mantissa / 2 ^ (1075 - exponent)
      else if leb exponent 1085
      then mantissa * 2 ^ (exponent - 1075)
      else 2 ^ 63 in
    if exponent == 2047 && ltb 0 (bits % 2 ^ 52)
    then 0
    else if negative
    then (i64_mod - size) % i64_mod
    else if leb (2 ^ 63) size
    then 2 ^ 63 - 1
    else size

abbrev pub as_bool : Value → Bool → Bool
as_bool (boolean b) d = b
as_bool v d = d

unfoldable pub as_int : Value → ℕ → ℕ
as_int (int i) d = i
as_int (double x) d = truncate x
as_int v d = d

abbrev pub as_string : Value → Bytes → Bytes
as_string (string s) d = s
as_string v d = d

abbrev pub as_array : Value → Items
as_array (array xs) = xs
as_array v = nil

abbrev pub as_object : Value → Fields
as_object (object fs) = fs
as_object v = end

-- `std::map::find`
unfoldable pub find : Bytes → Fields → Option Value
find k end = none
find k (field j v fs) = if eq j k then some v else find k fs

abbrev or_null : Option Value → Value
or_null none = null
or_null (some v) = v

-- `operator[]`, which gives a null value for a missing key and for what is no object.
abbrev pub get : Value → Bytes → Value
get v k = or_null (find k (as_object v))

abbrev is_some : Option Value → Bool
is_some none = false
is_some (some v) = true

abbrev pub has : Value → Bytes → Bool
has v k = is_some (find k (as_object v))

-- `obj_[k] = v`
unfoldable pub insert : Bytes → Value → Fields → Fields
insert k v end = field k v end
insert k v (field j w fs) =
    if before k j
    then field k v (field j w fs)
    else if before j k
    then field j w (insert k v fs)
    else field j v fs

abbrev pub set : Value → Bytes → Value → Value
set o k v = object (insert k v (as_object o))

abbrev pub empty_object : Value
empty_object = object end

abbrev pub empty_array : Value
empty_array = array nil

unfoldable pub push_back : Items → Value → Items
push_back nil v = cons v nil
push_back (cons x xs) v = cons x (push_back xs v)

abbrev pub push : Value → Value → Value
push a v = array (push_back (as_array a) v)
