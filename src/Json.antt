-- ===== src/Json.antt =====
-- A parsed JSON document: the `base::Value` that the program reads its configuration from. A string
-- is its bytes, an `int` its bit pattern below 2 ^ 32, a double its bit pattern, which nothing reads.
use virtual_usb_printer.Common.{
  ℕ, Bool, true, false, Option, none, some, List, [], ◌∷◌, if◌then◌else◌, check_failed, Result, ok,
  err, Bytes, bytes_eq,
}

mutual
  pub data Value : Type 0 where
    null : Value
    boolean : Bool → Value
    integer : ℕ → Value
    double : ℕ → Value
    string : Bytes → Value
    list : Items → Value
    dict : Fields → Value

  pub data Items : Type 0 where
    nil : Items
    cons : Value → Items → Items

  pub data Fields : Type 0 where
    end : Fields
    field : Bytes → Value → Fields → Fields

abbrev pub to_list : Items → List Value
to_list nil = []
to_list (cons v vs) = v ∷ to_list vs

-- `FindKey` on the fields of a dictionary, whose keys are distinct.
unfoldable pub find_field : Bytes → Fields → Option Value
find_field k end = none
find_field k (field j v fs) = if bytes_eq k j then some v else find_field k fs

abbrev pub is_list : Value → Bool
is_list (list vs) = true
is_list _ = false

abbrev pub is_dict : Value → Bool
is_dict (dict fs) = true
is_dict _ = false

-- `GetList()` ends the process on any other value, `GetBool()`, `GetInt()` and `GetString()` likewise.
abbrev pub get_list : Value → Result (List Value)
get_list (list vs) = ok (to_list vs)
get_list _ = err check_failed

abbrev pub get_bool : Value → Result Bool
get_bool (boolean b) = ok b
get_bool _ = err check_failed

abbrev pub get_int : Value → Result ℕ
get_int (integer n) = ok n
get_int _ = err check_failed

abbrev pub get_string : Value → Result Bytes
get_string (string s) = ok s
get_string _ = err check_failed

-- `FindKey` and its kin: `none` is a null pointer.
unfoldable pub find_key : Value → Bytes → Option Value
unfolding find_field
find_key (dict fs) k = find_field k fs
find_key _ k = none

-- `FindKeyOfType` with the types that are asked for, which `FindListKey` and its kin are too.
unfoldable pub find_list : Value → Bytes → Option (List Value)
unfolding find_key
find_list root name = elim (find_key root name) [ none ↦ none | some v ↦ as_list v ]
  where
    as_list : Value → Option (List Value)
    as_list (list vs) = some (to_list vs)
    as_list _ = none

unfoldable pub find_string : Value → Bytes → Option Bytes
unfolding find_key
find_string root name = elim (find_key root name) [ none ↦ none | some v ↦ as_string v ]
  where
    as_string : Value → Option Bytes
    as_string (string s) = some s
    as_string _ = none

unfoldable pub find_dict : Value → Bytes → Option Value
unfolding find_key
find_dict root name = elim (find_key root name) [ none ↦ none | some v ↦ as_dict v ]
  where
    as_dict : Value → Option Value
    as_dict (dict fs) = some (dict fs)
    as_dict _ = none

-- `FindIntPath` on a path of one key.
unfoldable pub find_int : Value → Bytes → Option ℕ
unfolding find_key
find_int root name = elim (find_key root name) [ none ↦ none | some v ↦ as_int v ]
  where
    as_int : Value → Option ℕ
    as_int (integer n) = some n
    as_int _ = none
