-- ===== src/Value.antt =====
-- Python's values as the program stores them, and `json.dumps` and `json.loads` on them. A JSON
-- text is the value that it denotes, or a text that is no JSON.
pub mod Access
pub mod Laws
pub mod Spelling
use forestfire.Prelude.{
  ℕ, ◌+◌, String, Bool, true, false, ◌&&◌, not, Option, none, some, List, [], ◌∷◌, ◌==◌, string_eq,
  nat_eq, if◌then◌else◌, leb, truthy,
}
use forestfire.Prelude.Int.{ℤ, pos, negsuc}
use forestfire.Prelude.Exec.{Result, ok, err, type_error, value_error}
use forestfire.Prelude.Dict.{Dict}

-- `object` is any value that `json.dumps` refuses, told apart by a number. Floats are left out.
mutual
  pub data Value : Type 0 where
    null : Value
    bool : Bool → Value
    int : ℤ → Value
    str : String → Value
    list : Items → Value
    tuple : Items → Value
    dict : Fields → Value
    object : ℕ → Value

  pub data Items : Type 0 where
    nil : Items
    cons : Value → Items → Items

  pub data Fields : Type 0 where
    end : Fields
    field : String → Value → Fields → Fields

abbrev pub to_list : Items → List Value
to_list nil = []
to_list (cons v vs) = v ∷ to_list vs

abbrev pub of_list : List Value → Items
of_list [] = nil
of_list (v ∷ vs) = cons v (of_list vs)

abbrev pub to_dict : Fields → Dict String Value
to_dict end = []
to_dict (field k v fs) = (k, v) ∷ to_dict fs

abbrev pub of_dict : Dict String Value → Fields
of_dict [] = end
of_dict ((k, v) ∷ d) = field k v (of_dict d)

unfoldable pub find : String → Fields → Option Value
find k end = none
find k (field j v fs) = if j == k then some v else find k fs

abbrev pub size : Fields → ℕ
size end = 0
size (field k v fs) = 1 + size fs

-- `isinstance(v, int)` holds of `True` and `False` too.
abbrev pub as_int : Value → Option ℤ
as_int (int z) = some z
as_int (bool true) = some (pos 1)
as_int (bool false) = some (pos 0)
as_int _ = none

abbrev pub is_none : Value → Bool
is_none null = true
is_none _ = false

-- `bool(v)`
abbrev pub is_true : Value → Bool
is_true null = false
is_true (bool b) = b
is_true (int (pos n)) = not (n == 0)
is_true (int (negsuc n)) = true
is_true (str s) = truthy s
is_true (list nil) = false
is_true (list (cons v vs)) = true
is_true (tuple nil) = false
is_true (tuple (cons v vs)) = true
is_true (dict end) = false
is_true (dict (field k v fs)) = true
is_true (object n) = true

-- What `json.dumps` accepts.
unfoldable mutual
  pub serializable : Value → Bool
  serializable null = true
  serializable (bool b) = true
  serializable (int z) = true
  serializable (str s) = true
  serializable (list vs) = all_serializable vs
  serializable (tuple vs) = all_serializable vs
  serializable (dict fs) = fields_serializable fs
  serializable (object n) = false

  pub all_serializable : Items → Bool
  all_serializable nil = true
  all_serializable (cons v vs) = serializable v && all_serializable vs

  pub fields_serializable : Fields → Bool
  fields_serializable end = true
  fields_serializable (field k v fs) = serializable v && fields_serializable fs

-- What comes back from `json.loads(json.dumps(v))`: a tuple has become a list.
unfoldable mutual
  pub jsonify : Value → Value
  jsonify null = null
  jsonify (bool b) = bool b
  jsonify (int z) = int z
  jsonify (str s) = str s
  jsonify (list vs) = list (jsonify_all vs)
  jsonify (tuple vs) = list (jsonify_all vs)
  jsonify (dict fs) = dict (jsonify_fields fs)
  jsonify (object n) = object n

  pub jsonify_all : Items → Items
  jsonify_all nil = nil
  jsonify_all (cons v vs) = cons (jsonify v) (jsonify_all vs)

  pub jsonify_fields : Fields → Fields
  jsonify_fields end = end
  jsonify_fields (field k v fs) = field k (jsonify v) (jsonify_fields fs)

-- A text: the JSON of a value, or some other text.
pub data Json : Type 0 where
  dumped : Value → Json
  other : String → Json

unfoldable pub dumps : Value → Result Json
dumps v = if serializable v then ok (dumped (jsonify v)) else err type_error

unfoldable pub loads : Json → Result Value
loads (dumped v) = ok v
loads (other s) = err value_error

eq_ℤ : ℤ → ℤ → Bool
eq_ℤ (pos m) (pos n) = m == n
eq_ℤ (negsuc m) (negsuc n) = m == n
eq_ℤ _ _ = false

same_int : ℤ → Option ℤ → Bool
same_int z none = false
same_int z (some y) = eq_ℤ z y

same_option : (Value → Bool) → Option Value → Bool
same_option p none = false
same_option p (some w) = p w

-- `v == w`: numbers by value, so that `True == 1`; lists and tuples in order; dictionaries by their
-- keys, in any order; other objects by identity.
unfoldable mutual
  unfolding eq_ℤ same_int same_option find

  pub same : Value → Value → Bool
  same null null = true
  same (bool true) w = same_int (pos 1) (as_int w)
  same (bool false) w = same_int (pos 0) (as_int w)
  same (int z) w = same_int z (as_int w)
  same (str s) (str t) = s == t
  same (list vs) (list ws) = same_all vs ws
  same (tuple vs) (tuple ws) = same_all vs ws
  same (dict fs) (dict gs) = size fs == size gs && same_fields fs gs
  same (object m) (object n) = m == n
  same _ _ = false

  pub same_all : Items → Items → Bool
  same_all nil nil = true
  same_all (cons v vs) (cons w ws) = same v w && same_all vs ws
  same_all _ _ = false

  pub same_fields : Fields → Fields → Bool
  same_fields end gs = true
  same_fields (field k v fs) gs = same_option (same v) (find k gs) && same_fields fs gs
