-- ===== src/Value/Access.antt =====
-- How the program takes JSON values apart: `v[k]`, `v.get(k, d)`, `k in v` and `v[0]`, with the
-- exceptions that Python raises where the value has another type.
use forestfire.Prelude.{String, Bool, true, false, Option, none, some, string_eq, ◌||◌, has_part}
use forestfire.Prelude.Exec.{Result, ok, err, key_error, type_error, index_error, attribute_error}
use forestfire.Value.{
  Value, dict, list, tuple, str, Items, nil, cons, Fields, end, field, find, same,
}

abbrev pub or_value : Option Value → Value → Value
or_value none d = d
or_value (some v) d = v

abbrev or_key : Option Value → Result Value
or_key none = err key_error
or_key (some v) = ok v

-- `v[k]`, with a text `k`
unfoldable pub item : Value → String → Result Value
unfolding find
item (dict fs) k = or_key (find k fs)
item _ k = err type_error

-- `v.get(k, d)`
unfoldable pub get_item : Value → String → Value → Result Value
unfolding find
get_item (dict fs) k d = ok (or_value (find k fs) d)
get_item _ k d = err attribute_error

abbrev is_found : Option Value → Bool
is_found none = false
is_found (some v) = true

abbrev any_same : Value → Items → Bool
any_same v nil = false
any_same v (cons w ws) = let rest = any_same v ws in same v w || rest

-- `k in v`
unfoldable pub key_in : String → Value → Result Bool
unfolding find same has_part
key_in k (dict fs) = ok (is_found (find k fs))
key_in k (list vs) = ok (any_same (str k) vs)
key_in k (tuple vs) = ok (any_same (str k) vs)
key_in k (str s) = ok (has_part s k)
key_in k _ = err type_error

-- `v[0]`
unfoldable pub first_item : Value → Result Value
first_item (list nil) = err index_error
first_item (list (cons v vs)) = ok v
first_item (tuple nil) = err index_error
first_item (tuple (cons v vs)) = ok v
first_item (dict fs) = err key_error
first_item (str String.[]) = err index_error
first_item (str (String.◌∷◌ c s)) = ok (str (String.◌∷◌ c String.[]))
first_item _ = err type_error

-- The elements of `for x in v`: of a dictionary its keys.
abbrev pub keys_of : Fields → Items
keys_of end = nil
keys_of (field k v fs) = cons (str k) (keys_of fs)

unfoldable pub elements : Value → Result Items
elements (list vs) = ok vs
elements (tuple vs) = ok vs
elements (dict fs) = ok (keys_of fs)
elements _ = err type_error

-- `v.items()`
unfoldable pub entries : Value → Result Fields
entries (dict fs) = ok fs
entries _ = err attribute_error

-- A dictionary of one entry, and one more entry in front.
abbrev pub entry : String → Value → Fields
entry k v = field k v end
