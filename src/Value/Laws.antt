-- ===== src/Value/Laws.antt =====
-- `jsonify` is what a restart does to a value: once done, it changes nothing more.
use forestfire.Prelude.{String, ◌≡◌, refl, ap, arith, Option, none, some, [], ◌∷◌, string_eq}
use forestfire.Prelude.Dict.{Dict, get}
use forestfire.Value.{
  Value, null, bool, int, str, list, tuple, dict, object, Items, nil, cons, Fields, end, field,
  to_dict, of_dict, jsonify, jsonify_all, jsonify_fields,
}

mutual
  unfolding jsonify jsonify_all jsonify_fields

  jsonify_idem' : (v : Value) → jsonify (jsonify v) ≡ jsonify v
  jsonify_idem' null = refl
  jsonify_idem' (bool b) = refl
  jsonify_idem' (int z) = refl
  jsonify_idem' (str s) = refl
  jsonify_idem' (list vs) = ap list (jsonify_all_idem vs)
  jsonify_idem' (tuple vs) = ap list (jsonify_all_idem vs)
  jsonify_idem' (dict fs) = ap dict (jsonify_fields_idem fs)
  jsonify_idem' (object n) = refl

  jsonify_all_idem : (vs : Items) → jsonify_all (jsonify_all vs) ≡ jsonify_all vs
  jsonify_all_idem nil = refl
  jsonify_all_idem (cons v vs) = cc (jsonify_idem' v, jsonify_all_idem vs)

  jsonify_fields_idem : (fs : Fields) → jsonify_fields (jsonify_fields fs) ≡ jsonify_fields fs
  jsonify_fields_idem end = refl
  jsonify_fields_idem (field k v fs) = cc (jsonify_idem' v, jsonify_fields_idem fs)

pub jsonify_idem : (v : Value) → jsonify (jsonify v) ≡ jsonify v
jsonify_idem v = jsonify_idem' v

-- `json.loads` after `json.dumps` on the entries of a dictionary.
abbrev pub jsonify_dict : Dict String Value → Dict String Value
jsonify_dict [] = []
jsonify_dict ((k, v) ∷ d) = (k, jsonify v) ∷ jsonify_dict d

pub to_dict-jsonify :
    (d : Dict String Value) → to_dict (jsonify_fields (of_dict d)) ≡ jsonify_dict d
unfolding jsonify_fields
to_dict-jsonify [] = refl
to_dict-jsonify ((k, v) ∷ d) = ap (λ r. (k, jsonify v) ∷ r) (to_dict-jsonify d)

abbrev pub jsonify_option : Option Value → Option Value
jsonify_option none = none
jsonify_option (some v) = some (jsonify v)

pub get-jsonify_dict :
    (d : Dict String Value) (k : String) → get (jsonify_dict d) k ≡ jsonify_option (get d k)
unfolding get
get-jsonify_dict [] k = refl
get-jsonify_dict ((j, v) ∷ d) k = ground (arith, get-jsonify_dict d k)
