-- ===== src/Persist/Tests.antt =====
-- The theorems on `aPersistDict` at concrete inputs, over a backend in memory as the tests of the
-- repository use it (tests/conftest.py).
use forestfire.Prelude.{String, false, none, some, [], ◌∷◌, ◌≡◌, refl, string_eq, inr}
use forestfire.Prelude.Int.{pos, ◌+ℤ◌, ◌-ℤ◌}
use forestfire.Prelude.Exec.{ok, err, type_error}
use forestfire.Prelude.Dict
use forestfire.Prelude.Dict.{Dict, get-put, update}
use forestfire.Value.{
  Value, int, str, list, object, dict, nil, cons, dumped, of_dict, jsonify, serializable, dumps,
  same,
}
use forestfire.Persist.{PersistDict, storage_key, assign, set, get, pop}
use forestfire.Persist.Sync
use forestfire.Persist.Memory.{Memory, memory, memory_laws}
use forestfire.Persist.Lists.{extend, remove_from, append, without}
use forestfire.Persist.Lists
use forestfire.Persist.Ints.{increment, decrement}

abbrev with_entries : Dict String Value → PersistDict Memory
with_entries d = record {
  tag = "tag";
  writer_id = "me";
  dict_ = d;
  claim_lost = false;
  init_task = ok tt;
  backend = record { values = []; raws = [] };
}

abbrev one_list : PersistDict Memory
one_list = with_entries (("k", list (cons (str "old") nil)) ∷ [])

abbrev after_set : PersistDict Memory
after_set = (set memory "k" (int (pos 5)) one_list).1

set_returns : set memory "k" (int (pos 5)) one_list ≡ (ok "posted", after_set)
unfolding set dumps serializable Dict.put
set_returns = refl

set-IsWritten_example :
    (after_set.dict_ ≡ assign one_list.dict_ "k" (int (pos 5)))
    × (memory.get after_set.backend (storage_key "tag")
        ≡ ok (some (dumped (jsonify (dict (of_dict after_set.dict_))))))
set-IsWritten_example = Sync.set-IsWritten memory memory_laws "k" (int (pos 5)) one_list set_returns

get-set_example : get memory "k" none after_set ≡ (ok (some (int (pos 5))), after_set)
get-set_example = Sync.get-set memory "k" "k" (int (pos 5)) none one_list set_returns

set_refused_example : set memory "k" (object 1) one_list ≡ (err type_error, one_list)
unfolding serializable
set_refused_example = Sync.set_refused memory "k" (object 1) one_list refl (inr (refl, refl))

abbrev popped : PersistDict Memory
popped = (pop memory "k" none one_list).1

pop_returns : pop memory "k" none one_list ≡ (ok (some (list (cons (str "old") nil))), popped)
unfolding pop dumps serializable Dict.get Dict.remove
pop_returns = refl

abbrev extended : PersistDict Memory
extended = (extend memory "k" (str "new") one_list).1

extend_returns : extend memory "k" (str "new") one_list ≡ (ok "posted", extended)
unfolding extend dumps serializable Dict.get Dict.put
extend_returns = refl

abbrev restored : PersistDict Memory
restored = (remove_from memory "k" (str "new") extended).1

remove_returns : remove_from memory "k" (str "new") extended ≡ (ok "posted", restored)
unfolding remove_from extend dumps serializable same Dict.get Dict.put
remove_returns = refl

extend_refused_example : extend memory "k" (object 1) one_list ≡ (
  err type_error,
  record one_list {
    dict_ = Dict.put one_list.dict_ "k" (list (append (cons (str "old") nil) (object 1)));
  },
)
unfolding serializable Dict.get
extend_refused_example =
    Lists.Laws.extend_refused memory "k" (object 1) (cons (str "old") nil) one_list refl (inr refl)
      refl

abbrev counted : PersistDict Memory
counted = (increment memory "n" (pos 3) one_list).1

increment_returns : increment memory "n" (pos 3) one_list ≡ (ok "posted", counted)
unfolding increment dumps serializable Dict.get ◌+ℤ◌ Dict.put
increment_returns = refl

abbrev uncounted : PersistDict Memory
uncounted = (decrement memory "n" (pos 3) counted).1

decrement_returns : decrement memory "n" (pos 3) counted ≡ (ok "posted", uncounted)
unfolding decrement increment dumps serializable Dict.get Dict.put ◌+ℤ◌ ◌-ℤ◌
decrement_returns = refl
