-- ===== src/Persist/Lists.antt =====
-- forest/pdictng.py: `aPersistDictOfLists`. `extend` appends to the list object that the dictionary
-- holds, and only then writes.
pub mod Laws
use forestfire.Prelude.{string_eq, String, Option, none, some, Bool, not, if◌then◌else◌}
use forestfire.Prelude.Exec.{Exec, raise, gets, modify, ◌>>=◌, ◌>>◌, type_error}
use forestfire.Prelude.Dict
use forestfire.Value.{Value, list, Items, nil, cons, same}
use forestfire.Persist.{KvClient, PersistDict, await_init, set_locked}

-- `values.append(value)`
unfoldable pub append : Items → Value → Items
append nil value = cons value nil
append (cons v vs) value = cons v (append vs value)

-- `[el for el in values if not_value != el]`
unfoldable pub without : Value → Items → Items
without not_value nil = nil
without not_value (cons el els) =
    let rest = without not_value els in if not (same not_value el) then cons el rest else rest

module _ (kv : KvClient) where
  extend_found : String → Value → Option Value → Exec (PersistDict kv.Backend) String
  unfolding append set_locked
  extend_found key value none = set_locked kv key (list (cons value nil))
  extend_found key value (some (list vs)) = do
    modify (λ s. record s { dict_ = Dict.put s.dict_ key (list (append vs value)) })
    set_locked kv key (list (append vs value))
  extend_found key value (some other) = raise type_error

  unfoldable pub extend : String → Value → Exec (PersistDict kv.Backend) String
  unfolding extend_found
  extend key value = do
    await_init kv
    found ← gets (λ s. Dict.get s.dict_ key)
    extend_found key value found

  remove_found : String → Value → Option Value → Exec (PersistDict kv.Backend) String
  unfolding without set_locked
  remove_found key not_value none = set_locked kv key (list nil)
  remove_found key not_value (some (list vs)) = set_locked kv key (list (without not_value vs))
  remove_found key not_value (some other) = raise type_error

  unfoldable pub remove_from : String → Value → Exec (PersistDict kv.Backend) String
  unfolding remove_found
  remove_from key not_value = do
    await_init kv
    found ← gets (λ s. Dict.get s.dict_ key)
    remove_found key not_value found
