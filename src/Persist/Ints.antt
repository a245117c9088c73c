-- ===== src/Persist/Ints.antt =====
-- forest/pdictng.py: `aPersistDictOfInts`.
pub mod Laws
use forestfire.Prelude.{string_eq, String, Option, none, some}
use forestfire.Prelude.Int.{ℤ, pos, ◌+ℤ◌, ◌-ℤ◌}
use forestfire.Prelude.Exec.{Exec, raise, gets, ◌>>=◌, ◌>>◌, type_error}
use forestfire.Prelude.Dict
use forestfire.Value.{Value, int, as_int}
use forestfire.Persist.{KvClient, PersistDict, await_init, set_locked}

-- `self.dict_.get(key, 0)`, if it is an integer
abbrev pub number_at : Option Value → Option ℤ
number_at none = some (pos 0)
number_at (some v) = as_int v

abbrev pub plus : Option ℤ → ℤ → Option ℤ
plus none y = none
plus (some z) y = some (z +ℤ y)

abbrev pub minus : Option ℤ → ℤ → Option ℤ
minus none y = none
minus (some z) y = some (z -ℤ y)

module _ (kv : KvClient) where
  store_number : String → Option ℤ → Exec (PersistDict kv.Backend) String
  unfolding set_locked
  store_number key none = raise type_error
  store_number key (some z) = set_locked kv key (int z)

  unfoldable pub increment : String → ℤ → Exec (PersistDict kv.Backend) String
  unfolding store_number
  increment key value = do
    await_init kv
    found ← gets (λ s. Dict.get s.dict_ key)
    store_number key (plus (number_at found) value)

  unfoldable pub decrement : String → ℤ → Exec (PersistDict kv.Backend) String
  unfolding store_number
  decrement key value = do
    await_init kv
    found ← gets (λ s. Dict.get s.dict_ key)
    store_number key (minus (number_at found) value)
