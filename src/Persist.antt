-- ===== src/Persist.antt =====
-- forest/pdictng.py: `aPersistDict`, its reads and its writes. A method runs under the object's
-- lock, so it is one step on the object's state and the backend that it shares.
pub mod Claim
pub mod Lists
pub mod Ints
pub mod Sync
pub mod Faster
pub mod Memory
mod Tests
use forestfire.Prelude.{
  ℕ, ◌+◌, String, Bool, true, false, ◌&&◌, not, Option, none, some, List, [], ◌∷◌, ◌==◌, string_eq,
  nat_eq, if◌then◌else◌, ◌&◌, truthy, ◌≡◌, ◌≢◌,
}
use forestfire.Prelude.Exec.{
  Exc, Result, ok, err, is_ok, Exec, pure, raise, lift, gets, modify, ◌>>=◌, ◌>>◌, key_error,
  type_error, runtime_error, attribute_error,
}
use forestfire.Prelude.Dict
use forestfire.Prelude.Dict.{Dict}
use forestfire.Value.{
  Value, null, dict, Fields, to_dict, of_dict, is_none, serializable, Json, dumped, other, dumps,
  loads, same,
}

-- `persistentKVStoreClient`: what the dictionary asks of the key-value service. A call may raise.
-- The `raw` pair stores the text unencrypted.
pub record KvClient : Type 1 where
  pub Backend : Type 0
  pub get : Backend → String → Result (Option Json)
  pub get_raw : Backend → String → Result (Option Json)
  pub post : Backend → String → Json → Result String × Backend
  pub post_raw : Backend → String → Json → Result String × Backend

-- What the program relies on: a write that returned is read back, and two keys do not share a place.
pub record KvLaws (kv : KvClient) : Type 0 where
  pub get-post :
      (b : kv.Backend) (k : String) (v : Value)
      → is_ok (kv.post b k (dumped v)).0 ≡ true
      → kv.get (kv.post b k (dumped v)).1 k ≡ ok (some (dumped v))
  pub get_raw-post_raw :
      (b : kv.Backend) (k : String) (v : Value)
      → is_ok (kv.post_raw b k (dumped v)).0 ≡ true
      → kv.get_raw (kv.post_raw b k (dumped v)).1 k ≡ ok (some (dumped v))
  pub get-post_raw :
      (b : kv.Backend) (k j : String) (text : Json)
      → k ≢ j
      → kv.get (kv.post_raw b k text).1 j ≡ kv.get b j
  pub get_raw-post :
      (b : kv.Backend) (k j : String) (text : Json)
      → k ≢ j
      → kv.get_raw (kv.post b k text).1 j ≡ kv.get_raw b j

-- `aPersistDict`'s fields. `init_task` is how `finish_init` ended: each method awaits it first.
pub record PersistDict (B : Type 0) : Type 0 where
  pub tag : String
  pub writer_id : String
  pub dict_ : Dict String Value
  pub claim_lost : Bool
  pub init_task : Result (Unit {0})
  pub backend : B

-- f"Persist_{self.tag}"
abbrev pub storage_key : String → String
storage_key tag = "Persist_" & tag

-- `if result:` on the text that the client returned
abbrev pub has_text : Option Json → Bool
has_text none = false
has_text (some (dumped v)) = true
has_text (some (other s)) = truthy s

-- The change that `_set` makes to `self.dict_`.
unfoldable pub assign : Dict String Value → String → Value → Dict String Value
assign d key value =
    if not (is_none value)
    then Dict.put d key value
    else if truthy key
    then Dict.remove d key
    else d

-- The loop of `get_key_by_value`.
unfoldable pub find_value : Value → Dict String Value → Option String
find_value value [] = none
find_value value ((key, val) ∷ d) = if same val value then some key else find_value value d

abbrev pub or_default : Option Value → Option Value → Option Value
or_default none default = default
or_default (some v) default = some v

abbrev pub or_key_error {ℓ} : {S : Type ℓ} → Option Value → Exec S Value
or_key_error none = raise key_error
or_key_error (some v) = pure v

module _ (kv : KvClient) where
  abbrev Object : Type 0
  Object = PersistDict kv.Backend

  -- `await self.init_task`
  abbrev pub await_init : Exec Object (Unit {0})
  await_init s = (s.init_task, s)

  -- `none` as the default is the `_MISSING` object of `__getitem__`.
  unfoldable pub get : String → Option Value → Exec Object (Option Value)
  get key default = do await_init; gets (λ s. or_default (Dict.get s.dict_ key) default)

  unfoldable pub getitem : String → Exec Object Value
  unfolding get
  getitem key = do value ← get key none; or_key_error value

  unfoldable pub get_key_by_value : Value → Exec Object (Option String)
  unfolding find_value
  get_key_by_value value = do await_init; gets (λ s. find_value value s.dict_)

  unfoldable pub keys : Exec Object (List String)
  keys = do await_init; gets (λ s. Dict.keys s.dict_)

  unfoldable pub values : Exec Object (List Value)
  values = do await_init; gets (λ s. Dict.values s.dict_)

  unfoldable pub items : Exec Object (Dict String Value)
  items = do await_init; gets (λ s. s.dict_)

  -- the last two statements of `_set`
  unfoldable pub upload : Exec Object String
  upload s = elim (dumps (dict (of_dict s.dict_))) [
    | ok text ↦
        let (r, b) = kv.post s.backend (storage_key s.tag) text in (r, record s { backend = b })
    | err e ↦ (err e, s)
  ]

  -- `_set`, for callers that hold the lock
  unfoldable pub set_locked : String → Value → Exec Object String
  unfolding assign upload
  set_locked key value s =
      if s.claim_lost
      then (err runtime_error, s)
      else if not (is_none value) && not (serializable value)
      then (err type_error, s)
      else upload (record s { dict_ = assign s.dict_ key value })

  unfoldable pub set : String → Value → Exec Object String
  unfolding set_locked
  set key value = do await_init; set_locked key value

  unfoldable pub remove : String → Exec Object (Unit {0})
  unfolding set
  remove key = do set key null; pure tt

  pop_found : String → Option Value → Option Value → Exec Object (Option Value)
  unfolding set_locked
  pop_found key default none = pure default
  pop_found key default (some res) = do set_locked key null; pure (some res)

  unfoldable pub pop : String → Option Value → Exec Object (Option Value)
  unfolding pop_found
  pop key default = do
    await_init
    found ← gets (λ s. Dict.get s.dict_ key)
    pop_found key default found
