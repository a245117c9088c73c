-- ===== src/Persist/Sync.antt =====
-- What `set` and `pop` leave in the dictionary and in the backend.
use forestfire.Prelude.{
  inr, inl, false, eq_refl, ◌⊎◌, String, not, Option, none, some, ◌==◌, string_eq, if◌then◌else◌,
  truthy, ◌≡◌, arith, eq_iff,
}
use forestfire.Prelude.Exec.{type_error, runtime_error, err, ok}
use forestfire.Prelude.Dict
use forestfire.Prelude.Dict.{Dict, get-put, get-remove}
use forestfire.Value.{serializable, of_dict, dumps, dict, jsonify, Value, is_none}
use forestfire.Persist.{
  pop_found, dumped, true, storage_key, or_default, set, pop, get, KvLaws, KvClient, PersistDict,
  assign, upload, set_locked,
}

-- What a lookup of `j` finds after `d` was assigned at `key`.
abbrev pub assigned : String → Value → Option Value → Option Value
assigned key value old =
    if not (is_none value) then some value else if truthy key then none else old

pub get-assign :
    (d : Dict String Value) (key j : String) (value : Value)
    → Dict.get (assign d key value) j
      ≡ (if key == j then assigned key value (Dict.get d j) else Dict.get d j)
unfolding assign
get-assign d key j value = ground (arith, get-put d key j value, get-remove d key j, eq_iff key j)

module _ (kv : KvClient) where
  abbrev Object : Type 0
  Object = PersistDict kv.Backend

  pub set_locked-dict :
      (key : String) (value : Value) (s : Object) {r : String} {s' : Object}
      → set_locked kv key value s ≡ (ok r, s')
      → s'.dict_ ≡ assign s.dict_ key value
  unfolding set_locked upload
  set_locked-dict key value s h = ground arith

  pub set_locked-kept :
      (key : String) (value : Value) (s : Object)
      → let s' = (set_locked kv key value s).1 in
        (s'.tag ≡ s.tag)
        × (s'.writer_id ≡ s.writer_id)
        × (s'.claim_lost ≡ s.claim_lost)
        × (s'.init_task ≡ s.init_task)
  unfolding set_locked upload
  set_locked-kept key value s = (ground arith, ground arith, ground arith, ground arith)

  -- A write that returns has posted the JSON of the whole dictionary.
  pub set_locked-backend :
      KvLaws kv
      → (key : String) (value : Value) (s : Object) {r : String} {s' : Object}
      → set_locked kv key value s ≡ (ok r, s')
      → kv.get s'.backend (storage_key s.tag)
        ≡ ok (some (dumped (jsonify (dict (of_dict s'.dict_)))))
  unfolding set_locked upload dumps
  set_locked-backend laws key value s {r} {s'} h =
      ground
        (arith, laws.get-post s.backend (storage_key s.tag) (jsonify (dict (of_dict s'.dict_))))

  pub set-eq :
      (key : String) (value : Value) (s : Object) {r : String} {s' : Object}
      → set kv key value s ≡ (ok r, s')
      → (s.init_task ≡ ok tt) × (set_locked kv key value s ≡ (ok r, s'))
  unfolding set
  set-eq key value s h = (ground arith, ground arith)

  -- When `set` returns, the backend holds the JSON of the dictionary in memory, and that dictionary
  -- is the old one with the one key assigned.
  pub set-IsWritten :
      KvLaws kv
      → (key : String) (value : Value) (s : Object) {r : String} {s' : Object}
      → set kv key value s ≡ (ok r, s')
      → (s'.dict_ ≡ assign s.dict_ key value)
        × (kv.get s'.backend (storage_key s.tag)
            ≡ ok (some (dumped (jsonify (dict (of_dict s'.dict_))))))
  set-IsWritten laws key value s h = (
    set_locked-dict key value s (set-eq key value s h).1,
    set_locked-backend laws key value s (set-eq key value s h).1,
  )

  -- After a `set` that returned, `get` of any key returns what the assignment says: the new value
  -- at the key, the default at a non-empty key that was set to `None`, and else what was there.
  pub get-set :
      (key j : String) (value : Value) (default : Option Value) (s : Object) {r : String}
      {s' : Object}
      → set kv key value s ≡ (ok r, s')
      → get kv j default s' ≡ (
        ok (
            or_default
              (if key == j then assigned key value (Dict.get s.dict_ j) else Dict.get s.dict_ j)
              default),
        s',
      )
  unfolding get
  get-set key j value default s h =
      let e = set-eq key value s h in
      ground (
        arith,
        e.0,
        e.1,
        set_locked-dict key value s e.1,
        (set_locked-kept key value s).3,
        get-assign s.dict_ key j value,
      )

  -- A write that is refused, since the claim is lost or the value is no JSON, changes nothing: not
  -- the dictionary, and not the backend.
  pub set_refused :
      (key : String) (value : Value) (s : Object)
      → s.init_task ≡ ok tt
      → (s.claim_lost ≡ true) ⊎ ((is_none value ≡ false) × (serializable value ≡ false))
      → set kv key value s ≡ (err (if s.claim_lost then runtime_error else type_error), s)
  unfolding set set_locked
  set_refused key value s i (inl lost) = ground arith
  set_refused key value s i (inr (n, bad)) = ground arith

  -- A `pop` of a non-empty key that is there returns its value, and a second one the default.
  pub pop-pop :
      (key : String) (v : Value) (d d' : Option Value) (s : Object) {res : Option Value}
      {s' : Object}
      → truthy key ≡ true
      → Dict.get s.dict_ key ≡ some v
      → pop kv key d s ≡ (ok res, s')
      → (res ≡ some v) × (pop kv key d' s' ≡ (ok d', s'))
  unfolding pop pop_found set_locked upload assign
  pop-pop key v d d' s t there h = ground (arith, get-remove s.dict_ key key, eq_refl key)
