-- ===== src/Persist/Claim.antt =====
-- forest/pdictng.py: the claim of a namespace by one writer, the asynchronous part of the
-- constructor, and the heartbeat. Times are whole numbers of one unit.
pub mod Laws
pub mod Race
pub mod Restart
mod Tests
use forestfire.Prelude.{
  ℕ, ◌+◌, String, Bool, true, false, ◌&&◌, not, Option, none, some, List, [], ◌∷◌, ◌==◌, string_eq,
  if◌then◌else◌,
}
use forestfire.Prelude.Int.{ℤ, pos, ltb_ℤ, ◌-ℤ◌}
use forestfire.Prelude.Exec.{
  Exc, Result, ok, err, Exec, pure, raise, lift, gets, modify, ◌>>=◌, ◌>>◌, type_error,
  runtime_error, attribute_error,
}
use forestfire.Prelude.Dict.{Dict, update}
use forestfire.Value.{
  Value, null, str, int, dict, Fields, end, field, find, to_dict, as_int, Json, loads, dumped,
}
use forestfire.Persist.{KvClient, PersistDict, storage_key, has_text}

abbrev pub claim_key : String
claim_key = "NAMESPACE_CLAIM"

abbrev claim_of_value : Result Value → Fields
claim_of_value (ok (dict fs)) = fs
claim_of_value _ = end

-- No text, no JSON, and JSON that is no object are all read as the empty claim.
unfoldable pub parse_claim : Option Json → Fields
unfolding loads
parse_claim none = end
parse_claim (some text) = claim_of_value (loads text)

abbrev or_zero : Option Value → Value
or_zero none = int (pos 0)
or_zero (some v) = v

abbrev pub is_text : String → Option Value → Bool
is_text w (some (str s)) = s == w
is_text w _ = false

abbrev is_empty : Fields → Bool
is_empty end = true
is_empty (field k v fs) = false

abbrev fresh : ℕ → ℕ → Option ℤ → Result Bool
fresh ttl now none = err type_error
fresh ttl now (some ts) = ok (ltb_ℤ (pos now -ℤ ts) (pos ttl))

abbrev foreign_and : Bool → Result Bool → Result Bool
foreign_and b (ok fresh) = ok (fresh && b)
foreign_and b (err e) = err e

unfoldable pub claim_is_foreign_and_fresh : ℕ → ℕ → String → Fields → Result Bool
unfolding find ◌-ℤ◌
claim_is_foreign_and_fresh ttl now writer_id claim =
    foreign_and (not (is_empty claim) && not (is_text writer_id (find "writer" claim)))
      (fresh ttl now (as_int (or_zero (find "ts" claim))))

-- {"writer": self.writer_id, "ts": time.time()}
abbrev pub claim_of : String → ℕ → Value
claim_of writer_id ts = dict (field "writer" (str writer_id) (field "ts" (int (pos ts)) end))

module _ (kv : KvClient) (claim_ttl : ℕ) where
  abbrev Object : Type 0
  Object = PersistDict kv.Backend

  -- `self._parse_claim(await self.client.get_raw(CLAIM_KEY))`
  unfoldable pub read_claim : Exec Object Fields
  unfolding parse_claim
  read_claim = do raw ← λ s. (kv.get_raw s.backend claim_key, s); pure (parse_claim raw)

  unfoldable pub post_claim : ℕ → Exec Object (Unit {0})
  post_claim ts s =
      let (r, b) = kv.post_raw s.backend claim_key (dumped (claim_of s.writer_id ts)) in
      elim r [
        | ok text ↦ (ok tt, record s { backend = b })
        | err e ↦ (err e, record s { backend = b })
      ]

  -- The read of `_acquire_namespace_claim`, and its first refusal.
  unfoldable pub refuse_if_claimed : ℕ → Exec Object (Unit {0})
  unfolding read_claim claim_is_foreign_and_fresh
  refuse_if_claimed now = do
    claim ← read_claim
    taken ← λ s. (claim_is_foreign_and_fresh claim_ttl now s.writer_id claim, s)
    if taken then raise runtime_error else pure tt

  -- The read back of `_acquire_namespace_claim`, and its second refusal.
  unfoldable pub verify_claim : Exec Object (Unit {0})
  unfolding read_claim find
  verify_claim = do
    verify ← read_claim
    mine ← gets (λ s. is_text s.writer_id (find "writer" verify))
    if mine then pure tt else raise runtime_error

  unfoldable pub acquire_namespace_claim : ℕ → ℕ → Exec Object (Unit {0})
  unfolding refuse_if_claimed post_claim verify_claim
  acquire_namespace_claim now ts = do refuse_if_claimed now; post_claim ts; verify_claim

  -- The body of the heartbeat, at time `now`; the renewed claim carries the time `ts`.
  unfoldable pub check_claim : ℕ → ℕ → Exec Object (Unit {0})
  unfolding read_claim claim_is_foreign_and_fresh post_claim
  check_claim now ts = do
    claim ← read_claim
    taken ← λ s. (claim_is_foreign_and_fresh claim_ttl now s.writer_id claim, s)
    if taken then modify (λ s. record s { claim_lost = true }) else post_claim ts

  -- `while not self.claim_lost`, over the times at which the sleeps end. An exception ends the task.
  unfoldable pub claim_heartbeat : List (ℕ × ℕ) → Exec Object (Unit {0})
  claim_heartbeat [] s = (ok tt, s)
  claim_heartbeat ((now, ts) ∷ beats) s = elim s.claim_lost [
    | true ↦ (ok tt, s)
    | false ↦
        let (r, s') = check_claim now ts s in
        elim r [ ok _ ↦ claim_heartbeat beats s' | err e ↦ (err e, s') ]
  ]

  -- A JSON value that is no object has no `update`.
  abbrev adopt : Value → Exec Object (Unit {0})
  adopt (dict fs) = modify (λ s. record s { dict_ = to_dict fs })
  adopt v = raise attribute_error

  abbrev restore_text : Option Json → Exec Object (Unit {0})
  restore_text none = pure tt
  restore_text (some text) = do v ← lift (loads text); adopt v

  unfoldable pub finish_init : Dict String Value → ℕ → ℕ → Exec Object (Unit {0})
  unfolding acquire_namespace_claim loads
  finish_init kwargs now ts = do
    acquire_namespace_claim now ts
    result ← λ s. (kv.get s.backend (storage_key s.tag), s)
    if has_text result then restore_text result else pure tt
    modify (λ s. record s { dict_ = update s.dict_ kwargs })

  abbrev blank : String → String → kv.Backend → Object
  blank tag writer_id b = record {
    tag = tag;
    writer_id = writer_id;
    dict_ = [];
    claim_lost = false;
    init_task = ok tt;
    backend = b;
  }

  -- `aPersistDict(tag, writer_id=…, **kwargs)`, once `init_task` has ended
  unfoldable pub create : String → String → Dict String Value → ℕ → ℕ → kv.Backend → Object
  unfolding finish_init
  create tag writer_id kwargs now ts b =
      let (r, s) = finish_init kwargs now ts (blank tag writer_id b) in record s { init_task = r }
