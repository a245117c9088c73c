-- ===== src/Persist/Claim/Restart.antt =====
-- A restart: what a new object with the same tag reads of what an old one has written.
use forestfire.Prelude.{◌∙◌, string_eq, ℕ, String, true, some, ◌≡◌, ◌≢◌, ap, arith}
use text.Mathlib.Text.{starts_with}
use text.Mathlib.TextPositions.{starts_with-append}
use forestfire.Prelude.Exec.{ok, is_ok}
use forestfire.Prelude.Dict.{Dict, update}
use forestfire.Value.{Value, dict, of_dict, dumped, loads, jsonify}
use forestfire.Value.Laws.{jsonify_dict, to_dict-jsonify}
use forestfire.Persist.{KvClient, KvLaws, PersistDict, storage_key, set}
use forestfire.Persist.Sync.{set-IsWritten}
use forestfire.Persist.Claim.{
  claim_of, claim_key, post_claim, refuse_if_claimed, acquire_namespace_claim, finish_init, create,
  blank,
}
use forestfire.Persist.Claim.Laws.{post_ok, acquire_free, post_claim-kept}

pub claim_key-ne-storage_key : (tag : String) → claim_key ≢ storage_key tag
claim_key-ne-storage_key tag e =
    cc (ap (λ s. starts_with s "Persist_") e, starts_with-append "Persist_" tag)

module _ (kv : KvClient) (ttl : ℕ) where
  abbrev Object : Type 0
  Object = PersistDict kv.Backend

  post_claim-get :
      KvLaws kv
      → (ts : ℕ) (s : Object)
      → kv.get (post_claim kv ttl ts s).1.backend (storage_key s.tag)
        ≡ kv.get s.backend (storage_key s.tag)
  unfolding post_claim
  post_claim-get laws ts s = ground (
    arith,
    laws.get-post_raw s.backend claim_key (storage_key s.tag) (dumped (claim_of s.writer_id ts))
        (claim_key-ne-storage_key s.tag),
  )

  -- What is left of `finish_init` after the claim, where the backend holds a dictionary.
  finish_init-restores :
      (kwargs : Dict String Value) (now ts : ℕ) (d : Dict String Value) (s s' : Object)
      → acquire_namespace_claim kv ttl now ts s ≡ (ok tt, s')
      → kv.get s'.backend (storage_key s'.tag) ≡ ok (some (dumped (jsonify (dict (of_dict d)))))
      → finish_init kv ttl kwargs now ts s
        ≡ (ok tt, record s' { dict_ = update (jsonify_dict d) kwargs })
  unfolding finish_init loads jsonify
  finish_init-restores kwargs now ts d s s' acquired held = ground (arith, to_dict-jsonify d)

  -- What `set` has written survives a restart: a new object with the same tag, created where the
  -- namespace is free, comes up with the dictionary as JSON keeps it, updated by its arguments.
  pub create-set :
      KvLaws kv
      → (key : String) (value : Value) (s : Object) {r : String} {s' : Object}
      → (writer : String) (kwargs : Dict String Value) (now ts : ℕ)
      → set kv key value s ≡ (ok r, s')
      → refuse_if_claimed kv ttl now (blank kv ttl s.tag writer s'.backend)
        ≡ (ok tt, blank kv ttl s.tag writer s'.backend)
      → is_ok (post_claim kv ttl ts (blank kv ttl s.tag writer s'.backend)).0 ≡ true
      → let new = create kv ttl s.tag writer kwargs now ts s'.backend in
        (new.init_task ≡ ok tt) × (new.dict_ ≡ update (jsonify_dict s'.dict_) kwargs)
  unfolding create
  create-set laws key value s {r} {s'} writer kwargs now ts written free posted =
      let b : Object = blank kv ttl s.tag writer s'.backend in
      let p : Object = (post_claim kv ttl ts b).1 in
      let acquired = (acquire_free kv ttl laws now ts b p free (post_ok kv ttl ts b posted)).0 in
      let tag : p.tag ≡ s.tag = (post_claim-kept kv ttl ts b).0 in
      let held : kv.get p.backend (storage_key s.tag)
          ≡ ok (some (dumped (jsonify (dict (of_dict s'.dict_))))) =
        post_claim-get laws ts b ∙ (set-IsWritten kv laws key value s written).1 in
      let done = finish_init-restores kwargs now ts s'.dict_ b p acquired (rw tag held) in
      (ground (arith, done), ground (arith, done))
