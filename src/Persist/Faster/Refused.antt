-- ===== src/Persist/Faster/Refused.antt =====
-- A write that the service refuses.
use forestfire.Prelude.{◌∙◌, arith, ℕ, ◌+◌, String, ◌&◌, ◌≡◌, refl, true, false, ◌||◌, not, ◌&&◌}
use forestfire.Prelude.Exec.{ok}
use forestfire.Value.{Value, Json, dumps, dict, of_dict, is_none, serializable}
use forestfire.Crypto.{Bytes, CryptoLib, get_ciphertext_value}
use forestfire.Persist.{KvClient, PersistDict, storage_key, assign, set, set_locked, upload}
use forestfire.Persist.Faster.{
  Http, JsonText, FasterClient, Store, hashed_key, post_raw, post, faster,
}

accepted :
    (value : Value)
    → (is_none value || serializable value) ≡ true
    → (not (is_none value) && not (serializable value)) ≡ false
accepted value h = ground arith

module _ (lib : CryptoLib) (secret : String → String) (http : Http) (self : FasterClient)
    (codec : JsonText) (nonces : ℕ → Bytes) where
  post_raw_refused :
      (key body k reply : String) (status : ℕ) (s : Store http.Server)
      → hashed_key lib secret self key ≡ ok k
      → http.post s.server self.auth (self.url & "/" & k) body ≡ (ok (status, reply), s.server)
      → post_raw lib secret http self key body s ≡ (ok reply, s)
  unfolding post_raw
  post_raw_refused key body k reply status s at refused = rw (post_raw, at, refused) refl

  post_refused :
      (key text packed k reply : String) (status : ℕ) (s : Store http.Server)
      → get_ciphertext_value lib secret (nonces s.drawn) text ≡ ok packed
      → hashed_key lib secret self key ≡ ok k
      → http.post s.server self.auth (self.url & "/" & k) packed ≡ (ok (status, reply), s.server)
      → post lib secret http nonces self key text s ≡ (ok reply, record s { drawn = s.drawn + 1 })
  unfolding post
  post_refused key text packed k reply status s packs at refused =
      rw (post, packs)
        (post_raw_refused key packed k reply status (record s { drawn = s.drawn + 1 }) at refused)

  abbrev kv : KvClient
  kv = faster lib secret http codec nonces self

  set-eq :
      (key : String) (value : Value) (d : PersistDict (Store http.Server))
      → d.init_task ≡ ok tt
      → set kv key value d ≡ set_locked kv key value d
  unfolding set
  set-eq key value d init = simp init

  set_locked-eq :
      (key : String) (value : Value) (d : PersistDict (Store http.Server))
      → d.claim_lost ≡ false
      → (is_none value || serializable value) ≡ true
      → set_locked kv key value d ≡ upload kv (record d { dict_ = assign d.dict_ key value })
  unfolding set_locked
  set_locked-eq key value d claim fine = simp (claim, accepted value fine)

  -- The status of an answer is not looked at: over a service that refuses a write, whatever its
  -- status, and stays as it was, a `set` returns the text of the refusal as any other.
  pub set_unwritten :
      (d : PersistDict (Store http.Server)) (key : String) (value : Value) (text : Json)
      (packed k reply : String) (status : ℕ)
      → d.init_task ≡ ok tt
      → d.claim_lost ≡ false
      → (is_none value || serializable value) ≡ true
      → dumps (dict (of_dict (assign d.dict_ key value))) ≡ ok text
      → get_ciphertext_value lib secret (nonces d.backend.drawn) (codec.render text) ≡ ok packed
      → hashed_key lib secret self (storage_key d.tag) ≡ ok k
      → http.post d.backend.server self.auth (self.url & "/" & k) packed
        ≡ (ok (status, reply), d.backend.server)
      → set kv key value d ≡ (
        ok reply,
        record d {
          dict_ = assign d.dict_ key value;
          backend = record (d.backend) { drawn = d.backend.drawn + 1 };
        },
      )
  unfolding upload
  set_unwritten d key value text packed k reply status init claim fine written packs at refused =
      let t : PersistDict (Store http.Server) = record d { dict_ = assign d.dict_ key value } in
      let posted =
        post_refused (storage_key d.tag) (codec.render text) packed k reply status d.backend packs
          at refused in
      let sent : upload kv t
          ≡ (ok reply, record t { backend = record (d.backend) { drawn = d.backend.drawn + 1 } }) =
        rw (upload, written, posted) refl in
      set-eq key value d init ∙ set_locked-eq key value d claim fine ∙ sent
