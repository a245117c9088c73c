-- ===== src/Persist/Faster.antt =====
-- forest/pdictng.py: `fasterpKVStoreClient`, the key-value client that speaks HTTP to a service, and
-- the secrets that it needs. The service is a parameter.
pub mod Laws
pub mod Raw
pub mod Refused
pub mod Tests
use forestfire.Prelude.{
  ℕ, ◌+◌, String, Option, none, some, ◌==◌, nat_eq, if◌then◌else◌, ◌&◌, truthy, ◌≡◌, true, not,
}
use forestfire.Prelude.Exec.{Result, ok, err, bind, runtime_error}
use forestfire.Value.{Value, Json, dumped}
use forestfire.Crypto.{
  Bytes, CryptoLib, hash_salt, get_salt, get_aeskey, get_ciphertext_value, get_cleartext_value,
}
use forestfire.Persist.{KvClient}

-- The service behind `aiohttp`: a request has an authorization, a URL and, for a write, a body. It is
-- answered by a status and a text, or raises.
pub record Http : Type 1 where
  pub Server : Type 0
  pub post : Server → String → String → String → Result (ℕ × String) × Server
  pub get : Server → String → String → Result (ℕ × String)

-- What is relied on: a write that was answered is stored at its URL and nowhere else.
pub record HttpLaws (http : Http) : Type 0 where
  pub get-post :
      (s : http.Server) (auth url body : String) (reply : ℕ × String)
      → (http.post s auth url body).0 ≡ ok reply
      → http.get (http.post s auth url body).1 auth url ≡ ok (200, body)
  pub get-post_other :
      (s : http.Server) (auth url other body : String)
      → (url ≡ other → ⊥)
      → http.get (http.post s auth url body).1 auth other ≡ http.get s auth other

-- The text of a JSON value, and the value of a text.
pub record JsonText : Type 0 where
  pub render : Json → String
  pub parse : String → Json

pub record JsonTextLaws (codec : JsonText) : Type 0 where
  pub parse-render : (v : Value) → codec.parse (codec.render (dumped v)) ≡ dumped v
  pub truthy-render : (v : Value) → truthy (codec.render (dumped v)) ≡ true

-- `conn`, `exists` and `headers` hold nothing else that is read.
pub record FasterClient : Type 0 where
  pub url : String
  pub auth : String
  pub namespace : String

-- The service, and how many nonces the cipher has drawn.
pub record Store (S : Type 0) : Type 0 where
  pub server : S
  pub drawn : ℕ

unfoldable pub get_namespace : (String → String) → Result String
get_namespace secret =
    if not (truthy (secret "NAMESPACE")) then err runtime_error else ok (secret "NAMESPACE")

unfoldable pub get_pauth : (String → String) → Result String
get_pauth secret = if not (truthy (secret "PAUTH")) then err runtime_error else ok (secret "PAUTH")

abbrev or_secret : Option String → Result String → Result String
or_secret none r = r
or_secret (some s) r = ok s

module _ (lib : CryptoLib) (secret : String → String) where
  unfoldable pub require_persistence_secrets : Result (Unit {0})
  unfolding get_namespace get_pauth get_salt get_aeskey
  require_persistence_secrets = bind (get_namespace secret) λ _.
      bind (get_pauth secret)
        λ _. bind (get_salt secret) λ _. bind (get_aeskey lib secret) λ _. ok tt

  unfoldable pub new_client : String → Option String → Option String → Result FasterClient
  unfolding get_namespace get_pauth hash_salt
  new_client base_url auth_str namespace = bind (or_secret auth_str (get_pauth secret)) λ auth.
      bind (or_secret namespace (get_namespace secret)) λ name.
        bind (hash_salt lib secret name none)
          λ hashed. ok (record { url = base_url; auth = auth; namespace = hashed })

  -- `hash_salt(f"{self.namespace}_{key}")`
  abbrev pub hashed_key : FasterClient → String → Result String
  hashed_key self key = hash_salt lib secret (self.namespace & "_" & key) none

  module _ (http : Http) where
    -- The status of the answer is not looked at.
    unfoldable pub post_raw :
        FasterClient → String → String → Store http.Server → Result String × Store http.Server
    post_raw self key body s = elim (hashed_key self key) [
      | err e ↦ (err e, s)
      | ok k ↦
          let (r, server) = http.post s.server self.auth (self.url & "/" & k) body in
          (bind r (λ reply. ok reply.1), record s { server = server })
    ]

    abbrev pub text_found : ℕ × String → Option String
    text_found (status, text) =
        if not (status == 200) then none else if truthy text then some text else none

    unfoldable pub get_raw : FasterClient → String → Store http.Server → Result (Option String)
    get_raw self key s =
        bind (hashed_key self key) λ k.
          bind (http.get s.server self.auth (self.url & "/" & k)) λ reply. ok (text_found reply)

    -- With the nonces that the cipher draws one after another.
    unfoldable pub post :
        (ℕ → Bytes)
        → FasterClient
        → String
        → String
        → Store http.Server
        → Result String × Store http.Server
    unfolding post_raw get_ciphertext_value
    post nonces self key text s = elim (get_ciphertext_value lib secret (nonces s.drawn) text) [
      | err e ↦ (err e, s)
      | ok packed ↦ post_raw self key packed (record s { drawn = s.drawn + 1 })
    ]

    abbrev pub cleartext : Option String → Result (Option String)
    cleartext none = ok none
    cleartext (some ciphertext) =
        if not (truthy ciphertext)
        then ok none
        else bind (get_cleartext_value lib secret ciphertext) λ text. ok (some text)

    unfoldable pub get : FasterClient → String → Store http.Server → Result (Option String)
    unfolding get_raw
    get self key s = bind (get_raw self key s) cleartext

    abbrev pub parsed : JsonText → Option String → Option Json
    parsed codec none = none
    parsed codec (some text) = some (codec.parse text)

    -- The client as the dictionary sees it, with the JSON that its texts are.
    abbrev pub faster : JsonText → (ℕ → Bytes) → FasterClient → KvClient
    faster codec nonces self = record {
      Backend = Store http.Server;
      get = λ s key. bind (get self key s) (λ text. ok (parsed codec text));
      get_raw = λ s key. bind (get_raw self key s) (λ text. ok (parsed codec text));
      post = λ s key text. post nonces self key (codec.render text) s;
      post_raw = λ s key text. post_raw self key (codec.render text) s;
    }
