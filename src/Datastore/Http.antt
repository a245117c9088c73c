-- ===== src/Datastore/Http.antt =====
-- forest/datastore.py, `SignalDatastore.client`: the HTTP client of forest/pdictng.py as the client of
-- the datastore.
use forestfire.Prelude.{ℕ, String, length, ◌≡◌}
use forestfire.Crypto.{Bytes, CryptoLib, CryptoLaws}
use forestfire.Persist.Faster.{Http, HttpLaws, FasterClient, Store, get, post}
use forestfire.Persist.Faster.Raw.{HashLaws}
use forestfire.Persist.Faster.Laws.{get-post}
use forestfire.Datastore.{TextClient, TextLaws}

abbrev pub http_client :
    CryptoLib → (String → String) → Http → (ℕ → Bytes) → FasterClient → TextClient
http_client lib secret http nonces self = record {
  Backend = Store http.Server;
  get = λ b key. get lib secret http self key b;
  post = λ b key text. post lib secret http nonces self key text b;
}

pub http_client-TextLaws :
    (lib : CryptoLib) (laws : CryptoLaws lib) (hash_laws : HashLaws lib) (secret : String → String)
    (http : Http) (http_laws : HttpLaws http) (self : FasterClient) (nonces : ℕ → Bytes)
    → ((n : ℕ) → length (nonces n) ≡ 16)
    → TextLaws (http_client lib secret http nonces self)
http_client-TextLaws lib laws hash_laws secret http http_laws self nonces lengths = record {
  get-post = λ b key text h.
      get-post lib laws hash_laws secret http http_laws self nonces lengths key text b h;
}
