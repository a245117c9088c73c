-- ===== src/Persist/Faster/Laws.antt =====
-- `fasterpKVStoreClient` as the client of a dictionary.
use forestfire.Prelude.{
  ℕ, ◌+◌, String, Option, some, ◌≡◌, ◌≢◌, refl, sym, ap, ◌∙◌, true, false, length,
}
use forestfire.Prelude.Exec.{Exc, Result, ok, err, bind, is_ok}
use forestfire.Value.{Value, Json, dumped}
use forestfire.Crypto.{Bytes, CryptoLib, CryptoLaws, get_ciphertext_value}
use forestfire.Crypto.Laws.{get_cleartext_value-get_ciphertext_value}
use forestfire.Persist.Faster.Raw.{
  HashLaws, truthy-get_ciphertext_value, or_none, get_raw-post_raw, get_raw-post_raw_other,
}
use forestfire.Persist.{KvLaws}
use forestfire.Persist.Faster.{
  parsed, cleartext, Http, HttpLaws, JsonText, JsonTextLaws, FasterClient, Store, post_raw, get_raw,
  post, get, faster,
}

module _ (lib : CryptoLib) (laws : CryptoLaws lib) (hash_laws : HashLaws lib)
    (secret : String → String) (http : Http) (http_laws : HttpLaws http) (self : FasterClient) where
  get_raw_drawn :
      (key : String) (n : ℕ) (s : Store http.Server)
      → get_raw lib secret http self key (record s { drawn = n })
        ≡ get_raw lib secret http self key s
  unfolding get_raw
  get_raw_drawn key n s = refl

  get-eq :
      (key : String) (s : Store http.Server)
      → get lib secret http self key s
        ≡ bind (get_raw lib secret http self key s) (cleartext lib secret http)
  unfolding get
  get-eq key s = refl

  module _ (nonces : ℕ → Bytes) (nonce_lengths : (n : ℕ) → length (nonces n) ≡ 16) where
    post-eq :
        (key text packed : String) (s : Store http.Server)
        → get_ciphertext_value lib secret (nonces s.drawn) text ≡ ok packed
        → post lib secret http nonces self key text s
          ≡ post_raw lib secret http self key packed (record s { drawn = s.drawn + 1 })
    unfolding post
    post-eq key text packed s e = rw (post, e) refl

    post_unpacked :
        (key text : String) (e : Exc) (s : Store http.Server)
        → get_ciphertext_value lib secret (nonces s.drawn) text ≡ err e
        → post lib secret http nonces self key text s ≡ (err e, s)
    unfolding post
    post_unpacked key text e s h = rw (post, h) refl

    cleartext-packed :
        (n : ℕ) (text packed : String)
        → get_ciphertext_value lib secret (nonces n) text ≡ ok packed
        → bind (ok (or_none packed)) (cleartext lib secret http) ≡ ok (some text)
    cleartext-packed n text packed e =
        let full =
          truthy-get_ciphertext_value lib laws hash_laws secret (nonces n) text packed
            (nonce_lengths n) e in
        rw
          (
            full,
            full,
            get_cleartext_value-get_ciphertext_value lib laws secret (nonces n) text packed
                (nonce_lengths n) (hash_laws.decode-encode text) e,
          )
          refl

    -- A value that was written under a key is what the next read of the key finds, whichever nonce
    -- was drawn.
    pub get-post :
        (key text : String) (s : Store http.Server)
        → is_ok (post lib secret http nonces self key text s).0 ≡ true
        → get lib secret http self key (post lib secret http nonces self key text s).1
          ≡ ok (some text)
    get-post key text s h = go (get_ciphertext_value lib secret (nonces s.drawn) text) refl
      where
        go :
            (packed : Result String)
            → get_ciphertext_value lib secret (nonces s.drawn) text ≡ packed
            → get lib secret http self key (post lib secret http nonces self key text s).1
              ≡ ok (some text)
        go (err e) same = let h' : false ≡ true = rw (post_unpacked key text e s same) at h in cc
        go (ok packed) same =
            let t : Store http.Server = record s { drawn = s.drawn + 1 } in
            let h' = rw (post-eq key text packed s same) at h in
            rw (post-eq key text packed s same) (
              get-eq key (post_raw lib secret http self key packed t).1
              ∙ ap (λ r. bind r (cleartext lib secret http))
                  (get_raw-post_raw lib laws hash_laws secret http http_laws self key packed t h')
              ∙ cleartext-packed s.drawn text packed same)

    get_raw-post :
        (key j text : String) (s : Store http.Server)
        → key ≢ j
        → get_raw lib secret http self j (post lib secret http nonces self key text s).1
          ≡ get_raw lib secret http self j s
    get_raw-post key j text s ne = go (get_ciphertext_value lib secret (nonces s.drawn) text) refl
      where
        go :
            (packed : Result String)
            → get_ciphertext_value lib secret (nonces s.drawn) text ≡ packed
            → get_raw lib secret http self j (post lib secret http nonces self key text s).1
              ≡ get_raw lib secret http self j s
        go (err e) same = rw (post_unpacked key text e s same) refl
        go (ok packed) same = rw (post-eq key text packed s same) (
            get_raw-post_raw_other lib laws hash_laws secret http http_laws self key j packed
              (record s { drawn = s.drawn + 1 }) ne
            ∙ get_raw_drawn j (s.drawn + 1) s)

    raw_text :
        (codec : JsonText)
        → JsonTextLaws codec
        → (v : Value)
        → Path
            (Result (Option Json))
            (bind
              (ok (or_none (codec.render (dumped v))))
              (λ text. ok (parsed lib secret http codec text)))
            (ok (some (dumped v)))
    raw_text codec codec_laws v = rw (codec_laws.truthy-render v, codec_laws.parse-render v) refl

    -- Over a service that stores what it answers, the client is what a dictionary asks of its
    -- client: the texts come back, decrypted where they were encrypted, and two keys have two
    -- places.
    pub faster-KvLaws :
        (codec : JsonText) → JsonTextLaws codec → KvLaws (faster lib secret http codec nonces self)
    faster-KvLaws codec codec_laws = record {
      get-post = λ s key v h.
          ap (λ r. bind r (λ text. ok (parsed lib secret http codec text)))
            (get-post key (codec.render (dumped v)) s h)
          ∙ ap (λ j. ok (some j)) (codec_laws.parse-render v);
      get_raw-post_raw = λ s key v h.
          ap (λ r. bind r (λ text. ok (parsed lib secret http codec text)))
            (get_raw-post_raw lib laws hash_laws secret http http_laws self key
              (codec.render (dumped v)) s h)
          ∙ raw_text codec codec_laws v;
      get-post_raw = λ s key j text ne.
          ap (λ r. bind r (λ text. ok (parsed lib secret http codec text)))
            (get-eq j (post_raw lib secret http self key (codec.render text) s).1
              ∙ ap (λ r. bind r (cleartext lib secret http))
                  (get_raw-post_raw_other lib laws hash_laws secret http http_laws self key j
                    (codec.render text) s ne)
              ∙ sym (get-eq j s));
      get_raw-post = λ s key j text ne.
          ap (λ r. bind r (λ text. ok (parsed lib secret http codec text)))
            (get_raw-post key j (codec.render text) s ne);
    }
