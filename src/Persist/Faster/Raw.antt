-- ===== src/Persist/Faster/Raw.antt =====
-- The requests of `fasterpKVStoreClient` to the service: where a key is stored, and what is read back
-- from there.
use text.Mathlib.TextLemmas.{append_cancel_left}
use forestfire.Prelude.{
  if◌then◌else◌, ℕ, String, [], ◌∷◌, ◌++◌, Option, none, some, ◌&◌, truthy, ◌≡◌, ◌≢◌, refl, sym, ap,
  ◌∙◌, true, false, arith, length,
}
use forestfire.Prelude.Exec.{Exc, Result, ok, err, bind, is_ok}
use forestfire.Crypto.{
  get_aeskey, Bytes, CryptoLib, CryptoLaws, hash_salt, get_salt, get_ciphertext_value, encrypt,
}
use forestfire.Persist.Faster.{
  text_found, Http, HttpLaws, FasterClient, Store, hashed_key, post_raw, get_raw,
}

ok_cancel : {A : Type 0} {a b : A} → ok a ≡ ok b → a ≡ b
ok_cancel h = cc

-- `text or None`
abbrev pub or_none : String → Option String
or_none body = if truthy body then some body else none

-- What is relied on besides: base58 reads the empty text as no bytes, UTF-8 has every text that is
-- hashed or stored, and no two texts that are hashed collide.
pub record HashLaws (lib : CryptoLib) : Type 0 where
  pub b58decode_empty : lib.b58decode "" ≡ ok []
  pub decode-encode : (s : String) → lib.decode (lib.encode s) ≡ ok s
  pub sha256_cancel : (s t : String) → lib.sha256 (lib.encode s) ≡ lib.sha256 (lib.encode t) → s ≡ t

module _ (lib : CryptoLib) (laws : CryptoLaws lib) (hash_laws : HashLaws lib)
    (secret : String → String) where
  pub hash_salt_cancel :
      (s t p : String)
      → hash_salt lib secret s none ≡ ok p
      → hash_salt lib secret t none ≡ ok p
      → s ≡ t
  unfolding hash_salt get_salt
  hash_salt_cancel s t p h k = go (get_salt secret) refl h k
    where
      hashed : Result String → String → Result String
      hashed salt text = bind salt λ v. ok (lib.b58encode (lib.sha256 (lib.encode (v & text))))

      go :
          (salt : Result String)
          → get_salt secret ≡ salt
          → hashed salt s ≡ ok p
          → hashed salt t ≡ ok p
          → s ≡ t
      go (err x) _ a b = ground arith
      go (ok v) _ a b =
          let same = ap lib.b58decode (ok_cancel (a ∙ sym b)) in
          let digest = ok_cancel (
            sym (laws.b58decode-b58encode (lib.sha256 (lib.encode (v & s))))
            ∙ same
            ∙ laws.b58decode-b58encode (lib.sha256 (lib.encode (v & t)))) in
          append_cancel_left v s t (hash_laws.sha256_cancel (v & s) (v & t) digest)

  not_empty : (nonce rest : Bytes) → length nonce ≡ 16 → nonce ++ rest ≡ [] → ⊥
  not_empty [] rest h e = omega arith
  not_empty (n ∷ nonce) rest h e = cc

  spelled :
      (nonce rest : Bytes) (packed : String)
      → length nonce ≡ 16
      → lib.b58encode (nonce ++ rest) ≡ packed
      → truthy packed ≡ true
  spelled nonce rest String.[] h e = absurd (
      not_empty nonce rest h (
        ok_cancel (
          sym (laws.b58decode-b58encode (nonce ++ rest))
          ∙ ap lib.b58decode e
          ∙ hash_laws.b58decode_empty)))
  spelled nonce rest (String.◌∷◌ c s) h e = refl

  -- What was packed is not the empty text.
  pub truthy-get_ciphertext_value :
      (nonce : Bytes) (text packed : String)
      → length nonce ≡ 16
      → get_ciphertext_value lib secret nonce text ≡ ok packed
      → truthy packed ≡ true
  unfolding get_ciphertext_value encrypt
  truthy-get_ciphertext_value nonce text packed h e = go (get_aeskey lib secret) refl e
    where
      go :
          (k : Result Bytes)
          → get_aeskey lib secret ≡ k
          → bind k
              (λ key. ok (lib.b58encode (encrypt lib nonce (lib.compress (lib.encode text)) key)))
            ≡ ok packed
          → truthy packed ≡ true
      go (err x) _ e = ground arith
      go (ok key) k e =
          let (c, t) = lib.encrypt_and_digest key nonce (lib.compress (lib.encode text)) in
          spelled nonce (t ++ c) packed h (ok_cancel e)

  module _ (http : Http) (http_laws : HttpLaws http) (self : FasterClient) where
    abbrev pub url : String → String
    url k = self.url & "/" & k

    pub post_raw-eq :
        (key body k : String) (s : Store http.Server)
        → hashed_key lib secret self key ≡ ok k
        → let (r, server) = http.post s.server self.auth (url k) body in
          post_raw lib secret http self key body s
          ≡ (bind r (λ reply. ok reply.1), record s { server = server })
    unfolding post_raw
    post_raw-eq key body k s e = rw (post_raw, e) refl

    post_raw_unhashed :
        (key body : String) (e : Exc) (s : Store http.Server)
        → hashed_key lib secret self key ≡ err e
        → post_raw lib secret http self key body s ≡ (err e, s)
    unfolding post_raw
    post_raw_unhashed key body e s h = rw (post_raw, h) refl

    pub get_raw-eq :
        (key k : String) (s : Store http.Server)
        → hashed_key lib secret self key ≡ ok k
        → get_raw lib secret http self key s
          ≡ bind
              (http.get s.server self.auth (url k))
              (λ reply. ok (text_found lib secret http reply))
    unfolding get_raw
    get_raw-eq key k s e = rw e refl

    get_raw_unhashed :
        (key : String) (e : Exc) (s : Store http.Server)
        → hashed_key lib secret self key ≡ err e
        → get_raw lib secret http self key s ≡ err e
    unfolding get_raw
    get_raw_unhashed key e s h = rw h refl

    answered :
        (k body : String) (s : http.Server) (r : Result (ℕ × String))
        → (http.post s self.auth (url k) body).0 ≡ r
        → is_ok (bind r (λ reply. ok reply.1)) ≡ true
        → http.get (http.post s self.auth (url k) body).1 self.auth (url k) ≡ ok (200, body)
    answered k body s (err e) same h = cc
    answered k body s (ok reply) same h = http_laws.get-post s self.auth (url k) body reply same

    -- A write that was answered is what the next read of its key finds.
    pub get_raw-post_raw :
        (key body : String) (s : Store http.Server)
        → is_ok (post_raw lib secret http self key body s).0 ≡ true
        → get_raw lib secret http self key (post_raw lib secret http self key body s).1
          ≡ ok (or_none body)
    get_raw-post_raw key body s h = go (hashed_key lib secret self key) refl
      where
        go :
            (k : Result String)
            → hashed_key lib secret self key ≡ k
            → get_raw lib secret http self key (post_raw lib secret http self key body s).1
              ≡ ok (or_none body)
        go (err e) same =
            let h' : false ≡ true = rw (post_raw_unhashed key body e s same) at h in cc
        go (ok k) same =
            let h' = rw (post_raw-eq key body k s same) at h in
            let stored =
              answered k body s.server (http.post s.server self.auth (url k) body).0 refl h' in
            rw (post_raw-eq key body k s same) (
              get_raw-eq key k (record s { server = (http.post s.server self.auth (url k) body).1 })
                same
              ∙ ap (λ r. bind r (λ reply. ok (text_found lib secret http reply))) stored)

    keys_cancel :
        (key j k l : String)
        → hashed_key lib secret self key ≡ ok k
        → hashed_key lib secret self j ≡ ok l
        → url k ≡ url l
        → key ≡ j
    keys_cancel key j k l a b same =
        let hashes : k ≡ l =
          append_cancel_left "/" k l (append_cancel_left self.url ("/" & k) ("/" & l) same) in
        let texts =
          hash_salt_cancel (self.namespace & "_" & key) (self.namespace & "_" & j) l
            (a ∙ ap ok hashes) b in
        append_cancel_left "_" key j (append_cancel_left self.namespace ("_" & key) ("_" & j) texts)

    -- A write under one key is not seen under another one.
    pub get_raw-post_raw_other :
        (key j body : String) (s : Store http.Server)
        → key ≢ j
        → get_raw lib secret http self j (post_raw lib secret http self key body s).1
          ≡ get_raw lib secret http self j s
    get_raw-post_raw_other key j body s ne =
        go (hashed_key lib secret self key) (hashed_key lib secret self j) refl refl
      where
        go :
            (k l : Result String)
            → hashed_key lib secret self key ≡ k
            → hashed_key lib secret self j ≡ l
            → get_raw lib secret http self j (post_raw lib secret http self key body s).1
              ≡ get_raw lib secret http self j s
        go (err e) l a b = rw (post_raw_unhashed key body e s a) refl
        go (ok k) (err e) a b =
            get_raw_unhashed j e (post_raw lib secret http self key body s).1 b
            ∙ sym (get_raw_unhashed j e s b)
        go (ok k) (ok l) a b =
            let kept =
              http_laws.get-post_other s.server self.auth (url k) (url l) body
                (λ same. ne (keys_cancel key j k l a b same)) in
            rw (post_raw-eq key body k s a) (
              get_raw-eq j l (record s { server = (http.post s.server self.auth (url k) body).1 }) b
              ∙ ap (λ r. bind r (λ reply. ok (text_found lib secret http reply))) kept
              ∙ sym (get_raw-eq j l s b))
