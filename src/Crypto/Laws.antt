-- ===== src/Crypto/Laws.antt =====
-- Packing and unpacking a value, and the length of the key.
use forestfire.Prelude.{
  ℕ, String, [], ◌∷◌, ◌++◌, length, take, drop, length-append, ◌≡◌, refl, sym, ap, ◌∙◌, ◌⊎◌, arith,
  suc, zero, ◌≤◌,
}
use forestfire.Prelude.Exec.{Result, ok, err, bind}
use forestfire.Crypto.{
  Bytes, CryptoLib, CryptoLaws, get_aeskey, encrypt, decrypt, get_ciphertext_value,
  get_cleartext_value, slice,
}

drop-append : (xs ys : Bytes) (n : ℕ) → length xs ≡ n → drop n (xs ++ ys) ≡ ys
drop-append [] ys zero h = refl
drop-append [] ys (suc n) h = absurd (omega arith)
drop-append (x ∷ xs) ys zero h = absurd (omega arith)
drop-append (x ∷ xs) ys (suc n) h = drop-append xs ys n (omega arith)

take-append : (xs ys : Bytes) (n : ℕ) → length xs ≡ n → take n (xs ++ ys) ≡ xs
take-append [] ys zero h = refl
take-append [] ys (suc n) h = absurd (omega arith)
take-append (x ∷ xs) ys zero h = absurd (omega arith)
take-append (x ∷ xs) ys (suc n) h = ap (λ r. x ∷ r) (take-append xs ys n (omega arith))

length-take : (n : ℕ) (xs : Bytes) → n ≤ length xs → length (take n xs) ≡ n
length-take zero xs h = refl
length-take (suc n) [] h = absurd (omega arith)
length-take (suc n) (x ∷ xs) h = omega (arith, length-take n xs (omega arith))

append_assoc : (xs ys zs : Bytes) → xs ++ (ys ++ zs) ≡ (xs ++ ys) ++ zs
append_assoc [] ys zs = refl
append_assoc (x ∷ xs) ys zs = ap (λ r. x ∷ r) (append_assoc xs ys zs)

-- The three parts of a packed text.
parts :
    (nonce tag rest : Bytes)
    → length nonce ≡ 16
    → length tag ≡ 16
    → (take 16 (nonce ++ (tag ++ rest)) ≡ nonce)
      × ((slice 16 32 (nonce ++ (tag ++ rest)) ≡ tag) × (drop 32 (nonce ++ (tag ++ rest)) ≡ rest))
parts nonce tag rest h k = (
  take-append nonce (tag ++ rest) 16 h,
  (
    ap (take 16) (drop-append nonce (tag ++ rest) 16 h) ∙ take-append tag rest 16 k,
    ap (drop 32) (append_assoc nonce tag rest)
        ∙ drop-append (nonce ++ tag) rest 32 (omega (arith, length-append nonce tag, h, k)),
  ),
)

module _ (lib : CryptoLib) (laws : CryptoLaws lib) where
  decrypt-encrypt :
      (nonce plain key : Bytes)
      → length nonce ≡ 16
      → decrypt lib (encrypt lib nonce plain key) key ≡ ok plain
  unfolding decrypt encrypt
  decrypt-encrypt nonce plain key h =
      let (c, t) = lib.encrypt_and_digest key nonce plain in
      let (e1, e2) = parts nonce t c h (laws.length_tag key nonce plain) in
      let (e3, e4) = e2 in
      ap
        (λ n.
          lib.decrypt_and_verify key n (drop 32 (nonce ++ (t ++ c)))
            (slice 16 32 (nonce ++ (t ++ c))))
        e1
      ∙ ap (λ b. lib.decrypt_and_verify key nonce b (slice 16 32 (nonce ++ (t ++ c)))) e4
      ∙ ap (lib.decrypt_and_verify key nonce c) e3
      ∙ laws.decrypt-encrypt key nonce plain

  -- A value that was packed is unpacked to itself, whatever nonce of 16 bytes was drawn, if UTF-8 has
  -- the value.
  pub get_cleartext_value-get_ciphertext_value :
      (secret : String → String) (nonce : Bytes) (value packed : String)
      → length nonce ≡ 16
      → lib.decode (lib.encode value) ≡ ok value
      → get_ciphertext_value lib secret nonce value ≡ ok packed
      → get_cleartext_value lib secret packed ≡ ok value
  unfolding get_ciphertext_value get_cleartext_value
  get_cleartext_value-get_ciphertext_value secret nonce value packed h u =
      go (get_aeskey lib secret) refl
    where
      opened : Bytes → Result String
      opened plain = bind (lib.decompress plain) lib.decode

      unpacked : Bytes → Result String
      unpacked b = bind (get_aeskey lib secret) λ key. bind (decrypt lib b key) opened

      go :
          (k : Result Bytes)
          → get_aeskey lib secret ≡ k
          → bind k
              (λ key. ok (lib.b58encode (encrypt lib nonce (lib.compress (lib.encode value)) key)))
            ≡ ok packed
          → get_cleartext_value lib secret packed ≡ ok value
      go (err x) _ e = ground arith
      go (ok key) k e =
          let zipped : Bytes = lib.compress (lib.encode value) in
          let sent : lib.b58encode (encrypt lib nonce zipped key) ≡ packed = ground arith in
          let e1 = ap (λ p. bind (lib.b58decode p) unpacked) (sym sent) in
          let e2 =
            ap (λ r. bind r unpacked) (laws.b58decode-b58encode (encrypt lib nonce zipped key)) in
          let e3 =
            ap (λ r. bind r λ key'. bind (decrypt lib (encrypt lib nonce zipped key) key') opened)
              k in
          let e4 = ap (λ r. bind r opened) (decrypt-encrypt nonce zipped key h) in
          let e5 = ap (λ r. bind r lib.decode) (laws.decompress-compress (lib.encode value)) in
          e1 ∙ (e2 ∙ e3 ∙ e4 ∙ e5 ∙ u)

  -- A key is accepted only when it decodes to 8, 16 or 32 bytes; the key that is used then has 16, 32
  -- and 32 bytes.
  pub length-get_aeskey :
      (secret : String → String) (decoded key : Bytes)
      → lib.b58decode (secret "AESKEY") ≡ ok decoded
      → get_aeskey lib secret ≡ ok key
      → ((length decoded ≡ 8) × (length key ≡ 16))
        ⊎ (((length decoded ≡ 16) × (length key ≡ 32))
            ⊎ ((length decoded ≡ 32) × (length key ≡ 32)))
  unfolding get_aeskey
  length-get_aeskey secret decoded key d e =
      ground (arith, length-append decoded decoded, length-take 32 (decoded ++ decoded))
