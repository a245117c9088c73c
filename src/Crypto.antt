-- ===== src/Crypto.antt =====
-- forest/cryptography.py: how a stored value is packed, and the keys. Bytes are numbers. The
-- compression, the cipher, base58 and the hash are parameters.
pub mod Laws
pub mod Spelling
mod Tests
use forestfire.Prelude.{
  ◌-◌, ℕ, ◌+◌, String, Bool, true, false, ◌&◌, Option, none, some, List, [], ◌∷◌, ◌++◌, length,
  take, drop, truthy, if◌then◌else◌, ◌==◌, nat_eq, ◌||◌, not, ◌≡◌,
}
use forestfire.Prelude.Exec.{Result, ok, err, bind, runtime_error}

abbrev pub Bytes : Type 0
Bytes = List ℕ

-- The code that is called: UTF-8, gzip, base58, SHA-256 and AES in EAX mode. `encrypt_and_digest`
-- takes the nonce that `AES.new` has drawn, and returns the ciphertext and the tag.
pub record CryptoLib : Type 0 where
  pub encode : String → Bytes
  pub decode : Bytes → Result String
  pub compress : Bytes → Bytes
  pub decompress : Bytes → Result Bytes
  pub b58encode : Bytes → String
  pub b58decode : String → Result Bytes
  pub sha256 : Bytes → Bytes
  pub encrypt_and_digest : Bytes → Bytes → Bytes → Bytes × Bytes
  pub decrypt_and_verify : Bytes → Bytes → Bytes → Bytes → Result Bytes

-- What is relied on: each of them undoes the other, and EAX gives a tag of 16 bytes.
pub record CryptoLaws (lib : CryptoLib) : Type 0 where
  pub decompress-compress : (b : Bytes) → lib.decompress (lib.compress b) ≡ ok b
  pub b58decode-b58encode : (b : Bytes) → lib.b58decode (lib.b58encode b) ≡ ok b
  pub length_tag : (key nonce b : Bytes) → length (lib.encrypt_and_digest key nonce b).1 ≡ 16
  pub decrypt-encrypt :
      (key nonce b : Bytes)
      → let (c, t) = lib.encrypt_and_digest key nonce b in
        lib.decrypt_and_verify key nonce c t ≡ ok b

-- `data[a:b]`
abbrev pub slice : ℕ → ℕ → Bytes → Bytes
slice a b d = take (b - a) (drop a d)

unfoldable pub get_salt : (String → String) → Result String
get_salt secret = if truthy (secret "SALT") then ok (secret "SALT") else err runtime_error

module _ (lib : CryptoLib) where
  -- The length of the decoded key is tested after it was doubled.
  unfoldable pub get_aeskey : (String → String) → Result Bytes
  get_aeskey secret =
      if not (truthy (secret "AESKEY"))
      then err runtime_error
      else bind (lib.b58decode (secret "AESKEY")) λ decoded.
        let aeskey = decoded ++ decoded in
        let n = length aeskey in
        if not (n == 16 || (n == 32 || n == 64))
        then err runtime_error
        else ok (if n == 64 then take 32 aeskey else aeskey)

  -- With the nonce that the cipher draws.
  unfoldable pub encrypt : Bytes → Bytes → Bytes → Bytes
  encrypt nonce plain key =
      let (ciphertext, authtag) = lib.encrypt_and_digest key nonce plain in
      nonce ++ (authtag ++ ciphertext)

  unfoldable pub decrypt : Bytes → Bytes → Result Bytes
  decrypt packed key =
      lib.decrypt_and_verify key (take 16 packed) (drop 32 packed) (slice 16 32 packed)

  unfoldable pub hash_salt : (String → String) → String → Option String → Result String
  unfolding get_salt
  hash_salt secret key salt =
      bind (elim salt [ none ↦ get_salt secret | some s ↦ ok s ])
        λ s. ok (lib.b58encode (lib.sha256 (lib.encode (s & key))))

  unfoldable pub get_ciphertext_value : (String → String) → Bytes → String → Result String
  unfolding encrypt
  get_ciphertext_value secret nonce value =
      bind (get_aeskey secret)
        λ key. ok (lib.b58encode (encrypt nonce (lib.compress (lib.encode value)) key))

  unfoldable pub get_cleartext_value : (String → String) → String → Result String
  unfolding decrypt
  get_cleartext_value secret value = bind (lib.b58decode value) λ packed.
      bind (get_aeskey secret)
        λ key. bind (decrypt packed key) λ plain. bind (lib.decompress plain) λ b. lib.decode b
