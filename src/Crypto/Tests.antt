-- ===== src/Crypto/Tests.antt =====
-- A cipher that hides nothing, and codes for bytes and texts, to run forest/cryptography.py with.
use forestfire.Prelude.{nat_eq, ℕ, zero, suc, String, [], ◌∷◌, ◌++◌, ◌≡◌, refl, codes}
use forestfire.Prelude.Exec.{Result, ok, err, value_error}
use forestfire.Crypto.{
  Bytes, CryptoLib, CryptoLaws, get_ciphertext_value, get_cleartext_value, get_aeskey,
}
use forestfire.Crypto.Spelling.{spell, unspell, unspell-spell}
use forestfire.Crypto.Laws.{get_cleartext_value-get_ciphertext_value}

abbrev tail : Bytes → Result Bytes
tail [] = err value_error
tail (n ∷ ns) = ok ns

abbrev zeros : ℕ → Bytes
zeros zero = []
zeros (suc n) = 0 ∷ zeros n

abbrev lib : CryptoLib
lib = record {
  encode = codes;
  decode = λ b. ok "ab";
  compress = λ b. 31 ∷ b;
  decompress = tail;
  b58encode = spell;
  b58decode = unspell;
  sha256 = λ b. b;
  encrypt_and_digest = λ key nonce b. (b, zeros 16);
  decrypt_and_verify = λ key nonce c t. ok c;
}

abbrev laws : CryptoLaws lib
laws = record {
  decompress-compress = λ b. refl;
  b58decode-b58encode = unspell-spell;
  length_tag = λ key nonce b. refl;
  decrypt-encrypt = λ key nonce b. refl;
}

-- Eight bytes.
abbrev secret : String → String
secret name = "........"

abbrev packed : String
packed = spell (zeros 16 ++ (zeros 16 ++ (31 ∷ (97 ∷ (98 ∷ [])))))

packs : get_ciphertext_value lib secret (zeros 16) "ab" ≡ ok packed
unfolding get_ciphertext_value get_aeskey
packs = refl

get_cleartext_value-get_ciphertext_value_example : get_cleartext_value lib secret packed ≡ ok "ab"
get_cleartext_value-get_ciphertext_value_example =
    get_cleartext_value-get_ciphertext_value lib laws secret (zeros 16) "ab" packed refl refl packs

keyed : get_aeskey lib secret ≡ ok (zeros 16)
unfolding get_aeskey
keyed = refl
