-- ===== src/Wrapper/Tests.antt =====
-- Addresses that are bytes, with the encoding of Crypto/Spelling for base64 and base58.
use forestfire.Prelude.{some, [], ◌∷◌, ◌≡◌, refl}
use forestfire.Prelude.Exec.{ok}
use forestfire.Crypto.Spelling.{spell, unspell, unspell-spell}
use forestfire.Wrapper.{
  Bytes, WrapperLib, WrapperLaws, add_checksum_and_b58, b64_public_address_to_b58_wrapper,
  b58_wrapper_to_b64_public_address, b58_wrapper_to_protobuf,
}
use forestfire.Wrapper.Laws

abbrev lib : WrapperLib Bytes Bytes
lib = record {
  b64encode = spell;
  b64decode = unspell;
  b58encode = spell;
  b58decode = unspell;
  crc32 = λ b. 3;
  address_bytes = λ a. a;
  parse_address = λ b. ok b;
  wrapper_bytes = λ w. w;
  parse_wrapper = λ b. ok b;
  wrap = λ a. a;
  public_address = λ w. w;
}

abbrev laws : WrapperLaws lib
laws = record {
  b58decode-b58encode = unspell-spell;
  parse_wrapper-bytes = λ w. refl;
  public_address-wrap = λ a. refl;
}

wraps : b64_public_address_to_b58_wrapper lib "aa.a." ≡ ok "aaa....aa.a."
unfolding b64_public_address_to_b58_wrapper forestfire.Wrapper.to_bytes
wraps = refl

b64_public_address-b58_wrapper_example :
    b58_wrapper_to_b64_public_address lib "aaa....aa.a." ≡ ok (some "aa.a.")
b64_public_address-b58_wrapper_example =
    Laws.b64_public_address-b58_wrapper lib laws "aa.a." "aaa....aa.a." (2 ∷ 1 ∷ []) (2 ∷ 1 ∷ [])
      refl refl wraps
