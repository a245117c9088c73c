-- ===== src/Wrapper/Laws.antt =====
-- An address that is wrapped and unwrapped.
use forestfire.Prelude.{String, Option, some, ◌++◌, drop, string_eq, ◌≡◌, refl, ap, ◌∙◌, sym}
use forestfire.Prelude.Exec.{Result, ok, bind}
use forestfire.Prelude.Dict.{==_refl}
use forestfire.Wrapper.{
  Bytes, WrapperLib, WrapperLaws, to_bytes, add_checksum_and_b58, b64_public_address_to_b58_wrapper,
  b58_wrapper_to_protobuf, b58_wrapper_to_b64_public_address, encoded, parse_checked,
}

module _ {Address Wrapper : Type 0} (lib : WrapperLib Address Wrapper)
    (laws : WrapperLaws lib) where
  drop_checksum :
      (wrapper_bytes : Bytes)
      → drop 4 (to_bytes (lib.crc32 wrapper_bytes) ++ wrapper_bytes) ≡ wrapper_bytes
  unfolding to_bytes
  drop_checksum wrapper_bytes = refl

  checked :
      (w : Wrapper)
      → parse_checked lib (add_checksum_and_b58 lib (lib.wrapper_bytes w)) (lib.wrapper_bytes w)
        ≡ ok (some w)
  unfolding parse_checked
  checked w =
      rw
        (
          parse_checked,
          ==_refl (add_checksum_and_b58 lib (lib.wrapper_bytes w)),
          laws.parse_wrapper-bytes w,
        )
        refl

  -- What has the right checksum is parsed.
  protobuf-add_checksum :
      (w : Wrapper)
      → b58_wrapper_to_protobuf lib (add_checksum_and_b58 lib (lib.wrapper_bytes w)) ≡ ok (some w)
  unfolding b58_wrapper_to_protobuf add_checksum_and_b58
  protobuf-add_checksum w =
      let b = lib.wrapper_bytes w in
      let s = add_checksum_and_b58 lib b in
      ap (λ (r : Result Bytes). bind r λ c. parse_checked lib s (drop 4 c))
        (laws.b58decode-b58encode (to_bytes (lib.crc32 b) ++ b))
      ∙ ap (parse_checked lib s) (drop_checksum b)
      ∙ checked w

  unwrapped :
      (w : Wrapper)
      → b58_wrapper_to_b64_public_address lib (add_checksum_and_b58 lib (lib.wrapper_bytes w))
        ≡ ok (some (lib.b64encode (lib.address_bytes (lib.public_address w))))
  unfolding b58_wrapper_to_b64_public_address
  unwrapped w =
      ap (λ (r : Result (Option Wrapper)). bind r λ o. ok (encoded lib o)) (protobuf-add_checksum w)

  wrapped :
      (b64_string : String) (b : Bytes) (a : Address)
      → lib.b64decode b64_string ≡ ok b
      → lib.parse_address b ≡ ok a
      → b64_public_address_to_b58_wrapper lib b64_string
        ≡ ok (add_checksum_and_b58 lib (lib.wrapper_bytes (lib.wrap a)))
  unfolding b64_public_address_to_b58_wrapper add_checksum_and_b58
  wrapped b64_string b a d p = rw (b64_public_address_to_b58_wrapper, d, p) refl

  -- The base58 form of an address is read back to the same address, in its own base64 form.
  pub b64_public_address-b58_wrapper :
      (b64_string b58_string : String) (b : Bytes) (a : Address)
      → lib.b64decode b64_string ≡ ok b
      → lib.parse_address b ≡ ok a
      → b64_public_address_to_b58_wrapper lib b64_string ≡ ok b58_string
      → b58_wrapper_to_b64_public_address lib b58_string
        ≡ ok (some (lib.b64encode (lib.address_bytes a)))
  b64_public_address-b58_wrapper b64_string b58_string b a d p h =
      let e1 : ok b58_string ≡ ok (add_checksum_and_b58 lib (lib.wrapper_bytes (lib.wrap a))) =
        sym h ∙ wrapped b64_string b a d p in
      let e2 : b58_string ≡ add_checksum_and_b58 lib (lib.wrapper_bytes (lib.wrap a)) = cc in
      ap (b58_wrapper_to_b64_public_address lib) e2
      ∙ unwrapped (lib.wrap a)
      ∙ ap (λ x. ok (some (lib.b64encode (lib.address_bytes x)))) (laws.public_address-wrap a)
