-- ===== src/Wrapper.antt =====
-- mc_util/__init__.py: the base58 form of a MobileCoin address and its checksum. The encodings, the
-- checksum and the protocol buffers are parameters.
pub mod Laws
mod Tests
use forestfire.Prelude.{
  ℕ, ◌/◌, ◌%◌, String, Bool, true, false, not, Option, none, some, List, [], ◌∷◌, ◌++◌, drop,
  if◌then◌else◌, ◌==◌, string_eq, ◌≡◌,
}
use forestfire.Prelude.Exec.{Result, ok, err, bind}

abbrev pub Bytes : Type 0
Bytes = List ℕ

-- base64, base58, `zlib.crc32`, and the messages `PublicAddress` and `PrintableWrapper`.
pub record WrapperLib (Address Wrapper : Type 0) : Type 0 where
  pub b64encode : Bytes → String
  pub b64decode : String → Result Bytes
  pub b58encode : Bytes → String
  pub b58decode : String → Result Bytes
  pub crc32 : Bytes → ℕ
  pub address_bytes : Address → Bytes
  pub parse_address : Bytes → Result Address
  pub wrapper_bytes : Wrapper → Bytes
  pub parse_wrapper : Bytes → Result Wrapper
  -- a wrapper of this address, and `wrapper.public_address`
  pub wrap : Address → Wrapper
  pub public_address : Wrapper → Address

-- What is relied on: base58 and the messages can be read back.
pub record WrapperLaws {Address Wrapper : Type 0} (lib : WrapperLib Address Wrapper) : Type 0 where
  pub b58decode-b58encode : (b : Bytes) → lib.b58decode (lib.b58encode b) ≡ ok b
  pub parse_wrapper-bytes : (w : Wrapper) → lib.parse_wrapper (lib.wrapper_bytes w) ≡ ok w
  pub public_address-wrap : (a : Address) → lib.public_address (lib.wrap a) ≡ a

-- `n.to_bytes(4, byteorder="little")`, of a number below 2 ^ 32
unfoldable pub to_bytes : ℕ → Bytes
to_bytes n = n % 256 ∷ n / 256 % 256 ∷ n / 65536 % 256 ∷ n / 16777216 % 256 ∷ []

module _ {Address Wrapper : Type 0} (lib : WrapperLib Address Wrapper) where
  unfoldable pub add_checksum_and_b58 : Bytes → String
  add_checksum_and_b58 wrapper_bytes =
      lib.b58encode (to_bytes (lib.crc32 wrapper_bytes) ++ wrapper_bytes)

  unfoldable pub b64_public_address_to_b58_wrapper : String → Result String
  b64_public_address_to_b58_wrapper b64_string =
      bind (lib.b64decode b64_string) λ public_address_bytes.
        bind (lib.parse_address public_address_bytes) λ public_address.
          let wrapper_bytes = lib.wrapper_bytes (lib.wrap public_address) in
          let checksum_bytes = to_bytes (lib.crc32 wrapper_bytes) in
          ok (lib.b58encode (checksum_bytes ++ wrapper_bytes))

  -- The test on the checksum, and the parser.
  unfoldable pub parse_checked : String → Bytes → Result (Option Wrapper)
  parse_checked b58_string wrapper_bytes =
      if not (add_checksum_and_b58 wrapper_bytes == b58_string)
      then ok none
      else (bind (lib.parse_wrapper wrapper_bytes) λ wrapper. ok (some wrapper))

  unfoldable pub b58_wrapper_to_protobuf : String → Result (Option Wrapper)
  b58_wrapper_to_protobuf b58_string =
      bind (lib.b58decode b58_string)
        λ checksum_and_wrapper_bytes. parse_checked b58_string (drop 4 checksum_and_wrapper_bytes)

  abbrev pub encoded : Option Wrapper → Option String
  encoded none = none
  encoded (some wrapper) = some (lib.b64encode (lib.address_bytes (lib.public_address wrapper)))

  unfoldable pub b58_wrapper_to_b64_public_address : String → Result (Option String)
  b58_wrapper_to_b64_public_address b58_string =
      bind (b58_wrapper_to_protobuf b58_string) λ wrapper. ok (encoded wrapper)
