-- ===== src/Persist/Faster/Tests.antt =====
-- The client over a service in memory, and over one that refuses each write, with a cipher that hides
-- nothing and hashes that are the texts themselves.
use Prim.Native.Char.{char}
use forestfire.Prelude.{
  ◌++◌, arith, ℕ, zero, suc, String, [], ◌∷◌, List, Option, none, some, ◌≡◌, refl, sym, ap, ◌∙◌,
  codes, false, string_eq, eq_refl, eq_iff, true,
}
use forestfire.Prelude.Exec.{Result, ok, err, value_error}
use forestfire.Prelude.Dict
use forestfire.Prelude.Dict.{Dict, get-put}
use forestfire.Value.{
  jsonify, end, field, bool, Value, Json, dumped, other, dumps, dict, serializable,
}
use forestfire.Value.Spelling.{of_codes, of_codes-codes, run, spell_value, run-spell_value}
use forestfire.Crypto.{
  Bytes, CryptoLib, CryptoLaws, get_ciphertext_value, get_aeskey, get_salt, hash_salt,
}
use forestfire.Crypto.Spelling.{spell, unspell, unspell-spell}
use forestfire.Persist.{KvLaws, PersistDict, set, assign}
use forestfire.Persist.Faster.{Http, HttpLaws, JsonText, JsonTextLaws, FasterClient, Store, faster}
use forestfire.Persist.Faster.Raw.{HashLaws}
use forestfire.Persist.Faster.Laws.{faster-KvLaws}
use forestfire.Persist.Faster.Refused.{set_unwritten}

abbrev pub tail : Bytes → Result Bytes
tail [] = err value_error
tail (n ∷ ns) = ok ns

abbrev pub zeros : ℕ → Bytes
zeros zero = []
zeros (suc n) = 0 ∷ zeros n

abbrev pub lib : CryptoLib
lib = record {
  encode = codes;
  decode = λ b. ok (of_codes b);
  compress = λ b. 31 ∷ b;
  decompress = tail;
  b58encode = spell;
  b58decode = unspell;
  sha256 = λ b. b;
  encrypt_and_digest = λ key nonce b. (b, zeros 16);
  decrypt_and_verify = λ key nonce c t. ok c;
}

abbrev pub laws : CryptoLaws lib
laws = record {
  decompress-compress = λ b. refl;
  b58decode-b58encode = unspell-spell;
  length_tag = λ key nonce b. refl;
  decrypt-encrypt = λ key nonce b. refl;
}

abbrev pub hash_laws : HashLaws lib
hash_laws = record {
  b58decode_empty = refl;
  decode-encode = λ s. ap ok (of_codes-codes s);
  sha256_cancel = λ s t h. sym (of_codes-codes s) ∙ ap of_codes h ∙ of_codes-codes t;
}

abbrev pub or_missing : Option String → Result (ℕ × String)
or_missing none = ok (404, "")
or_missing (some body) = ok (200, body)

abbrev pub http : Http
http = record {
  Server = Dict String String;
  post = λ s auth url body. (ok (200, "stored"), Dict.put s url body);
  get = λ s auth url. or_missing (Dict.get s url);
}

pub kept :
    (s : Dict String String) (url j body : String)
    → (url ≡ j → ⊥)
    → Dict.get (Dict.put s url body) j ≡ Dict.get s j
kept s url j body ne = ground (arith, get-put s url j body, eq_iff url j)

abbrev pub http_laws : HttpLaws http
http_laws = record {
  get-post = λ s auth url body reply h. simp (get-put, eq_refl);
  get-post_other = λ s auth url other body ne. ap or_missing (kept s url other body ne);
}

abbrev spelled : Json → String
spelled (dumped v) = String.◌∷◌ (char 97 tt) (spell (spell_value v []))
spelled (other s) = s

abbrev first_of : String → List Value → Json
first_of s [] = other s
first_of s (v ∷ vs) = dumped v

abbrev put_together : String → Result (List ℕ) → Json
put_together s (ok ns) = first_of s (run ns [])
put_together s (err e) = other s

abbrev read : String → Json
read String.[] = other ""
read (String.◌∷◌ c s) = put_together (String.◌∷◌ c s) (unspell s)

abbrev codec : JsonText
codec = record { render = spelled; parse = read }

abbrev codec_laws : JsonTextLaws codec
codec_laws = record {
  parse-render = λ v.
      ap (put_together (spelled (dumped v))) (unspell-spell (spell_value v []))
      ∙ ap (first_of (spelled (dumped v))) (run-spell_value v [] []);
  truthy-render = λ v. refl;
}

-- Each secret is eight bytes.
abbrev pub secret : String → String
secret name = "........"

abbrev pub self : FasterClient
self = record { url = "http://localhost"; auth = "token"; namespace = "bots" }

faster-KvLaws_example : KvLaws (faster lib secret http codec (λ n. zeros 16) self)
faster-KvLaws_example =
    faster-KvLaws lib laws hash_laws secret http http_laws self (λ n. zeros 16) (λ n. refl) codec
      codec_laws

-- A service whose storage is full.
abbrev full : Http
full = record {
  Server = Unit {0};
  post = λ s auth url body. (ok (507, "full"), s);
  get = λ s auth url. ok (404, "");
}

abbrev empty : PersistDict (Store (Unit {0}))
empty = record {
  tag = "tag";
  writer_id = "me";
  dict_ = [];
  claim_lost = false;
  init_task = ok tt;
  backend = record { server = tt; drawn = 0 };
}

abbrev text : Json
text = dumped (dict (field "k" (bool true) end))

abbrev packed : String
packed = spell (zeros 16 ++ (zeros 16 ++ (31 ∷ codes (spelled text))))

packs : get_ciphertext_value lib secret (zeros 16) (spelled text) ≡ ok packed
unfolding get_ciphertext_value get_aeskey
packs = refl

set_unwritten_example :
    set (faster lib secret full codec (λ n. zeros 16) self) "k" (bool true) empty ≡ (
      ok "full",
      record empty { dict_ = ("k", bool true) ∷ []; backend = record { server = tt; drawn = 1 } },
    )
unfolding assign Dict.put dumps serializable hash_salt get_salt jsonify
set_unwritten_example =
    set_unwritten lib secret full self codec (λ n. zeros 16) empty "k" (bool true) text packed
      (spell (codes "........bots_Persist_tag")) "full" 507 refl refl refl refl packs refl refl
