-- ===== src/Message.antt =====
-- forest/message.py: what a `Message` holds, and `parse_text`. An attribute that may be `None` is
-- here the empty text where the program only asks whether it is there.
pub mod Laws
pub mod Stdio
pub mod Tests
use forestfire.Prelude.{
  ℕ, ◌≡◌, String, Bool, true, false, ◌&&◌, Option, none, some, List, [], ◌∷◌, ◌==◌, string_eq,
  nat_eq, if◌then◌else◌, truthy, removeprefix, join, codes,
}
use forestfire.Prelude.Exec.{Result, ok, err, value_error, assertion_error}
use Prim.Native.Char.{Char, code}
use Prim.Native.String

pub record Message : Type 0 where
  pub id : String
  pub uuid : String
  pub group : String
  pub full_text : String
  pub text : String
  pub arg0 : String
  pub arg1 : String
  pub arg2 : String
  pub arg3 : String
  pub tokens : List String
  -- the uuids of `mentions`
  pub mentions : List String
  pub quoted_text : String
  pub timestamp : ℕ
  -- the text under `error["data"]`, where the message is an error
  pub error : Option String
  pub payment : Bool
  -- `blob["remote_address"]["device_id"]`, 0 where there is none
  pub device_id : ℕ

abbrev space : ℕ
space = b' '

-- One more character in front of a split text.
split_char : Char → List String → List String
split_char c [] = []
split_char c (w ∷ ws) = if code c == space then "" ∷ w ∷ ws else String.◌∷◌ c w ∷ ws

-- `s.split(" ")`: never the empty list.
unfoldable pub split : String → List String
unfolding split_char
split String.[] = "" ∷ []
split (String.◌∷◌ c s) = split_char c (split s)

-- `s.split(" ", 1)`: the two parts, if there is a space.
unfoldable pub split_once : String → Option (String × String)
split_once String.[] = none
split_once (String.◌∷◌ c s) =
    let rest = split_once s in
    if code c == space
    then some ("", s)
    else elim rest [ none ↦ none | some (a, b) ↦ some (String.◌∷◌ c a, b) ]

-- The functions of the standard library that `parse_text` calls: `str.lower`, whether a text is
-- JSON and then whether its value is true, and `shlex.split`, `none` where it raises `ValueError`.
pub record TextLib : Type 0 where
  pub lower : String → String
  pub json_truth : String → Option Bool
  pub shlex_split : String → Option (List String)

abbrev pub head_or : List String → String → String
head_or [] d = d
head_or (w ∷ ws) d = w

abbrev pub tail_of : List String → List String
tail_of [] = []
tail_of (w ∷ ws) = ws

abbrev pub arg_at : ℕ → List String → String
arg_at n [] = ""
arg_at ℕ.zero (w ∷ ws) = w
arg_at (ℕ.suc n) (w ∷ ws) = arg_at n ws

-- `self.arg1, self.arg2, self.arg3, *_ = self.tokens + [""] * 3`, if there are tokens
abbrev pub arg_or : ℕ → List String → String → String
arg_or n [] old = old
arg_or n (w ∷ ws) old = arg_at n (w ∷ ws)

module _ (lib : TextLib) where
  -- `arg0, *self.tokens = words` with a `ValueError` on no words
  abbrev unpack : List String → Option (String × List String)
  unpack [] = none
  unpack (w ∷ ws) = some (w, ws)

  -- The inner `try`, with `none` for a `ValueError` that reaches the outer one. The replacement of
  -- quotation marks is made on a copy that is dropped.
  abbrev shlex_words : String → Option (String × List String)
  shlex_words text = elim (lib.shlex_split text) [ none ↦ none | some ws ↦ unpack ws ]

  unfoldable pub try_words : String → Option (String × List String)
  unfolding split_once split
  try_words text = elim (split_once text) [
    | none ↦ none
    | some (arg0, maybe_json) ↦ elim (lib.json_truth maybe_json) [
      | some true ↦ some (arg0, split maybe_json)
      | _ ↦ shlex_words text
    ]
  ]

  abbrev or_split : String → Option (String × List String) → String × List String
  or_split text (some p) = p
  or_split text none = (head_or (split text) "", tail_of (split text))

  -- The command and the tokens of a text.
  unfoldable pub words : String → String × List String
  unfolding try_words split
  words text = or_split text (try_words text)

  unfoldable pub parse_text : String → Message → Message
  unfolding words removeprefix join
  parse_text text m =
      let (arg0, tokens) = words text in
      record m {
        tokens = tokens;
        arg0 = lib.lower (removeprefix arg0 "/");
        arg1 = arg_or 0 tokens m.arg1;
        arg2 = arg_or 1 tokens m.arg2;
        arg3 = arg_or 2 tokens m.arg3;
        text = join " " tokens;
      }
