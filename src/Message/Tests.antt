-- ===== src/Message/Tests.antt =====
-- The theorems on `parse_text` at concrete texts.
use forestfire.Prelude.{
  ◌==◌, string_eq, if◌then◌else◌, false, true, none, some, String, [], ◌≡◌, refl,
}
use forestfire.Message.{Message, TextLib, parse_text, try_words, split_once}

abbrev pub lib : TextLib
lib = record {
  lower = λ text. text;
  json_truth = λ text. if text == "{\"amount\": 1, \"to\": 2}" then some true else none;
  shlex_split = λ text. none;
}

abbrev pub blank : Message
blank = record {
  id = "";
  uuid = "";
  group = "";
  full_text = "";
  text = "";
  arg0 = "";
  arg1 = "";
  arg2 = "";
  arg3 = "";
  tokens = [];
  mentions = [];
  quoted_text = "";
  timestamp = 0;
  error = none;
  payment = false;
  device_id = 0;
}

abbrev pay : String
pay = "/pay {\"amount\": 1, \"to\": 2}"

split_once-pay : split_once pay ≡ some ("/pay", "{\"amount\": 1, \"to\": 2}")
unfolding split_once
split_once-pay = refl

try_words_plain : try_words lib "/echo it's fine" ≡ none
unfolding try_words
try_words_plain = refl

-- What a plain text comes to.
parse_text_echo : (parse_text lib "/echo it's fine" blank).arg2 ≡ "fine"
unfolding parse_text
parse_text_echo = refl
