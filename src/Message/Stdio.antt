-- ===== src/Message/Stdio.antt =====
-- forest/message.py, classes `StdioMessage`, `Quote` and `Reaction`: what a message takes from the
-- JSON that signal-cli prints. The attributes are values, as they stand in the JSON.
use forestfire.Prelude.{
  ℕ, String, Bool, true, not, Option, none, some, List, [], ◌∷◌, if◌then◌else◌, truthy,
}
use forestfire.Prelude.Int.{pos}
use forestfire.Prelude.Exec.{Result, ok, err, bind, attribute_error, assertion_error, key_error}
use forestfire.Value.{Value, null, int, str, list, dict, Items, nil, cons, end, is_true}
use forestfire.Value.Access.{item, get_item}
use forestfire.Message.{Message, TextLib, parse_text}

pub record Quote : Type 0 where
  pub ts : Value
  pub uuid : Value
  pub text : Value

pub record Reaction : Type 0 where
  pub emoji : Value
  pub uuid : Value
  pub ts : Value

pub record StdioMessage : Type 0 where
  pub blob : Value
  pub id : Value
  pub envelope : Value
  pub uuid : Value
  pub name : Value
  pub device_id : Value
  pub timestamp : Value
  pub attachments : Value
  pub mentions : Value
  pub full_text : Value
  pub group : Value
  pub quoted_text : Value
  pub typing : Value
  pub payment : Value
  pub quote : Option Quote
  pub reaction : Option Reaction

-- `except (AssertionError, KeyError)`
abbrev caught : {A : Type 0} → Result (Option A) → Result (Option A)
caught (ok a) = ok a
caught (err assertion_error) = ok none
caught (err key_error) = ok none
caught (err e) = err e

-- `Quote(quote)` and `Reaction(reaction)` under their `try`
unfoldable pub quote_of : Value → Result (Option Quote)
unfolding item get_item
quote_of quote = caught (
    if not (is_true quote)
    then err assertion_error
    else (bind (item quote "id") λ ts. bind (get_item quote "authorUuid" null) λ uuid.
        bind (item quote "text") λ text. ok (some (record { ts = ts; uuid = uuid; text = text }))))

unfoldable pub reaction_of : Value → Result (Option Reaction)
unfolding item get_item
reaction_of reaction = caught (
    if not (is_true reaction)
    then err assertion_error
    else (bind (item reaction "emoji") λ emoji.
        bind (get_item reaction "targetAuthorUuid" null) λ uuid.
          bind (item reaction "targetSentTimestamp")
            λ ts. ok (some (record { emoji = emoji; uuid = uuid; ts = ts }))))

-- `v or w`, where `w` may raise
abbrev or_else : Value → Result Value → Result Value
or_else v w = if is_true v then ok v else w

-- `v.get(k)`
abbrev get_null : Value → String → Result Value
get_null v k = get_item v k null

-- What `parse_text` asks of the text: a true value that is no text has no `split`.
abbrev parses : Value → Bool
parses (str s) = true
parses v = not (is_true v)

unfoldable pub parse_blob : Value → Result StdioMessage
unfolding get_item quote_of reaction_of
parse_blob blob = bind (get_null blob "id") λ id. bind (get_item blob "result" (dict end)) λ result.
    bind (get_item blob "envelope" (dict end)) λ envelope.
      bind (get_null envelope "sourceUuid") λ uuid.
        bind (get_null envelope "sourceName") λ source_name.
          bind (or_else source_name (ok uuid)) λ name.
            bind (get_null envelope "sourceDevice") λ device_id.
              bind (get_null envelope "timestamp") λ sent_at.
                bind (or_else sent_at (get_null result "timestamp")) λ timestamp.
                  bind (get_item envelope "dataMessage" (dict end)) λ msg.
                    bind (get_item msg "attachments" (list nil)) λ attachments.
                      bind (get_null msg "mentions") λ mentioned.
                        bind (or_else mentioned (ok (list nil))) λ mentions.
                          bind (get_item msg "message" (str "")) λ text.
                            bind (get_item msg "groupInfo" (dict end)) λ group_info.
                              bind (get_null group_info "groupId") λ group_id.
                                bind (or_else group_id (get_null result "groupId")) λ group.
                                  bind (get_item msg "quote" (dict end)) λ quoted.
                                    bind (get_null quoted "text") λ quoted_text.
                                      bind (get_item envelope "typingMessage" (dict end))
                                        λ typing_message.
                                          bind (get_null typing_message "action") λ typing.
                                            bind (get_null msg "payment") λ payment.
                                              bind (get_null msg "quote") λ raw_quote.
                                                bind (quote_of raw_quote) λ quote.
                                                  bind (get_null msg "reaction") λ raw_reaction.
                                                    bind (reaction_of raw_reaction) λ reaction.
                                                      if not (parses text)
                                                      then err attribute_error
                                                      else ok (record {
                                                        blob = blob;
                                                        id = id;
                                                        envelope = envelope;
                                                        uuid = uuid;
                                                        name = name;
                                                        device_id = device_id;
                                                        timestamp = timestamp;
                                                        attachments = attachments;
                                                        mentions = mentions;
                                                        full_text = text;
                                                        group = group;
                                                        quoted_text = quoted_text;
                                                        typing = typing;
                                                        payment = payment;
                                                        quote = quote;
                                                        reaction = reaction;
                                                      })

-- The attributes as the rest of the program uses them: a text that is not there is empty.
abbrev pub text_of : Value → String
text_of (str s) = s
text_of v = ""

abbrev pub number_of : Value → ℕ
number_of (int (pos n)) = n
number_of v = 0

abbrev uuid_of : Result Value → String
uuid_of (ok v) = text_of v
uuid_of (err e) = ""

abbrev uuids_of : Items → List String
uuids_of nil = []
uuids_of (cons v vs) = uuid_of (get_null v "uuid") ∷ uuids_of vs

abbrev mentioned_uuids : Value → List String
mentioned_uuids (list vs) = uuids_of vs
mentioned_uuids v = []

abbrev device_of : Result Value → ℕ
device_of (ok v) = number_of v
device_of (err e) = 0

-- The message before its text is parsed. `error` is an attribute that `StdioMessage` never sets.
unfoldable pub unparsed : StdioMessage → Message
unfolding get_item
unparsed m = record {
  id = text_of m.id;
  uuid = text_of m.uuid;
  group = text_of m.group;
  full_text = text_of m.full_text;
  text = text_of m.full_text;
  arg0 = "";
  arg1 = "";
  arg2 = "";
  arg3 = "";
  tokens = [];
  mentions = mentioned_uuids m.mentions;
  quoted_text = text_of m.quoted_text;
  timestamp = number_of m.timestamp;
  error = none;
  payment = is_true m.payment;
  device_id = device_of (
      bind (get_item m.blob "remote_address" (dict end))
        λ address. get_item address "device_id" (int (pos 0)));
}

unfoldable pub message_of : TextLib → StdioMessage → Message
unfolding unparsed parse_text
message_of lib m =
    let message = unparsed m in
    if truthy message.text then parse_text lib message.text message else message
