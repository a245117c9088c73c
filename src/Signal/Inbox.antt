-- ===== src/Signal/Inbox.antt =====
-- forest/core.py: how `Signal` turns a line that signal-cli prints into messages in the inbox.
pub mod Laws
mod Tests
use forestfire.Prelude.{
  String, Bool, true, false, not, Option, none, some, List, [], ◌∷◌, ◌++◌, if◌then◌else◌, truthy,
}
use forestfire.Prelude.Exec.{
  Exc, Result, ok, err, bind, Exec, pure, raise, lift, modify, ◌>>=◌, ◌>>◌, key_error,
  attribute_error,
}
use forestfire.Value.{Value, null, str, dict, list, Items, nil, cons, Fields, end, field, is_true}
use forestfire.Value.Access.{item, get_item, key_in, entry}
use forestfire.Message.Stdio.{StdioMessage, parse_blob}

-- The inbox, with the message put last at its end.
abbrev pub Inbox : Type 0
Inbox = List StdioMessage

-- `self.inbox.put(MessageParser(v))`
unfoldable pub put_message : Value → Exec Inbox (Unit {0})
put_message v = lift (parse_blob v) >>= λ m. modify (λ s. s ++ (m ∷ []))

-- `for msg in blob["params"]`, each unless the whole is a receipt
unfoldable pub put_params : Value → Items → Exec Inbox (Unit {0})
put_params blob nil = pure tt
put_params blob (cons msg msgs) =
    lift (
      bind (get_item blob "content" (dict end))
        λ content. get_item content "receipt_message" (dict end))
    >>= λ receipt.
        (if is_true receipt then pure tt else put_message msg) >>= λ _. put_params blob msgs

abbrev put_listed : Value → Value → Exec Inbox (Unit {0})
put_listed blob (list msgs) = put_params blob msgs
put_listed blob params = pure tt

-- `message_blob` after the test on "params"
unfoldable pub params_blob : Bool → Value → Exec Inbox Value
params_blob false blob = pure null
params_blob true blob =
    lift (item blob "params") >>= λ params. put_listed blob params >>= λ _. pure params

-- signal-cli answers some requests with a list, of which the first element is taken.
unfoldable pub massaged : Value → Value → Result Value
massaged blob (list nil) =
    bind (item blob "id")
      λ id. ok (dict (field "id" id (field "result" (dict end) (entry "all_results" (list nil)))))
massaged blob (list (cons v vs)) =
    bind (item blob "id")
      λ id. ok (dict (field "id" id (field "result" v (entry "all_results" (list (cons v vs))))))
massaged blob result = ok blob

abbrev is_container : Value → Bool
is_container (dict fs) = true
is_container (list vs) = true
is_container v = false

-- `message_blob` after the test on "result"
unfoldable pub result_blob : Bool → Value → Value → Result Value
result_blob false blob message_blob = ok message_blob
result_blob true blob message_blob =
    bind (item blob "result")
      λ result. if is_container result then massaged blob result else ok message_blob

abbrev pub put_if_true : Value → Exec Inbox (Unit {0})
put_if_true v = if is_true v then put_message v else pure tt

unfoldable pub enqueue_blob_messages : Value → Exec Inbox (Unit {0})
enqueue_blob_messages blob = lift (get_item blob "id" null) >>= λ id.
    lift (key_in "params" blob) >>= λ has_params. params_blob has_params blob >>= λ params.
    lift (key_in "result" blob) >>= λ has_result.
    lift (result_blob has_result blob params) >>= λ message_blob.
    lift (key_in "error" blob) >>= λ has_error.
    put_if_true (if has_error then blob else message_blob)

-- The log of an error: the traceback is split, so it has to be a text.
abbrev split_traceback : Value → Result (Unit {0})
split_traceback (str s) = ok tt
split_traceback v = err attribute_error

abbrev log_traceback : Bool → Value → Result (Unit {0})
log_traceback false blob = ok tt
log_traceback true blob = bind (item blob "traceback") split_traceback

abbrev log_error : Bool → Value → Result (Unit {0})
log_error false blob = ok tt
log_error true blob =
    bind (key_in "traceback" blob) λ has_traceback. log_traceback has_traceback blob

-- `except KeyError`
abbrev pub without_key_error : Result (Unit {0}) × Inbox → Result (Unit {0}) × Inbox
without_key_error (err key_error, s) = (ok tt, s)
without_key_error r = r

unfoldable pub decode_blob : Value → Exec Inbox (Unit {0})
decode_blob blob =
    lift (bind (key_in "error" blob) λ has_error. log_error has_error blob) >>= λ _ s.
    without_key_error (enqueue_blob_messages blob s)

module _ (loads : String → Option Value) where
  -- `decode_signal_line`; `loads` is `json.loads`, `none` where it raises.
  unfoldable pub decode_signal_line : String → Exec Inbox (Unit {0})
  decode_signal_line line s = elim (loads line) [
    | none ↦ (ok tt, s)
    | some blob ↦ decode_blob blob s
  ]

  -- `read_signal_stdout`, of the lines without the white space around them: it stops at the first
  -- empty one.
  unfoldable pub read_signal_stdout : List String → Exec Inbox (Unit {0})
  read_signal_stdout [] = pure tt
  read_signal_stdout (line ∷ lines) =
      if not (truthy line)
      then pure tt
      else decode_signal_line line >>= λ _. read_signal_stdout lines
