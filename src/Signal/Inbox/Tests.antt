-- ===== src/Signal/Inbox/Tests.antt =====
-- Lines of signal-cli, as values: an answer, an error, and parameters in a list.
use forestfire.Prelude.{String, false, Option, none, some, List, [], ◌∷◌, ◌++◌, ◌≡◌, ◌≢◌, refl}
use forestfire.Prelude.Int.{pos}
use forestfire.Prelude.Exec.{ok, err, attribute_error}
use forestfire.Value.{Value, null, str, int, dict, list, Items, cons, nil, Fields, end, field, find}
use forestfire.Value.Access.{entry}
use forestfire.Message.Tests.{lib}
use forestfire.Message.Stdio.{StdioMessage, message_of}
use forestfire.Signal.Requests.{Command, Requests, waiting, settle, collect}
use forestfire.Signal.Inbox.{decode_blob}
use forestfire.Signal.Inbox.Laws.{decode_blob-collect}

abbrev result : Fields
result = entry "timestamp" (int (pos 7))

abbrev blob : Fields
blob = field "jsonrpc" (str "2.0") (field "result" (dict result) (entry "id" (str "send-0")))

abbrev sent : Requests
sent = record {
  pending_requests = ("send-0", waiting) ∷ [];
  pending_messages_sent = [];
  outbox = [];
  backoff = false;
  next_uid = 1;
  responding = [];
}

decode_blob-collect_example :
    (m : StdioMessage) × (r' : Requests) × (decode_blob (dict blob) [] ≡ (ok tt, [] ++ (m ∷ [])))
    × (collect "send-0" (settle (message_of lib m) sent).1 ≡ some (ok (message_of lib m), r'))
unfolding find forestfire.Prelude.Dict.get
decode_blob-collect_example =
    decode_blob-collect lib blob result "send-0" [] sent refl refl refl refl refl refl refl

abbrev limited : StdioMessage
limited = record {
  blob = dict (field "id" (str "send-0") (entry "error" (dict (entry "data" (str "status: 413")))));
  id = str "send-0";
  envelope = dict end;
  uuid = null;
  name = null;
  device_id = null;
  timestamp = null;
  attachments = list nil;
  mentions = list nil;
  full_text = str "";
  group = null;
  quoted_text = null;
  typing = null;
  payment = null;
  quote = none;
  reaction = none;
}

abbrev command : Command
command = record { id = "send-0"; method = "send"; params = [] }

-- That message is what the line of an error comes to.
error_line : decode_blob limited.blob [] ≡ (ok tt, limited ∷ [])
unfolding decode_blob forestfire.Value.Access.key_in forestfire.Signal.Inbox.enqueue_blob_messages
    forestfire.Value.Access.get_item forestfire.Signal.Inbox.params_blob
    forestfire.Signal.Inbox.result_blob forestfire.Signal.Inbox.put_message
    forestfire.Message.Stdio.parse_blob
error_line = refl

-- Parameters in a list are put one by one, and then taken for one more message.
listed_params :
    (decode_blob (dict (entry "params" (list (cons (dict end) nil)))) []).0 ≡ err attribute_error
unfolding decode_blob forestfire.Value.Access.key_in forestfire.Signal.Inbox.enqueue_blob_messages
    forestfire.Value.Access.get_item forestfire.Signal.Inbox.params_blob
    forestfire.Value.Access.item forestfire.Signal.Inbox.put_params
    forestfire.Signal.Inbox.put_message forestfire.Message.Stdio.parse_blob
    forestfire.Signal.Inbox.result_blob
listed_params = refl
