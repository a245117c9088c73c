-- ===== src/Signal/Inbox/Laws.antt =====
-- From a line of signal-cli to the request that it answers.
use forestfire.Prelude.{
  String, true, false, Option, none, some, [], ◌∷◌, ◌++◌, truthy, if◌then◌else◌, ◌≡◌, refl, ◌≢◌, ap,
  ◌∙◌, string_eq, Bool-cases, inl, inr,
}
use forestfire.Prelude.Exec.{Result, ok, err, invalid_state}
use forestfire.Prelude.Dict.{get, put, remove}
use forestfire.Value.{Value, null, str, dict, list, nil, Fields, end, field, find}
use forestfire.Value.Access.{get_item, or_value, key_in, item}
use forestfire.Message.{Message, TextLib, parse_text}
use forestfire.Message.Stdio.{StdioMessage, parse_blob, message_of, unparsed, quote_of, reaction_of}
use forestfire.Signal.Requests.{
  Command, Future, done, Requests, waiting, settle, collect, is_rate_limited,
}
use forestfire.Signal.Requests.Laws.{settle_waiting, collect_done, put_same, take_sent_quiet}
use forestfire.Signal.Inbox.{
  decode_blob, enqueue_blob_messages, put_message, params_blob, result_blob, massaged, Inbox,
  put_if_true, without_key_error,
}

-- The message of an answer without an envelope.
abbrev answer : Fields → Fields → String → StdioMessage
answer fs rs rpc_id = record {
  blob = dict fs;
  id = str rpc_id;
  envelope = dict end;
  uuid = null;
  name = null;
  device_id = null;
  timestamp = or_value (find "timestamp" rs) null;
  attachments = list nil;
  mentions = list nil;
  full_text = str "";
  group = or_value (find "groupId" rs) null;
  quoted_text = null;
  typing = null;
  payment = null;
  quote = none;
  reaction = none;
}

parse_blob-answer :
    (fs rs : Fields) (rpc_id : String)
    → find "envelope" fs ≡ none
    → find "result" fs ≡ some (dict rs)
    → find "id" fs ≡ some (str rpc_id)
    → parse_blob (dict fs) ≡ ok (answer fs rs rpc_id)
unfolding parse_blob get_item find quote_of reaction_of
parse_blob-answer fs rs rpc_id e r i = rw (e, r, i) refl

put_message-answer :
    (fs rs : Fields) (rpc_id : String) (s : Inbox)
    → parse_blob (dict fs) ≡ ok (answer fs rs rpc_id)
    → put_message (dict fs) s ≡ (ok tt, s ++ (answer fs rs rpc_id ∷ []))
unfolding put_message
put_message-answer fs rs rpc_id s h = rw h refl

result_blob-dict :
    (fs rs : Fields) (v : Value)
    → find "result" fs ≡ some (dict rs)
    → result_blob true (dict fs) v ≡ ok (dict fs)
unfolding result_blob item massaged
result_blob-dict fs rs v r = rw (result_blob, r) refl

enqueue_blob_messages-answer :
    (fs rs : Fields) (rpc_id : String) (s : Inbox)
    → find "params" fs ≡ none
    → find "error" fs ≡ none
    → find "envelope" fs ≡ none
    → find "result" fs ≡ some (dict rs)
    → find "id" fs ≡ some (str rpc_id)
    → enqueue_blob_messages (dict fs) s ≡ put_if_true (dict fs) s
unfolding enqueue_blob_messages key_in get_item params_blob
enqueue_blob_messages-answer fs rs rpc_id s p x e r i =
    rw (p, x, r, result_blob-dict fs rs null r) refl

-- An object with an id is true.
put_if_true-answer :
    (fs : Fields) (v : Value) (s : Inbox)
    → find "id" fs ≡ some v
    → put_if_true (dict fs) s ≡ put_message (dict fs) s
unfolding find
put_if_true-answer end v s h = absurd (no_id h)
  where
    no_id : Path (Option Value) none (some v) → ⊥
    no_id e = cc
put_if_true-answer (field k w fs) v s h = refl

decode_blob-enqueue :
    (fs : Fields) (s : Inbox)
    → find "error" fs ≡ none
    → decode_blob (dict fs) s ≡ without_key_error (enqueue_blob_messages (dict fs) s)
unfolding decode_blob key_in
decode_blob-enqueue fs s x = rw x refl

decode_blob-answer :
    (fs rs : Fields) (rpc_id : String) (s : Inbox)
    → find "params" fs ≡ none
    → find "error" fs ≡ none
    → find "envelope" fs ≡ none
    → find "result" fs ≡ some (dict rs)
    → find "id" fs ≡ some (str rpc_id)
    → decode_blob (dict fs) s ≡ (ok tt, s ++ (answer fs rs rpc_id ∷ []))
decode_blob-answer fs rs rpc_id s p x e r i =
    decode_blob-enqueue fs s x
    ∙ ap without_key_error (
        enqueue_blob_messages-answer fs rs rpc_id s p x e r i
        ∙ put_if_true-answer fs (str rpc_id) s i
        ∙ put_message-answer fs rs rpc_id s (parse_blob-answer fs rs rpc_id e r i))

error-message_of : (lib : TextLib) (m : StdioMessage) → (message_of lib m).error ≡ none
unfolding message_of unparsed parse_text
error-message_of lib m = elim (Bool-cases (truthy (unparsed m).text)) [
  | inl t ↦ rw t refl
  | inr t ↦ rw t refl
]

never_limited : (lib : TextLib) (m : StdioMessage) → is_rate_limited (message_of lib m) ≡ false
never_limited lib m = rw (error-message_of lib m) refl

id-message_of-answer :
    (lib : TextLib) (fs rs : Fields) (rpc_id : String)
    → (message_of lib (answer fs rs rpc_id)).id ≡ rpc_id
unfolding message_of unparsed
id-message_of-answer lib fs rs rpc_id = refl

settle_answer :
    (message : Message) (rpc_id : String) (r : Requests)
    → message.id ≡ rpc_id
    → truthy rpc_id ≡ true
    → get r.pending_requests rpc_id ≡ some waiting
    → is_rate_limited message ≡ false
    → settle message r
      ≡ (ok none, record r { pending_requests = put r.pending_requests rpc_id (done message) })
settle_answer message rpc_id r h t w quiet =
    settle_waiting message r (ap truthy h ∙ t) (ap (get r.pending_requests) h ∙ w) quiet
    ∙ ap (λ k. (ok none, record r { pending_requests = put r.pending_requests k (done message) })) h

-- A JSON object that has an id and an object as its result, and neither parameters nor an error nor
-- an envelope, puts one message into the inbox, and that message settles the request under the id:
-- the call that waits for it is given the message.
pub decode_blob-collect :
    (lib : TextLib) (fs rs : Fields) (rpc_id : String) (s : Inbox) (r : Requests)
    → find "params" fs ≡ none
    → find "error" fs ≡ none
    → find "envelope" fs ≡ none
    → find "result" fs ≡ some (dict rs)
    → find "id" fs ≡ some (str rpc_id)
    → truthy rpc_id ≡ true
    → get r.pending_requests rpc_id ≡ some waiting
    → (m : StdioMessage) × (r' : Requests) × (decode_blob (dict fs) s ≡ (ok tt, s ++ (m ∷ [])))
      × (collect rpc_id (settle (message_of lib m) r).1 ≡ some (ok (message_of lib m), r'))
decode_blob-collect lib fs rs rpc_id s r p x e res i t w =
    let m = answer fs rs rpc_id in
    let message = message_of lib m in
    let settled = record r { pending_requests = put r.pending_requests rpc_id (done message) } in
    let e1 : settle message r ≡ (ok none, settled) =
      settle_answer message rpc_id r (id-message_of-answer lib fs rs rpc_id) t w
        (never_limited lib m) in
    (
      m,
      record settled { pending_requests = remove settled.pending_requests rpc_id },
      decode_blob-answer fs rs rpc_id s p x e res i,
      ap (λ (q : Result (Option Command) × Requests). collect rpc_id q.1) e1
          ∙ collect_done rpc_id settled message (put_same r.pending_requests rpc_id (done message)),
    )

abbrev found : Message → Requests → Option Future
found m r = if truthy m.id then get r.pending_requests m.id else none

settle_quiet :
    (m : Message) (r : Requests) (c : Command)
    → is_rate_limited m ≡ false
    → (o : Option Future) → found m r ≡ o
    → (settle m r).0 ≢ ok (some c)
unfolding settle
settle_quiet m r c quiet none e h =
    let h' : Path (Result (Option Command)) (ok none) (ok (some c)) = rw (settle, e) at h in cc
settle_quiet m r c quiet (some (done old)) e h =
    let h' : Path (Result (Option Command)) (err invalid_state) (ok (some c)) =
      rw (settle, e) at h in
    cc
settle_quiet m r c quiet (some waiting) e h =
    let h' : Path (Result (Option Command)) (ok none) (ok (some c)) =
      rw
        (
          settle,
          e,
          take_sent_quiet m (record r { pending_requests = put r.pending_requests m.id (done m) })
              quiet,
        )
        at h in
    cc

-- Whatever signal-cli answers, `handle_messages` never sends a command again.
pub settle_never_retries :
    (lib : TextLib) (m : StdioMessage) (r : Requests) (c : Command)
    → (settle (message_of lib m) r).0 ≢ ok (some c)
settle_never_retries lib m r c =
    settle_quiet (message_of lib m) r c (never_limited lib m) (found (message_of lib m) r) refl
