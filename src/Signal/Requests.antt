-- ===== src/Signal/Requests.antt =====
-- forest/core.py: how `Signal` sends commands and waits for their answers, and what `handle_messages`
-- does with an answer. `uid n` is what the n-th call of `get_uid` returns, and `canonical_uuid` is
-- `str(uuid.UUID(s))`, `none` where it raises `ValueError`.
pub mod Laws
pub mod Retry
pub mod Steps
use forestfire.Prelude.{
  nat_eq, ℕ, suc, String, Bool, true, false, not, ◌&&◌, ◌||◌, Option, none, some, List, [], ◌∷◌,
  ◌++◌, ◌==◌, string_eq, if◌then◌else◌, truthy, has_part, join, ◌&◌,
}
use forestfire.Prelude.Exec.{
  Result, ok, err, Exec, value_error, key_error, index_error, invalid_state,
}
use forestfire.Prelude.Dict.{Dict, get, put, remove, update}
use forestfire.Value.{Value, str, bool, list, dict, of_list, Fields, size}
use forestfire.Message.{Message}

pub record Command : Type 0 where
  pub id : String
  pub method : String
  pub params : Dict String Value

pub data Future : Type 0 where
  waiting : Future
  done : Message → Future

pub record Requests : Type 0 where
  pub pending_requests : Dict String Future
  pub pending_messages_sent : Dict String Command
  pub outbox : List Command
  pub backoff : Bool
  -- how often `get_uid` was called
  pub next_uid : ℕ
  -- the messages for which a task was started
  pub responding : List Message

-- What a command's method may answer: a text, some texts, or a table.
pub data Response : Type 0 where
  text : String → Response
  texts : List String → Response
  table : Dict String String → Response

pub record Options : Type 0 where
  pub endsession : Bool
  pub attachments : List String
  pub content : Fields
  pub other_params : Dict String Value

abbrev pub put_if : Bool → String → Value → Dict String Value → Dict String Value
put_if b key v d = if b then put d key v else d

abbrev pub str_values : List String → List Value
str_values [] = []
str_values (s ∷ ss) = str s ∷ str_values ss

-- "\n".join((f"{key}:\t{value}" for key, value in msg.items()))
abbrev pub table_lines : Dict String String → List String
table_lines [] = []
table_lines ((key, value) ∷ d) = (key & ":\t" & value) ∷ table_lines d

abbrev pub not_empty : List String → Bool
not_empty [] = false
not_empty (s ∷ ss) = true

unfoldable pub params_of : String → String → String → Options → Dict String Value
params_of recipient msg group o =
    let params = update (("message", str msg) ∷ []) o.other_params in
    let params = put_if o.endsession "end_session" (bool true) params in
    let params =
      put_if (not_empty o.attachments) "attachments" (list (of_list (str_values o.attachments)))
        params in
    let params = put_if (not (size o.content == 0)) "content" (dict o.content) params in
    let params = put_if (truthy group) "group-id" (str group) params in
    put_if (truthy recipient) "recipient" (str recipient) params

-- Puts a command into the outbox, and a future for its answer beside it.
unfoldable pub submit : Command → Requests → Requests
submit c s = record s {
  pending_messages_sent = put s.pending_messages_sent c.id c;
  pending_requests = put s.pending_requests c.id waiting;
  outbox = s.outbox ++ (c ∷ []);
  next_uid = suc s.next_uid;
}

module _ (uid : ℕ → String) (canonical_uuid : String → Option String) where
  unfoldable pub check_valid_recipient : String → Bool
  check_valid_recipient recipient = elim (canonical_uuid recipient) [
    | none ↦ false
    | some u ↦ recipient == u
  ]

  -- `send_message` of one text, after the tests on the recipient and the group
  unfoldable pub send_text : String → String → String → Options → Exec Requests String
  unfolding submit params_of check_valid_recipient
  send_text recipient msg group o s =
      if truthy recipient && not (check_valid_recipient recipient)
      then (ok "", s)
      else let rpc_id = "send-" & uid s.next_uid in
        let c : Command = record {
          id = rpc_id;
          method = "send";
          params = params_of recipient msg group o;
        } in
        (ok rpc_id, submit c s)

  -- The list of texts: the calls leave `content` behind.
  unfoldable pub send_texts : String → List String → String → Options → Exec Requests String
  unfolding send_text
  send_texts recipient [] group o s = (err index_error, s)
  send_texts recipient (msg ∷ msgs) group o s =
      let (sent, s') = send_text recipient msg group (record o { content = Fields.end }) s in
      let later = send_texts recipient msgs group o s' in
      if not_empty msgs then later else (sent, s')

  unfoldable pub send_message : String → Response → String → Options → Exec Requests String
  unfolding send_texts
  send_message recipient msg group o s =
      if truthy recipient && truthy group
      then (err value_error, s)
      else if not (truthy recipient) && not (truthy group)
      then (err value_error, s)
      else elim msg [
        | text m ↦ send_text recipient m group o s
        | texts ms ↦ send_texts recipient ms group o s
        | table d ↦ send_text recipient (join "\n" (table_lines d)) group o s
      ]

  -- `wait_for_response` with a request: what it does before it waits
  unfoldable pub send_request : Command → Requests → String × Requests
  unfolding submit
  send_request req s =
      let rpc_id = req.method & "-" & uid s.next_uid in
      (rpc_id, submit (record req { id = rpc_id }) s)

  -- `handle_messages`, of a message that was rate limited, when its pause is over: the command goes
  -- out again as it is, beside a future under a new id.
  unfoldable pub retry : Command → Requests → Requests
  retry c s =
      let rpc_id = "retry-send-" & uid s.next_uid in
      record s {
        pending_messages_sent = put s.pending_messages_sent rpc_id c;
        pending_requests = put s.pending_requests rpc_id waiting;
        outbox = s.outbox ++ (c ∷ []);
        next_uid = suc s.next_uid;
      }

-- `wait_for_response`, when it looks at the future: `none` while it has to wait.
unfoldable pub collect : String → Requests → Option (Result Message × Requests)
collect rpc_id s = elim (get s.pending_requests rpc_id) [
  | none ↦ some (err key_error, s)
  | some waiting ↦ none
  | some (done m) ↦ some (ok m, record s { pending_requests = remove s.pending_requests rpc_id })
]

abbrev pub is_rate_limited : Message → Bool
is_rate_limited m = elim m.error [
  | none ↦ false
  | some data_text ↦ has_part data_text "status: 413"
]

-- The command that has to be sent again.
unfoldable pub take_sent : Message → Requests → Option Command × Requests
unfolding has_part
take_sent m s = elim (get s.pending_messages_sent m.id) [
  | none ↦ (none, s)
  | some c ↦
      if is_rate_limited m
      then (
        some c,
        record s { pending_messages_sent = remove s.pending_messages_sent m.id; backoff = true },
      )
      else (none, s)
]

-- `handle_messages`, of one message and up to the pause, with the command to be sent again.
unfoldable pub settle : Message → Exec Requests (Option Command)
unfolding take_sent
settle m s = elim (if truthy m.id then get s.pending_requests m.id else none) [
  | none ↦ (ok none, record s { responding = s.responding ++ (m ∷ []) })
  | some (done old) ↦ (err invalid_state, s)
  | some waiting ↦
      let (again, s') =
        take_sent m (record s { pending_requests = put s.pending_requests m.id (done m) }) in
      (ok again, s')
]
