-- ===== src/Web/Laws.antt =====
-- The rendezvous of `do_pong` and `pong_handler`, and a message that a webhook sends.
use forestfire.Prelude.{
  ℕ, String, Bool, true, false, Option, none, some, ◌≡◌, refl, ap, ◌∙◌, truthy, if◌then◌else◌,
  string_eq, ◌&&◌, arith,
}
use forestfire.Prelude.Exec.{Result, ok, err, key_error}
use forestfire.Prelude.Dict.{get, put, remove, get-put, get-remove, ==_refl}
use forestfire.Message.{Message}
use forestfire.Signal.Requests.{
  Requests, text, settle, send_message, check_valid_recipient, collect, is_rate_limited,
}
use forestfire.Signal.Requests.Laws.{send_message-collect, send_message_invalid}
use forestfire.Signal.Outgoing.{plain}
use forestfire.Web.{
  Session, response, sent, do_pong, pong_handler, pop_pong, send_webhook, finish_webhook,
  send_message_handler, answered_with, wait_if_sent, with_requests,
}

-- What a message stashes, with its key first: its second word under the first, or else its text
-- under itself.
abbrev pub stash_of : Message → Option (String × String)
stash_of message =
    if truthy message.arg1 && truthy message.arg2
    then some (message.arg1, message.arg2)
    else if truthy message.text
    then some (message.text, message.text)
    else none

stashed :
    (message : Message) (s : Session) {key pong : String}
    → stash_of message ≡ some (key, pong)
    → ((do_pong message s).1.pongs ≡ put s.pongs key pong) × (truthy pong ≡ true)
unfolding do_pong
stashed message s h = (ground arith, ground arith)

served :
    (key pong : String) (s : Session)
    → get s.pongs key ≡ some pong
    → truthy pong ≡ true
    → pong_handler key (some s)
      ≡ (ok (response 200 pong), some (record s { pongs = remove s.pongs key }))
unfolding pong_handler pop_pong
served key pong s h t = rw (h, t) refl

gone :
    (key : String) (s : Session)
    → get s.pongs key ≡ none
    → (pong_handler key (some s)).0 ≡ ok (response 404 "Sorry, can't find that key.")
unfolding pong_handler pop_pong
gone key s h = rw h refl

-- What a message has `do_pong` stash, its second word under its first, or else its text under
-- itself, is served once: the next request for the key is answered with it, and the one after that
-- with a 404.
pub do_pong-pong_handler :
    (message : Message) (s : Session) (key pong : String)
    → stash_of message ≡ some (key, pong)
    → (s' : Session) × (pong_handler key (some (do_pong message s).1)
        ≡ (ok (response 200 pong), some s'))
      × ((pong_handler key (some s')).0 ≡ ok (response 404 "Sorry, can't find that key."))
do_pong-pong_handler message s key pong h =
    let s1 = (do_pong message s).1 in
    let (put_there, full) = stashed message s h in
    let there : get s1.pongs key ≡ some pong =
      ap (λ d. get d key) put_there
      ∙ get-put s.pongs key key pong
      ∙ ap (λ b. if b then some pong else get s.pongs key) (==_refl key) in
    let missing : get (remove s1.pongs key) key ≡ none =
      get-remove s1.pongs key key ∙ ap (λ b. if b then none else get s1.pongs key) (==_refl key) in
    let left = record s1 { pongs = remove s1.pongs key } in
    (left, served key pong s1 there full, gone key left missing)

collect_missing :
    (s : Requests) → get s.pending_requests "" ≡ none → collect "" s ≡ some (err key_error, s)
unfolding collect
collect_missing s h = rw (collect, h) refl

no_future :
    (bot : Session)
    → get bot.requests.pending_requests "" ≡ none
    → finish_webhook "" bot ≡ some (err key_error, some bot)
unfolding finish_webhook
no_future bot h = ap (answered_with bot) (collect_missing bot.requests h)

module _ (uid : ℕ → String) (canonical_uuid : String → Option String) where
  -- A webhook whose recipient is no uuid in its usual form sends nothing and raises a KeyError, if
  -- nothing waits under the empty id.
  pub send_message_handler_invalid :
      (account msg_data : String) (endsession : Bool) (bot : Session)
      → truthy account ≡ true
      → check_valid_recipient uid canonical_uuid account ≡ false
      → get bot.requests.pending_requests "" ≡ none
      → send_message_handler uid canonical_uuid account msg_data endsession (some bot)
        ≡ some (err key_error, some bot)
  unfolding send_message_handler send_webhook
  send_message_handler_invalid account msg_data endsession bot t invalid h =
      ap (λ r. wait_if_sent (with_requests bot r))
        (send_message_invalid uid canonical_uuid account msg_data
          (record plain { endsession = endsession }) bot.requests t invalid)
      ∙ no_future bot h

  -- A webhook that sends a message waits for signal-cli's answer, and after an answer that is no rate
  -- limit responds with its time.
  pub send_webhook-finish_webhook :
      (account msg_data : String) (endsession : Bool) (bot bot' : Session) (answer : Message)
      → send_webhook uid canonical_uuid account msg_data endsession bot ≡ (ok answer.id, bot')
      → truthy answer.id ≡ true
      → is_rate_limited answer ≡ false
      → (finish_webhook answer.id bot' ≡ none)
        × (s' : Requests) × (finish_webhook answer.id
              (record bot' { requests = (settle answer bot'.requests).1 })
            ≡ some (ok (sent answer.timestamp), some (record bot' { requests = s' })))
  unfolding send_webhook finish_webhook
  send_webhook-finish_webhook account msg_data endsession bot bot' answer h t quiet =
      let e : send_message uid canonical_uuid account (text msg_data) ""
            (record plain { endsession = endsession }) bot.requests
          ≡ (ok answer.id, bot'.requests) =
        ap (λ (r : Result String × Session). (r.0, r.1.requests)) h in
      let answered =
        send_message-collect uid canonical_uuid account msg_data ""
          (record plain { endsession = endsession }) bot.requests bot'.requests answer e t quiet in
      let (waiting, _, s', collected, _) = answered in
      let settled = record bot' { requests = (settle answer bot'.requests).1 } in
      (ap (answered_with bot') waiting, s', ap (answered_with settled) collected)
