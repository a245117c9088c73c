-- ===== src/Web/Tests.antt =====
-- The handlers at a bot that has nothing stashed and nothing pending.
use forestfire.Prelude.{
  string_eq, ℕ, String, true, false, Option, none, some, [], ◌∷◌, ◌≡◌, refl, ◌&◌,
}
use forestfire.Prelude.Exec.{ok}
use forestfire.Prelude.Dict.{get}
use forestfire.Message.{Message}
use forestfire.Message.Tests.{blank}
use forestfire.Signal.Requests.{Requests, settle}
use forestfire.Web.{
  Session, running, response, sent, do_pong, pong_handler, send_webhook, finish_webhook, do_uptime,
}
use forestfire.Web.Laws

abbrev uid : ℕ → String
uid n = "0"

abbrev canonical_uuid : String → Option String
canonical_uuid s = some "alice"

abbrev idle : Session
idle = record {
  pongs = [];
  requests = record {
    pending_requests = [];
    pending_messages_sent = [];
    outbox = [];
    backoff = false;
    next_uid = 0;
    responding = [];
  };
  proc = running;
  restart_tasks = 1;
  latency = [];
}

abbrev stash : Message
stash = record blank { arg1 = "key"; arg2 = "pong" }

do_pong-pong_handler_example :
    (s' : Session) × (pong_handler "key" (some (do_pong stash idle).1)
      ≡ (ok (response 200 "pong"), some s'))
    × ((pong_handler "key" (some s')).0 ≡ ok (response 404 "Sorry, can't find that key."))
do_pong-pong_handler_example = Laws.do_pong-pong_handler stash idle "key" "pong" refl

abbrev stash_text : Message
stash_text = record blank { text = "hello" }

text_is_stashed : get (do_pong stash_text idle).1.pongs "hello" ≡ some "hello"
unfolding do_pong get forestfire.Prelude.Dict.put
text_is_stashed = refl

stash_reply : (do_pong stash idle).0 ≡ "OK, stashing 4 at key"
unfolding do_pong
stash_reply = refl

abbrev answer : Message
answer = record blank { id = "send-0"; timestamp = 7 }

sent_hi : (send_webhook uid canonical_uuid "alice" "hi" false idle).0 ≡ ok "send-0"
unfolding send_webhook forestfire.Signal.Requests.send_message
sent_hi = refl

abbrev after : Session
after = (send_webhook uid canonical_uuid "alice" "hi" false idle).1

send_webhook-finish_webhook_example :
    (finish_webhook "send-0" after ≡ none)
    × (s' : Requests) × (finish_webhook "send-0"
          (record after { requests = (settle answer after.requests).1 })
        ≡ some (ok (sent 7), some (record after { requests = s' })))
send_webhook-finish_webhook_example =
    Laws.send_webhook-finish_webhook uid canonical_uuid "alice" "hi" false idle after answer
      (λ i. (sent_hi i, after)) refl refl

-- A day, an hour, no minute and five seconds.
one_day : do_uptime 90005 ≡ "Uptime: 25h5s"
unfolding do_uptime forestfire.Prelude.decimal
one_day = refl
