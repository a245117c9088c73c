-- ===== src/Web.antt =====
-- forest/core.py: the handlers of the web application, and the commands of `ExtrasBot` that they
-- share their state with. `session` is the bot under `app["bot"]`, if there is one.
pub mod Laws
pub mod Tests
use forestfire.Prelude.{
  nat_eq, ◌==◌, string_eq, ℕ, suc, ◌+◌, ◌/◌, ◌%◌, String, Bool, true, false, not, ◌&&◌, Option,
  none, some, List, [], ◌∷◌, ◌++◌, if◌then◌else◌, truthy, ◌&◌, codes, length, decimal, join, map,
}
use forestfire.Prelude.Exec.{Result, ok, err, key_error, attribute_error}
use forestfire.Prelude.Dict.{Dict, get, put, remove}
use forestfire.Message.{Message}
use forestfire.Signal.Requests.{Requests, Response, text, Options, send_message, collect}
use forestfire.Signal.Outgoing
use forestfire.Signal.Outgoing.{plain}

-- The child process: not spawned, or with its return code as a text once it has ended.
pub data Process : Type 0 where
  not_started running : Process
  ended : String → Process

-- The bot's state that the handlers use.
pub record Session : Type 0 where
  pub pongs : Dict String String
  pub requests : Requests
  pub proc : Process
  -- how many tasks run `start_process`
  pub restart_tasks : ℕ
  -- `signal_roundtrip_latency`: time, command and duration, as texts
  pub latency : List (String × (String × String))

pub data WebResponse : Type 0 where
  response : ℕ → String → WebResponse
  -- the response in JSON of a message that was sent
  sent : ℕ → WebResponse
  found : String → WebResponse

-- A handler returns a response or raises.
abbrev pub Handled : Type 0
Handled = Result WebResponse × Option Session

unfoldable pub no_get : WebResponse
no_get = found "https://signal.org/"

abbrev or_empty : Option String → String
or_empty none = ""
or_empty (some s) = s

-- `session.pongs.pop(pong, "")` and what follows
unfoldable pub pop_pong : String → Session → Handled
pop_pong key session =
    let pong = or_empty (get session.pongs key) in
    let session' = record session { pongs = remove session.pongs key } in
    if not (truthy pong)
    then (ok (response 404 "Sorry, can't find that key."), some session')
    else (ok (response 200 pong), some session')

unfoldable pub pong_handler : String → Option Session → Handled
pong_handler key none = (ok (response 504 "Sorry, no live workers."), none)
pong_handler key (some session) = pop_pong key session

-- `do_ping`
unfoldable pub do_ping : Message → String
do_ping message = if truthy message.text then "/pong " & message.text else "/pong"

-- `do_pong`
unfoldable pub do_pong : Message → Session → String × Session
unfolding decimal
do_pong message s =
    if truthy message.arg1 && truthy message.arg2
    then (
      "OK, stashing " & decimal (length (codes message.arg2)) & " at " & message.arg1,
      record s { pongs = put s.pongs message.arg1 message.arg2 },
    )
    else if truthy message.text
    then (
      "OK, stashing " & message.text,
      record s { pongs = put s.pongs message.text message.text },
    )
    else ("OK", s)

abbrev unit_if : ℕ → String → String
unit_if n name = if n == 0 then "" else decimal n & name

-- `do_uptime`, of so many seconds
unfoldable pub do_uptime : ℕ → String
do_uptime seconds =
    let tot_mins = seconds / 60 in
    "Uptime: "
    & unit_if (tot_mins / 60) "h"
    & unit_if (tot_mins % 60) "m"
    & decimal (seconds % 60)
    & "s"

-- `requires_webhooks`
unfoldable pub requires_webhooks :
    (String → String) → (Option Session → Handled) → Option Session → Handled
requires_webhooks secret handler session =
    if not (truthy (secret "ENABLE_WEBHOOKS"))
    then (ok (response 404 "webhooks are disabled; set ENABLE_WEBHOOKS=1 to enable them"), session)
    else handler session

-- The line of `metrics` for one message.
abbrev metric : String × (String × String) → String
metric (time, (cmd, delta)) = time & ", " & cmd & ", " & delta

unfoldable pub metrics : Option Session → Result WebResponse
metrics none = err key_error
metrics (some bot) =
    ok (response 200 ("start_time, command, delta\n" & join "\n" (map metric bot.latency)))

unfoldable pub ready_check : Option Session → WebResponse
ready_check none = response 503 "no bot"
ready_check (some bot) = elim bot.proc [
  | not_started ↦ response 503 "signal-cli not started"
  | _ ↦ response 200 "ready"
]

unfoldable pub health_check : Option Session → WebResponse
health_check none = response 503 "no bot"
health_check (some bot) = elim bot.proc [
  | not_started ↦ response 503 "signal-cli not running (returncode: None)"
  | ended code ↦ response 503 ("signal-cli not running (returncode: " & code & ")")
  | running ↦ response 200 "ok"
]

-- The body of `restart`: a bot has no attribute `handle_task`.
unfoldable pub restart : Option Session → Handled
restart none = (err key_error, none)
restart (some bot) =
    (err attribute_error, some (record bot { restart_tasks = suc bot.restart_tasks }))

-- The wait for the answer, when it looks at the future: `none` while it has to wait.
abbrev answered_with : Session → Option (Result Message × Requests) → Option Handled
answered_with bot none = none
answered_with bot (some (err e, s)) = some (err e, some (record bot { requests = s }))
answered_with bot (some (ok resp, s)) =
    some (ok (sent resp.timestamp), some (record bot { requests = s }))

unfoldable pub finish_webhook : String → Session → Option Handled
finish_webhook rpc_id bot = answered_with bot (collect rpc_id bot.requests)

abbrev pub wait_if_sent : Result String × Session → Option Handled
wait_if_sent (err e, bot) = some (err e, some bot)
wait_if_sent (ok rpc_id, bot) = finish_webhook rpc_id bot

-- What the body of `send_message_handler` comes to before it waits: a response, an exception, or
-- the id of the request.
abbrev pub with_requests : Session → Result String × Requests → Result String × Session
with_requests bot (r, s) = (r, record bot { requests = s })

module _ (uid : ℕ → String) (canonical_uuid : String → Option String) where
  unfoldable pub send_webhook : String → String → Bool → Session → Result String × Session
  send_webhook account msg_data endsession bot = with_requests bot (
      send_message uid canonical_uuid account (text msg_data) ""
        (record plain { endsession = endsession }) bot.requests)

  -- The body of `send_message_handler`, as far as it comes without a new answer from signal-cli.
  unfoldable pub send_message_handler : String → String → Bool → Option Session → Option Handled
  unfolding send_webhook
  send_message_handler account msg_data endsession none =
      some (ok (response 504 "Sorry, no live workers."), none)
  send_message_handler account msg_data endsession (some bot) =
      wait_if_sent (send_webhook account msg_data endsession bot)

  abbrev admin_done : Session → Result String × Requests → Handled
  admin_done bot (ok _, s) = (ok (response 200 "OK"), some (record bot { requests = s }))
  admin_done bot (err e, s) = (err e, some (record bot { requests = s }))

  -- The body of `admin_handler`, of an argument and a body without white space around them.
  unfoldable pub admin_handler : (String → String) → String → String → Option Session → Handled
  admin_handler secret arg body none = (ok (response 504 "Sorry, no live workers."), none)
  admin_handler secret arg body (some bot) =
      let msg =
        if truthy arg && truthy body then arg & "\n" & body else if truthy arg then arg else body in
      admin_done bot (Outgoing.admin uid canonical_uuid secret (text msg) plain bot.requests)
