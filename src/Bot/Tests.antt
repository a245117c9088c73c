-- ===== src/Bot/Tests.antt =====
-- The theorems on the bot at a bot with three commands, one of them hidden.
use forestfire.Prelude.{
  inl, ◌||◌, none, false, arith, ◌+◌, length, if◌then◌else◌, some, String, [], ◌∷◌, ◌≡◌, refl, ◌==◌,
  string_eq, ℕ, ◌<◌,
}
use forestfire.Prelude.Exec.{Result, ok}
use forestfire.Message.{Message}
use forestfire.Message.Tests.{lib, blank}
use forestfire.Distance.{Fraction}
use forestfire.Bot.{Config, is_admin, Reply, match_command, valid_commands, reparse}
use forestfire.Bot.Dispatch
use forestfire.Bot.Help.{Docs, do_help, do_help_visible}
use forestfire.Bot.Replies.{Replies, send_response}
use forestfire.Bot.Replies.Laws.{Replied, send_response-Outcome}
use forestfire.Signal.Requests.{Response}
use forestfire.Bot.Dispatch.{Reachable}

abbrev secret : String → String
secret name = if name == "ENABLE_MAGIC" then "1" else ""

abbrev bot : Config
bot = record {
  secret = secret;
  bot_uuid = "bot";
  commands = "eval" ∷ "help" ∷ "ping" ∷ [];
  hidden = λ name. name == "eval";
  threshold = record { num = 3; den = 10 };
}

-- Counts the commands that ran.
abbrev run : String → Message → ℕ → Result Reply × ℕ
run name msg n = (ok (some name), 1 + n)

abbrev near : Message
near = record blank { uuid = "someone"; arg0 = "pinh"; full_text = "pinh" }

abbrev chat : Message
chat = record blank {
  uuid = "someone";
  group = "friends";
  arg0 = "good";
  full_text = "good day";
  text = "day";
}

abbrev count_up : Message → ℕ → Reply × ℕ
count_up msg n = (some "done", 1 + n)

near_ping : (match_command lib bot near).0 ≡ ok "ping"
unfolding match_command forestfire.Distance.match is_admin
near_ping = refl

match_command_valid_example : Reachable bot (reparse lib bot near) "ping"
match_command_valid_example = Dispatch.match_command_valid lib bot near "ping" near_ping refl

two_visible : 1 < length (valid_commands bot near)
unfolding is_admin
two_visible = omega arith

-- The same bot with another hidden command.
abbrev more : Config
more = record bot {
  commands = "eval" ∷ "help" ∷ "ping" ∷ "secret" ∷ [];
  hidden = λ name. name == "eval" || name == "secret";
}

abbrev docs : Docs
docs = record { doc = λ name. "what it does"; group_doc = λ name. "" }

abbrev ask_help : Message
ask_help = record blank { uuid = "someone"; arg0 = "help"; arg1 = "secret"; text = "secret" }

do_help_visible_example :
    do_help lib (λ s. s) more docs ask_help ≡ do_help lib (λ s. s) bot docs ask_help
do_help_visible_example =
    do_help_visible lib (λ s. s) more bot docs docs ask_help refl (λ name h. refl)

abbrev quiet : Replies
quiet = record {
  requests = record {
    pending_requests = [];
    pending_messages_sent = [];
    outbox = [];
    backoff = false;
    next_uid = 0;
    responding = [];
  };
  notices = [];
  latency = [];
}

-- A reply of two texts in a group, whose sender is no uuid.
send_response-Outcome_example :
    Replied
      (λ n. "1")
      (λ s. none)
      (λ m e. "error")
      chat
      ("hello" ∷ ("again" ∷ []))
      quiet
      (send_response
        (λ n. "1")
        (λ s. none)
        (λ m e. "error")
        chat
        (ok (some (Response.texts ("hello" ∷ ("again" ∷ [])))))
        quiet).1
send_response-Outcome_example =
    send_response-Outcome (λ n. "1") (λ s. none) (λ m e. "error") chat
      (ok (some (Response.texts ("hello" ∷ ("again" ∷ []))))) quiet (inl refl)
