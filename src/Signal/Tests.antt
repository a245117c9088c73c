-- ===== src/Signal/Tests.antt =====
-- The theorems on signal-cli's process and its allowance at concrete values.
use forestfire.Prelude.{ℕ, ◌+◌, ◌*◌, ◌≤◌, suc, true, false, List, [], ◌∷◌, ◌≡◌, refl, some, arith}
use forestfire.Prelude.{◌==◌, string_eq, nat_eq, if◌then◌else◌, String, Option, none}
use forestfire.Prelude.Exec.{ok}
use forestfire.Prelude.Dict.{get}
use forestfire.Value.{Fields}
use forestfire.Message.{Message}
use forestfire.Message.Tests.{blank}
use forestfire.Signal.Requests.{
  Command, Requests, Response, Options, submit, send_message, settle, collect, params_of,
}
use forestfire.Signal.Requests.Laws
use forestfire.Signal.Requests.Retry
use forestfire.Signal.Requests.Steps.{empty}
use forestfire.Prelude.Int.{pos, ◌+ℤ◌, ◌-ℤ◌}
use forestfire.Signal.Limit.{Limiter, take_allowance, looks}
use forestfire.Signal.Limit.Laws.{Written, written_bound, take_allowance_returns}
use forestfire.Signal.Restart
use forestfire.Signal.Restart.{Run, start_process, is_gave_up, has_streak}

-- A look at the clock each second, and the allowance of the class.
abbrev clock : ℕ → ℕ
clock k = 5000 + 1000 * k

abbrev fresh : Limiter
fresh = record { messages_until_rate_limit = pos 1000000; last_update = 0 }

-- The clock has been set back by 50 seconds.
abbrev spent : Limiter
spent = record { messages_until_rate_limit = pos 0; last_update = 55000 }

take_allowance_returns_example :
    (k' : ℕ) × (s' : Limiter) × (take_allowance (looks (clock 0) spent) clock 0 spent
      ≡ some (k', s'))
    × (k' ≤ 0 + looks (clock 0) spent)
take_allowance_returns_example = take_allowance_returns clock 0 spent (λ k. omega arith)

abbrev once : Limiter
once = record { messages_until_rate_limit = pos 59000; last_update = 5000 }

abbrev twice : Limiter
twice = record { messages_until_rate_limit = pos 59000; last_update = 6000 }

take_first : take_allowance 1 clock 0 fresh ≡ some (1, once)
unfolding take_allowance forestfire.Prelude.Int.◌+ℤ◌ forestfire.Prelude.Int.◌-ℤ◌
take_first = refl

take_second : take_allowance 1 clock 1 once ≡ some (2, twice)
unfolding take_allowance forestfire.Prelude.Int.◌+ℤ◌ forestfire.Prelude.Int.◌-ℤ◌
take_second = refl

abbrev after_53_looks : Option (ℕ × Limiter)
after_53_looks = some (53, record { messages_until_rate_limit = pos 1000; last_update = 57000 })

take_spent : take_allowance 53 clock 0 spent ≡ after_53_looks
unfolding take_allowance ◌+ℤ◌ ◌-ℤ◌
take_spent = refl

written_bound_example : 2 * 1000 + clock 0 ≤ 60000 + clock 2
written_bound_example =
    written_bound clock (λ k. omega arith) fresh 0 2 twice 2
      (Written.command 1 (Written.command 1 Written.nothing take_first) take_second)

abbrev crash : Run
crash = record { runtime = 2; exiting = false }

start_process-gives_up_example :
    is_gave_up (start_process (crash ∷ crash ∷ crash ∷ crash ∷ crash ∷ []) 0).1
    ≡ has_streak (crash ∷ crash ∷ crash ∷ crash ∷ crash ∷ [])
start_process-gives_up_example =
    Restart.start_process-gives_up (crash ∷ crash ∷ crash ∷ crash ∷ crash ∷ []) refl

crashes_give_up :
    (start_process (crash ∷ crash ∷ crash ∷ crash ∷ crash ∷ []) 0).1 ≡ Restart.End.gave_up 5
unfolding start_process
crashes_give_up = refl

abbrev uid : ℕ → String
uid n = if n == 0 then "a" else "b"

abbrev canonical_uuid : String → Option String
canonical_uuid s = if s == "alice" then some "alice" else none

abbrev plain : Options
plain = record { endsession = false; attachments = []; content = Fields.end; other_params = [] }

abbrev idle : Requests
idle = empty.0

abbrev hello : Command
hello = record { id = "send-a"; method = "send"; params = params_of "alice" "hello" "" plain }

abbrev answer : Message
answer = record blank { id = "send-a" }

abbrev limited : Message
limited = record answer { error = some "HTTP status: 413" }

send_hello :
    send_message uid canonical_uuid "alice" (Response.text "hello") "" plain idle
    ≡ (ok "send-a", submit hello idle)
unfolding send_message
send_hello = refl

send_message-collect_example :
    (collect "send-a" (submit hello idle) ≡ none)
    × ((settle answer (submit hello idle)).0 ≡ ok none)
    × (s'' : Requests) × (collect "send-a" (settle answer (submit hello idle)).1
        ≡ some (ok answer, s''))
    × (get s''.pending_requests "send-a" ≡ none)
send_message-collect_example =
    Laws.send_message-collect uid canonical_uuid "alice" "hello" "" plain idle (submit hello idle)
      answer send_hello refl refl

abbrev after_limit : Requests
after_limit = (settle limited (submit hello idle)).1
