-- ===== src/Bot/Replies.antt =====
-- forest/core.py, `Bot.respond_and_collect_metrics`: what becomes of the answer of a command, or of
-- its exception, and what is noted when signal-cli has sent it.
pub mod Laws
use forestfire.Prelude.{
  ℕ, String, Bool, true, false, Option, none, some, List, [], ◌∷◌, ◌++◌, if◌then◌else◌, truthy, ◌&◌,
}
use forestfire.Prelude.Int.{ℤ, pos, ◌-ℤ◌}
use forestfire.Prelude.Exec.{
  Exc, user_error, Result, ok, err, bind, Exec, pure, gets, modify, ◌>>=◌, ◌>>◌,
}
use forestfire.Message.{Message}
use forestfire.Signal.Requests.{Requests, Response, text, collect}
use forestfire.Signal.Outgoing.{respond, admin, plain}

-- The session, the texts of the tasks that will send an exception to the admins, and
-- `signal_roundtrip_latency` in milliseconds.
pub record Replies : Type 0 where
  pub requests : Requests
  pub notices : List String
  pub latency : List (ℕ × (String × ℤ))

-- A call on the session.
abbrev pub on_requests : {A : Type 0} → Exec Requests A → Exec Replies A
on_requests m s = let (r, requests) = m s.requests in (r, record s { requests = requests })

-- `trace` is the text of a message and of the exception that was raised for it.
module _ (uid : ℕ → String) (canonical_uuid : String → Option String)
    (trace : Message → Exc → String) where
  -- the body of `try`, after the call of `handle_message`
  try_response : Message → Result (Option Response) → Exec Replies (Option String)
  unfolding respond
  try_response message (err e) s = (err e, s)
  try_response message (ok none) s = (ok none, s)
  try_response message (ok (some response)) s =
      let (r, s') = on_requests (respond uid canonical_uuid message response plain) s in
      (bind r (λ rpc_id. ok (some rpc_id)), s')

  -- the two `except` clauses
  except : Message → Result (Option String) → Exec Replies (Option String)
  unfolding respond
  except message (ok rpc_id) s = (ok rpc_id, s)
  except message (err (user_error e)) s =
      let (r, s') = on_requests (respond uid canonical_uuid message (text e) plain) s in
      (bind r (λ rpc_id. ok (some rpc_id)), s')
  except message (err e) s = (ok none, record s { notices = s.notices ++ (trace message e ∷ []) })

  -- `respond_and_collect_metrics` up to the wait, with what `handle_message` came to
  unfoldable pub send_response : Message → Result (Option Response) → Exec Replies (Option String)
  unfolding try_response except
  send_response message response s =
      let (r, s') = try_response message response s in except message r s'

  -- After the wait, where there is a request to wait for: `none` while there is no answer.
  unfoldable pub note_roundtrip : Message → String → Replies → Option (Result (Unit {0}) × Replies)
  unfolding collect
  note_roundtrip message rpc_id s = elim (collect rpc_id s.requests) [
    | none ↦ none
    | some (err e, requests) ↦ some (err e, record s { requests = requests })
    | some (ok result, requests) ↦ some (
      ok tt,
      record s {
        requests = requests;
        latency =
            s.latency
            ++ ((message.timestamp, (message.arg0, pos result.timestamp -ℤ pos message.timestamp))
                ∷ []);
      },
    )
  ]

  -- With `ADMIN_METRICS`, the admins are told; `note` is the text.
  unfoldable pub tell_metrics : (String → String) → String → Exec Replies (Unit {0})
  unfolding admin
  tell_metrics secret note s =
      if truthy (secret "ADMIN_METRICS")
      then (do on_requests (admin uid canonical_uuid secret (text note) plain); pure tt) s
      else (ok tt, s)
