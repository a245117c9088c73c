-- ===== src/Pay.antt =====
-- forest/payments_monitor.py and the payments in forest/core.py. What a bot asks of the outside
-- is an event, and what comes back is a function of all events so far: the full-service wallet and
-- signal-cli may answer anything, and change their answers.
pub mod Fsr
pub mod Mobster
pub mod Payment
pub mod Submissions
use forestfire.Prelude.{
  ℕ, ◌+◌, String, Bool, true, false, not, ◌&&◌, Option, none, some, List, [], ◌∷◌, if◌then◌else◌,
}
use forestfire.Prelude.Int.{ℤ}
use forestfire.Prelude.Exec.{Exc, Result, ok, err, Exec}
use forestfire.Value.{Value, Fields, str, null}

pub data Event : Type 0 where
  -- a request to full-service: its method and its parameters, if it has any
  full_service : String → Option Fields → Event
  -- `signal_rpc_request`
  signal_rpc : String → Fields → Event
  -- `signal_rpc_request` in a task of its own
  signal_task : String → Fields → Event
  -- what that task came to
  await_task : Event
  -- a message to an admin
  admin : String → Event
  -- a reply to the sender of a message
  respond : String → Event
  -- `asyncio.sleep`, in seconds
  sleep : ℕ → Event

-- The state of the wallet's client, and all events so far, the last one first.
pub record World : Type 0 where
  pub account_id : Option Value
  pub events : List Event

-- The outside: what comes back for the last event, and the functions of Python that are called.
pub record Outside : Type 0 where
  pub answer : List Event → Result Value
  pub secret : String → String
  -- `int(v)`, `str(v)`
  pub int_of : Value → Result ℤ
  pub str_of : Value → String
  -- `"invalid type: null" in json.dumps(v)`
  pub has_null_error : Value → Bool

-- The programs on this state. They are put together by shut functions, so that a proof about a
-- program follows its text.
abbrev pub Calls {ℓ} : Type ℓ → Type ℓ
Calls A = World → Result A × World

module _ {A : Type 0} where
  unfoldable pub pure : A → Calls A
  pure a s = (ok a, s)

  unfoldable pub raise : Exc → Calls A
  raise e s = (err e, s)

  unfoldable pub lift : Result A → Calls A
  lift r s = (r, s)

unfoldable pub modify : (World → World) → Calls (Unit {0})
modify f s = (ok tt, f s)

infixl 5 ◌>>=◌ ◌>>◌
unfoldable pub ◌>>=◌ : {A B : Type 0} → Calls A → (A → Calls B) → Calls B
◌>>=◌ m f s = let (r, s') = m s in elim r [ ok a ↦ f a s' | err e ↦ (err e, s') ]

abbrev pub ◌>>◌ : {A B : Type 0} → Calls A → Calls B → Calls B
m >> k = m >>= λ _. k

-- An event whose answer is awaited, and one without an answer.
unfoldable pub ask : Outside → Event → Calls Value
ask out e s = let s' = record s { events = e ∷ s.events } in (out.answer s'.events, s')

unfoldable pub tell : Event → Calls (Unit {0})
tell e s = (ok tt, record s { events = e ∷ s.events })
