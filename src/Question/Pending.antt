-- ===== src/Question/Pending.antt =====
-- forest/core.py: `ask_freeform_question` and `handle_message` of `QuestionBot`. A future is an
-- object of its own, by its number: the asker holds it, and `pending_answers` may name another one.
pub mod Laws
use forestfire.Prelude.{
  ◌∙◌, ℕ, suc, String, Bool, true, false, not, ◌&&◌, Option, none, some, ◌==◌, string_eq, nat_eq,
  HasEq, if◌then◌else◌, truthy, ◌≡◌, refl, arith, eq_iff, ◌↔◌, ap,
}
use forestfire.Prelude.Exec.{Result, ok, err, key_error, invalid_state}
use forestfire.Prelude.Dict.{Dict, get, put, remove, get-put, get-remove, ==_refl}
use forestfire.Message.{Message}
use forestfire.Signal.Requests.{Future, waiting, done}
use forestfire.Bot.{Reply}

-- A user and a group.
abbrev pub Place : Type 0
Place = String × String

abbrev same_place : Place → Place → Bool
same_place p q = p.0 == q.0 && p.1 == q.1

pub same_place_iff : (p q : Place) → (same_place p q ≡ true) ↔ (p ≡ q)
same_place_iff (a, b) (c, d) = (
  λ h.
      let first : a ≡ c = (eq_iff a c).0 (ground arith) in
      let second : b ≡ d = (eq_iff b d).0 (ground arith) in cc,
  λ e.
      let first : a ≡ c = cc in
      let second : b ≡ d = cc in rw (first, second) (ground (arith, ==_refl c, ==_refl d)),
)

instance abbrev pub place_eq : HasEq Place
place_eq = record { eqb = same_place; eqb_iff = same_place_iff }

pub record Questions : Type 0 where
  pub pending_answers : Dict Place ℕ
  pub futures : Dict ℕ Future
  pub next_future : ℕ
  pub requires_first_device : Dict String Bool

-- `ask_freeform_question`, up to its question: with the future that it waits for
unfoldable pub ask : String → String → Bool → Questions → ℕ × Questions
ask recipient group require_first_device s = (
  s.next_future,
  record s {
    pending_answers = put s.pending_answers (recipient, group) s.next_future;
    futures = put s.futures s.next_future waiting;
    next_future = suc s.next_future;
    requires_first_device =
        if require_first_device
        then put s.requires_first_device recipient true
        else s.requires_first_device;
  },
)

-- `ask_freeform_question`, from the answer on: `none` while it has to wait
unfoldable pub resume : String → String → ℕ → Questions → Option (Result String × Questions)
resume recipient group future s = elim (get s.futures future) [
  | some (done answer) ↦ elim (get s.pending_answers (recipient, group)) [
    | none ↦ some (err key_error, s)
    | some _ ↦ some (
      ok answer.full_text,
      record s { pending_answers = remove s.pending_answers (recipient, group) },
    )
  ]
  | _ ↦ none
]

-- `is_first_device`
unfoldable pub is_first_device : Message → Bool
is_first_device msg = msg.device_id == 1

abbrev is_required : Option Bool → Bool
is_required (some true) = true
is_required _ = false

-- `set_result`
unfoldable pub set_result : ℕ → Message → Questions → Result Reply × Questions
set_result future msg s = elim (get s.futures future) [
  | some (done old) ↦ (err invalid_state, s)
  | _ ↦ (ok none, record s { futures = put s.futures future (done msg) })
]

-- `handle_message`, before that of the class above, which is the parameter
unfoldable pub handle_message :
    (Message → Questions → Result Reply × Questions)
    → Message
    → Questions
    → Result Reply × Questions
unfolding is_first_device set_result
handle_message super msg s = elim (get s.pending_answers (msg.uuid, msg.group)) [
  | none ↦ super msg s
  | some future ↦
      if truthy msg.full_text
      then if is_required (get s.requires_first_device msg.uuid) && not (is_first_device msg)
        then (ok (some "Please answer from your phone or primary device!"), s)
        else set_result future msg (record s {
          requires_first_device =
              if truthy msg.uuid
              then remove s.requires_first_device msg.uuid
              else s.requires_first_device;
        })
      else super msg s
]
