-- ===== src/Question/Challenge.antt =====
-- forest/core.py: `do_challenge` and `do_setup` of `QuestionBot`, over the answers in turn.
use forestfire.Prelude.{
  ℕ, suc, ◌+◌, String, Bool, true, false, not, ◌&&◌, ◌&◌, Option, none, some, List, [], ◌∷◌,
  if◌then◌else◌, truthy, ◌==◌, nat_eq, string_eq, decimal, join,
}
use forestfire.Prelude.Int.{ℤ, pos}
use forestfire.Prelude.Exec.{Result, ok, err}
use forestfire.Prelude.Dict.{Dict, get, put, remove, keys}
use forestfire.Value.{Value, str}
use forestfire.Signal.Requests.{Requests}
use forestfire.Signal.Outgoing.{set_profile}
use forestfire.Message.{head_or}
use forestfire.Question.Loops.{Outcome, waits, answered}
use forestfire.Question.Numbers.{AnswerLib, int_verdict, noted, or_empty, whole_note}
use forestfire.Question.Reask.{Asked}

-- The challenge of one round: the number that is drawn where there is no captcha module, or the
-- picture and the answer that the module gives.
pub data Challenge : Type 0 where
  sum : ℕ → Challenge
  captcha : String → ℤ → Challenge

-- A text, and the path of what is attached to it.
abbrev pub Posted : Type 0
Posted = String × Option String

unfoldable pub challenge_text : Challenge → Posted
unfolding decimal
challenge_text (sum offset) = ("What's the sum of one and " & decimal offset & "?", none)
challenge_text (captcha challenge answer) =
    ("Please answer this arithmetic problem to prove you're (probably) not a bot!", some challenge)

abbrev answer_of : Challenge → ℤ
answer_of (sum offset) = pos (offset + 1)
answer_of (captcha challenge answer) = answer

-- `maybe_answer == answer`
abbrev is_answer : Option ℤ → ℤ → Bool
is_answer (some (pos m)) (pos n) = m == n
is_answer (some (ℤ.negsuc m)) (ℤ.negsuc n) = m == n
is_answer _ _ = false

abbrev or_zero : Option ℕ → ℕ
or_zero none = 0
or_zero (some n) = n

-- `failed_user_challenges`
abbrev pub Failed : Type 0
Failed = Dict String ℕ

abbrev pub Trial : Type 0
Trial = List Posted × (Outcome (Result String) × Failed)

abbrev after_text : Posted → Trial → Trial
after_text t (ts, rest) = (t ∷ ts, rest)

module _ {F : Type 0} (lib : AnswerLib F) (draw : ℕ → Challenge) (user : String) where
  -- The wait for a number in the `round`-th challenge, after it was asked in this form; a wrong number
  -- has the next challenge sent.
  unfoldable pub waited : ℕ → Asked → Failed → List String → Trial
  unfolding int_verdict noted challenge_text
  waited round asked failed [] = ([], (waits, failed))
  waited round asked failed (answer ∷ answers) = elim (int_verdict lib answer) [
    | some (err e) ↦ ([], (answered (err e), failed))
    | some (ok n) ↦ elim (is_answer n (answer_of (draw round))) [
      | true ↦ ([], (answered (ok "Thanks for helping protect our community!"), failed))
      | false ↦ after_text (challenge_text (draw (suc round))) (
          waited (suc round) (none, false) (put failed user (or_zero (get failed user) + 1))
            answers)
    ]
    | none ↦
        let again = noted "as a whole number" whole_note asked in
        after_text (or_empty again.0, none) (waited round again failed answers)
  ]

  unfoldable pub do_challenge : Failed → List String → Trial
  unfolding waited
  do_challenge failed answers =
      after_text (challenge_text (draw 0)) (waited 0 (none, false) failed answers)

-- The fields that `do_setup` asks for, in turn: with the answers that are kept.
unfoldable pub setup_fields :
    (String → String) → List String → List String → Dict String Value → Outcome (Dict String Value)
setup_fields lower [] answers fields = answered fields
setup_fields lower (name ∷ names) [] fields = waits
setup_fields lower (name ∷ names) (resp ∷ answers) fields =
    setup_fields lower names answers
      (if truthy resp && not (lower resp == "none") then put fields name (str resp) else fields)

abbrev value_or : Option Value → Value
value_or none = str ""
value_or (some v) = v

-- `do_setup`, of an admin, whose answers are all there; `attachments` are the paths of what came with
-- the message.
unfoldable pub do_setup :
    (String → String)
    → (ℕ → String)
    → (String → Result (Option String))
    → List String
    → List String
    → Requests
    → Outcome (Result String × Requests)
unfolding setup_fields set_profile join
do_setup lower uid to_b64 attachments answers s =
    elim (setup_fields lower ("given_name" ∷ "family_name" ∷ "about" ∷ "mood_emoji" ∷ []) answers
      []) [
        | waits ↦ waits
        | answered fields ↦
            let profile_path = head_or attachments "" in
            let others = remove (remove fields "given_name") "family_name" in
            let names =
              if truthy profile_path
              then keys (put fields "profile_path" (str profile_path))
              else keys fields in
            let (r, s') =
              set_profile uid to_b64 (value_or (get fields "given_name"))
                (value_or (get fields "family_name")) "" profile_path others s in
            answered
              (elim r [ err e ↦ (err e, s') | ok rpc_id ↦ (ok ("set " & join ", " names), s') ])
      ]
