-- ===== src/Question/Address.antt =====
-- forest/core.py: `ask_address_question`, over the answers that the user gives in turn. The search on
-- the map is a parameter: the places that it finds for a text.
use forestfire.Prelude.{
  String, Bool, true, false, not, ◌&◌, Option, none, some, List, [], ◌∷◌, if◌then◌else◌, truthy,
  contains, string_eq,
}
use forestfire.Prelude.Exec.{Result, ok, err}
use forestfire.Question.Loops.{Outcome, waits, answered, terminal_answers, yesno_verdict, clarified}
use forestfire.Question.Reask.{Asked}

-- An element of "results".
pub record Found : Type 0 where
  pub formatted_address : String
  pub place_id : String

-- What the bot says: a question, or a message.
pub data Line : Type 0 where
  asks : Asked → Line
  tells : String → Line

abbrev pub Talk : Type 0
Talk = List Line × Outcome (Result (Option String))

abbrev after_line : Line → Talk → Talk
after_line l (ls, outcome) = (l ∷ ls, outcome)

abbrev sorry : Line
sorry = tells "Sorry, I couldn't find that. \nPlease try again or reply cancel to cancel \n"

module _ (lower : String → String) (geocode : String → Result (List Found))
    (quote_plus : String → String) (question_text : String)
    (require_first_device require_confirmation : Bool) where
  abbrev is_this : Found → String
  is_this found =
      "Got: \n"
      & found.formatted_address
      & " \n\nhttps://www.google.com/maps/search/?api=1&query="
      & quote_plus found.formatted_address
      & "&query_place_id="
      & found.place_id
      & " \n\nIs this your address? (yes/no)"

  -- `ask_place` asks for the address, `confirm_place` whether the one that was found is right.
  unfoldable mutual
    pub ask_place : List String → Talk
    ask_place [] = (asks (some question_text, require_first_device) ∷ [], waits)
    ask_place (address ∷ answers) =
        after_line (asks (some question_text, require_first_device)) (elim (geocode address) [
          | err e ↦ ([], answered (err e))
          | ok [] ↦ elim (contains terminal_answers (lower address)) [
            | true ↦ ([], answered (ok none))
            | false ↦ after_line sorry (ask_place answers)
          ]
          | ok (found ∷ others) ↦ elim (truthy found.formatted_address) [
            | false ↦ ([], answered (ok none))
            | true ↦ elim require_confirmation [
              | false ↦ ([], answered (ok (some found.formatted_address)))
              | true ↦ confirm_place found.formatted_address (is_this found) answers
            ]
          ]
        ])

    pub confirm_place : String → String → List String → Talk
    confirm_place address asked [] = (asks (some asked, require_first_device) ∷ [], waits)
    confirm_place address asked (reply ∷ replies) =
        after_line (asks (some asked, require_first_device)) (elim (yesno_verdict lower reply) [
          | none ↦ confirm_place address (clarified asked) replies
          | some (some true) ↦ ([], answered (ok (some address)))
          | some _ ↦ ask_place replies
        ])

  -- Without the key to the map, nothing is asked.
  unfoldable pub ask_address_question : (String → String) → List String → Talk
  unfolding ask_place
  ask_address_question secret answers =
      if not (truthy (secret "GOOGLE_MAPS_API"))
      then ([], answered (ok none))
      else ask_place answers
