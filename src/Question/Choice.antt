-- ===== src/Question/Choice.antt =====
-- forest/core.py: `ask_multiple_choice_question`, over the answers that the user gives in turn, to the
-- question and to the questions whether the choice is right.
pub mod Laws
mod Tests
use forestfire.Prelude.{
  ℕ, suc, String, Bool, true, false, not, ◌&&◌, Option, none, some, List, [], ◌∷◌, if◌then◌else◌,
  truthy, has_part, contains, ◌&◌, join, decimal, any, length, ◌==◌, nat_eq, string_eq,
}
use forestfire.Prelude.Exec.{Result, ok, err, value_error, key_error}
use forestfire.Prelude.Dict.{Dict, get, put, keys, values}
use forestfire.Question.Loops.{Outcome, waits, answered, terminal_answers, yesno_verdict, clarified}
use forestfire.Question.Reask.{Asked}

-- Options with labels of their own, or numbered ones.
pub data Choices : Type 0 where
  listed : List String → Choices
  labelled : Dict String String → Choices

-- {str(i): value for i, value in enumerate(options, start=i)}
abbrev numbered : ℕ → List String → Dict String String
numbered i [] = []
numbered i (value ∷ options) = (decimal i, value) ∷ numbered (suc i) options

unfoldable pub dict_options : Choices → Dict String String
unfolding decimal
dict_options (listed options) = numbered 1 options
dict_options (labelled options) = options

unfoldable pub spacer_of : Dict String String → String
spacer_of options = if any truthy (values options) then ") " else ""

abbrev option_lines : String → Dict String String → List String
option_lines spacer [] = []
option_lines spacer ((label, body) ∷ options) =
    (label & spacer & body) ∷ option_lines spacer options

-- {k.lower(): v for (k, v) in options.items()}, put into `d`
abbrev lower_onto : (String → String) → Dict String String → Dict String String → Dict String String
lower_onto lower d [] = d
lower_onto lower d ((k, v) ∷ options) = lower_onto lower (put d (lower k) v) options

unfoldable pub lower_options : (String → String) → Dict String String → Dict String String
lower_options lower options = lower_onto lower [] options

unfoldable pub reminded : String → String
unfolding has_part
reminded question_text =
    if has_part question_text "Please reply"
    then question_text
    else "Please reply with just the label exactly as typed \n \n" & question_text

-- What is returned for an answer: `lower_dict_options[answer.lower()] or answer`
abbrev pub or_answer : String → Option String → Result (Option String)
or_answer answer none = err key_error
or_answer answer (some body) = ok (some (if truthy body then body else answer))

abbrev pub Dialog : Type 0
Dialog = List Asked × Outcome (Result (Option String))

abbrev pub first_asked : Asked → Dialog → Dialog
first_asked q (qs, outcome) = (q ∷ qs, outcome)

module _ (lower : String → String) (options : Dict String String) where
  module _ (require_confirmation require_first_device : Bool) where
    abbrev pub question : String → Asked
    question question_text = (
      some (question_text & "\n" & join " \n" (option_lines (spacer_of options) options)),
      require_first_device,
    )

    abbrev pub confirmation : String → String → String
    confirmation answer body =
        "You picked: \n" & answer & spacer_of options & body & "\n\nIs this correct? (yes/no)"

    -- `choose` asks for a label, `confirm` whether the label that was picked is right.
    unfoldable mutual
      unfolding lower_options

      pub choose : String → List String → Dialog
      choose question_text [] = (question question_text ∷ [], waits)
      choose question_text (answer ∷ answers) =
          first_asked (question question_text) (elim (truthy answer) [
            | false ↦
                ([], answered (or_answer answer (get (lower_options lower options) (lower answer))))
            | true ↦ elim (get (lower_options lower options) (lower answer)) [
              | some body ↦ elim require_confirmation [
                | true ↦ confirm question_text answer body (confirmation answer body) answers
                | false ↦ ([], answered (or_answer answer (some body)))
              ]
              | none ↦ elim (contains terminal_answers (lower answer)) [
                | true ↦ ([], answered (ok none))
                | false ↦ choose (reminded question_text) answers
              ]
            ]
          ])

      pub confirm : String → String → String → String → List String → Dialog
      confirm question_text answer body asked [] = ((some asked, false) ∷ [], waits)
      confirm question_text answer body asked (reply ∷ replies) =
          first_asked (some asked, false)
            (elim (yesno_verdict lower reply) [
              | none ↦ confirm question_text answer body (clarified asked) replies
              | some none ↦ choose question_text replies
              | some (some false) ↦ choose question_text replies
              | some (some true) ↦ ([], answered (or_answer answer (some body)))
            ])

abbrev or_pick : Option String → String
or_pick none = "Pick one from these options:"
or_pick (some question_text) = question_text

-- The labels have to differ in lower case; else nothing is asked.
unfoldable pub ask_multiple_choice_question :
    (String → String) → Option String → Choices → Bool → Bool → List String → Dialog
unfolding choose dict_options lower_options
ask_multiple_choice_question lower question_text options require_confirmation require_first_device
      answers =
    let options = dict_options options in
    if not (length (lower_options lower options) == length options)
    then ([], answered (err value_error))
    else choose lower options require_confirmation require_first_device (or_pick question_text)
        answers
