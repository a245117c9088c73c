-- ===== src/Question/Choice/Tests.antt =====
-- A choice of two colours, with an answer that is no label, and a confirmation.
use forestfire.Prelude.{String, true, Option, none, some, List, [], ◌∷◌, ◌≡◌, refl, truthy}
use forestfire.Prelude.Exec.{ok, err, value_error}
use forestfire.Question.Loops.{Outcome}
use forestfire.Question.Choice.{Choices, dict_options, ask_multiple_choice_question, choose}
use forestfire.Question.Choice.Laws.{Fair, ask_multiple_choice_question-Fair}

abbrev lower : String → String
lower s = s

abbrev colours : Choices
colours = Choices.listed ("red" ∷ "blue" ∷ [])

abbrev replies : List String
replies = "green" ∷ "1" ∷ "no" ∷ "2" ∷ "yes" ∷ []

ask_multiple_choice_question-Fair_example :
    Fair lower
      (dict_options colours)
      truthy
      (ask_multiple_choice_question lower none colours true true replies).1
unfolding dict_options forestfire.Question.Choice.lower_options forestfire.Prelude.Dict.put
ask_multiple_choice_question-Fair_example =
    ask_multiple_choice_question-Fair lower none colours true true truthy replies refl (λ a h. h)
      refl

blue_at_last :
    (ask_multiple_choice_question lower none colours true true replies).1
    ≡ Outcome.answered (ok (some "blue"))
unfolding ask_multiple_choice_question forestfire.Prelude.Dict.put forestfire.Prelude.Dict.get
    forestfire.Question.Loops.yesno_verdict
blue_at_last = refl

same_labels :
    ask_multiple_choice_question lower none
      (Choices.labelled (("a", "x") ∷ ("a", "y") ∷ []))
      true
      true
      []
    ≡ ([], Outcome.answered (err value_error))
unfolding ask_multiple_choice_question forestfire.Prelude.Dict.put
same_labels = refl
