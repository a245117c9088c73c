-- ===== src/Question/Numbers/Tests.antt =====
-- A question for a number, answered by a word, and then by a number.
use forestfire.Prelude.{
  ℕ, String, true, false, ◌||◌, none, some, List, [], ◌∷◌, ◌≡◌, refl, ◌==◌, string_eq,
  if◌then◌else◌,
}
use forestfire.Prelude.Int.{pos}
use forestfire.Prelude.Exec.{ok, err, value_error}
use forestfire.Question.Loops.{Outcome}
use forestfire.Question.Reask.{reask}
use forestfire.Question.Numbers.{AnswerLib, ask_intable_question, ask_floatable_question}
use forestfire.Question.Numbers.Laws

-- A Python that knows three numbers.
abbrev lib : AnswerLib ℕ
lib = record {
  lower = λ s. s;
  isnumeric = λ s. s == "7" || (s == "112" || s == "½");
  int_of = λ s. if s == "7" then ok (pos 7) else err value_error;
  float_of = λ s. if s == "7" then ok 7 else err value_error;
  search_email = λ s. none;
}

abbrev replies : List String
replies = "seven" ∷ "7" ∷ []

asked_twice : ask_intable_question lib (some "How many?") true replies ≡ (
  (some "How many?", true) ∷ (some "How many? (as a whole number, ie '1' or '2000')", false) ∷ [],
  Outcome.answered (ok (some (pos 7))),
)
unfolding ask_intable_question reask
asked_twice = refl

-- A fraction is numeric, but no whole number.
one_half : (ask_intable_question lib none false ("½" ∷ [])).1 ≡ Outcome.answered (err value_error)
unfolding ask_intable_question reask
one_half = refl

-- A minus sign that is not in front passes the test too.
minus_inside :
    (ask_floatable_question lib none false ("1-2" ∷ [])).1 ≡ Outcome.answered (err value_error)
unfolding ask_floatable_question reask
minus_inside = refl
