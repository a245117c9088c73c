-- ===== src/Question/Numbers.antt =====
-- forest/core.py: `ask_intable_question`, `ask_floatable_question` and `ask_email_question`.
pub mod Laws
mod Tests
use forestfire.Prelude.{
  ℕ, String, Bool, true, false, not, ◌&&◌, ◌||◌, Option, none, some, List, [], ◌∷◌, if◌then◌else◌,
  truthy, has_part, contains, ◌&◌, ◌≡◌, refl, ◌==◌, nat_eq, string_eq,
}
use forestfire.Prelude.Int.{ℤ}
use forestfire.Prelude.Exec.{Result, ok, err, bind}
use forestfire.Question.Loops.{Outcome, terminal_answers}
use forestfire.Question.Reask.{Asked, reask, first_verdict, again, reask_lem}
use Prim.Native.Char.{Char, char, code}
use Prim.Native.String

-- The methods of `str`, the conversions, and the search for an address of electronic mail.
pub record AnswerLib (F : Type 0) : Type 0 where
  pub lower : String → String
  pub isnumeric : String → Bool
  pub int_of : String → Result ℤ
  pub float_of : String → Result F
  pub search_email : String → Option String

-- `question_text and part in question_text`
abbrev pub asks : Option String → String → Bool
asks none part = false
asks (some q) part = truthy q && has_part q part

abbrev pub or_empty : Option String → String
or_empty none = ""
or_empty (some q) = q

-- Asked again, from any device, with a note once.
unfoldable pub noted : String → String → Asked → Asked
unfolding has_part
noted part note (question_text, require_first_device) =
    if asks question_text part
    then (question_text, false)
    else (some (or_empty question_text & note), false)

-- `s.replace(c, d, 1)`, of one character
unfoldable pub replace_first : ℕ → Char → String → String
replace_first c d String.[] = String.[]
replace_first c d (String.◌∷◌ e s) =
    let rest = replace_first c d s in if code e == c then String.◌∷◌ d s else String.◌∷◌ e rest

abbrev one : Char
one = char 49 tt

abbrev point : Char
point = char 46 tt

abbrev pub decimal_note : String
decimal_note = " (as a decimal, ie 1.01 or 2,02)"

abbrev pub whole_note : String
whole_note = " (as a whole number, ie '1' or '2000')"

-- `bool(s)` of what was asked, with the reminder in front of it once
unfoldable pub email_clarified : Asked → Asked
unfolding has_part
email_clarified (question_text, _) =
    if has_part (or_empty question_text) "Please reply"
    then (question_text, false)
    else (some ("Please reply with a valid email address\n\n" & or_empty question_text), false)

-- What was converted, or what the conversion raised.
abbrev pub some_result : {A : Type 0} → Result A → Result (Option A)
some_result (ok a) = ok (some a)
some_result (err e) = err e

module _ {F : Type 0} (lib : AnswerLib F) where
  -- The body of `ask_intable_question`: `none` to ask again.
  unfoldable pub int_verdict : String → Option (Result (Option ℤ))
  int_verdict answer =
      if truthy answer && not (lib.isnumeric answer)
      then if contains terminal_answers (lib.lower answer) then some (ok none) else none
      else if truthy answer
      then some (some_result (lib.int_of answer))
      else some (ok none)

  unfoldable pub ask_intable_question :
      Option String → Bool → List String → List Asked × Outcome (Result (Option ℤ))
  unfolding int_verdict noted
  ask_intable_question question_text require_first_device answers =
      reask int_verdict (noted "as a whole number" whole_note) (question_text, require_first_device)
        answers

  -- The test on the text of a number, with one sign and one point or comma replaced.
  unfoldable pub looks_numeric : String → Bool
  unfolding replace_first
  looks_numeric answer =
      lib.isnumeric (replace_first b'.' one (replace_first b'-' one answer))
      || lib.isnumeric (replace_first b',' one (replace_first b'-' one answer))

  -- The body of `ask_floatable_question`
  unfoldable pub float_verdict : String → Option (Result (Option F))
  unfolding looks_numeric replace_first
  float_verdict answer =
      if truthy answer && not (looks_numeric answer)
      then if contains terminal_answers (lib.lower answer) then some (ok none) else none
      else if truthy answer
      then some (some_result (lib.float_of (replace_first b',' point answer)))
      else some (ok none)

  unfoldable pub ask_floatable_question :
      Option String → Bool → List String → List Asked × Outcome (Result (Option F))
  unfolding float_verdict noted
  ask_floatable_question question_text require_first_device answers =
      reask float_verdict (noted "as a decimal" decimal_note) (question_text, require_first_device)
        answers

  -- The body of `ask_email_question`
  unfoldable pub email_verdict : String → Option (Option String)
  email_verdict answer = elim (lib.search_email (lib.lower answer)) [
    | some email ↦ some (some email)
    | none ↦
        if truthy answer
        then if contains terminal_answers (lib.lower answer) then some none else none
        else some none
  ]

  unfoldable pub ask_email_question : String → List String → List Asked × Outcome (Option String)
  unfolding email_verdict email_clarified
  ask_email_question question_text answers =
      reask email_verdict email_clarified (some question_text, false) answers
