-- ===== src/Question/Loops.antt =====
-- forest/core.py: `ask_yesno_question`, over the answers that the user gives to the questions in
-- turn. A result comes with the texts of the questions that were asked.
use forestfire.Prelude.{
  nat_eq, subst, ℕ, String, Bool, true, false, not, ◌&&◌, ◌||◌, Option, none, some, List, [], ◌∷◌,
  string_eq, if◌then◌else◌, truthy, has_part, startswith, contains, ◌&◌, ◌≡◌, refl, arith, leb,
  Bool-cases, inl, inr, ap, ◌∙◌, sym,
}
use Prim.Native.Char.{Char, code}
use forestfire.Prelude.Dict.{==_refl}
use text.Mathlib.TextLemmas.{cons-append, append_assoc}

-- What came of a question: an answer, or the bot still waits for one.
pub data Outcome (A : Type 0) : Type 0 where
  waits : Outcome A
  answered : A → Outcome A

abbrev pub terminal_answers : List String
terminal_answers =
    "0" ∷ "no" ∷ "none" ∷ "stop" ∷ "quit" ∷ "exit" ∷ "break" ∷ "cancel" ∷ "abort" ∷ []

abbrev pub affirmative_answers : List String
affirmative_answers =
    "yes" ∷ "yeah" ∷ "y" ∷ "yup" ∷ "affirmative" ∷ "ye" ∷ "sure" ∷ "yeh" ∷ "please" ∷ []

abbrev pub negative_answers : List String
negative_answers = "no" ∷ "nope" ∷ "n" ∷ "negatory" ∷ "nuh-uh" ∷ "nah" ∷ []

-- `string.punctuation`
abbrev punctuation : ℕ → Bool
punctuation c =
    leb 33 c && leb c 47 || leb 58 c && leb c 64 || leb 91 c && leb c 96 || leb 123 c && leb c 126

-- `s.rstrip(chars)`
unfoldable pub rstrip : (ℕ → Bool) → String → String
rstrip p String.[] = String.[]
rstrip p (String.◌∷◌ c s) =
    let rest = rstrip p s in
    if p (code c) && not (truthy rest) then String.[] else String.◌∷◌ c rest

abbrev pub yesno_clarifier : String
yesno_clarifier = "Please answer yes or no, or cancel:\n \n"

-- The question as it is asked again.
unfoldable pub clarified : String → String
unfolding has_part
clarified question_text =
    if has_part question_text "Please answer yes or no"
    then question_text
    else yesno_clarifier & question_text

startswith_cons :
    (c : Char) (s p : String)
    → startswith s p ≡ true
    → startswith (String.◌∷◌ c s) (String.◌∷◌ c p) ≡ true
unfolding startswith
startswith_cons c s p h = ground (arith, ==_refl (code c))

startswith_append : (p s : String) → startswith (p & s) p ≡ true
startswith_append String.[] s = unfold startswith in refl
startswith_append (String.◌∷◌ c p) s =
    subst (λ t. startswith t (String.◌∷◌ c p) ≡ true) (sym (cons-append c p s))
      (startswith_cons c (p & s) p (startswith_append p s))

has_part_start : (s p : String) → startswith s p ≡ true → has_part s p ≡ true
unfolding has_part
has_part_start String.[] p h = h
has_part_start (String.◌∷◌ c s) p h = ground arith

clarifier_asks : (q : String) → has_part (yesno_clarifier & q) "Please answer yes or no" ≡ true
clarifier_asks q = has_part_start (yesno_clarifier & q) "Please answer yes or no" (
    subst (λ t. startswith t "Please answer yes or no" ≡ true)
      (sym (append_assoc "Please answer yes or no" ", or cancel:\n \n" q))
      (startswith_append "Please answer yes or no" (", or cancel:\n \n" & q)))

clarified_twice : (q : String) → clarified (clarified q) ≡ clarified q
unfolding clarified
clarified_twice q = elim (Bool-cases (has_part q "Please answer yes or no")) [
  | inl e ↦ rw (e, e) refl
  | inr e ↦ rw (e, clarifier_asks q) refl
]

module _ (lower : String → String) where
  -- The tests on one answer: `none` where the question is asked again.
  unfoldable pub yesno_verdict : String → Option (Option Bool)
  unfolding rstrip
  yesno_verdict text =
      let answer = rstrip punctuation (lower text) in
      if truthy answer && (contains affirmative_answers answer || contains negative_answers answer)
      then if contains affirmative_answers answer then some (some true) else some (some false)
      else if truthy answer && contains terminal_answers answer
      then some none
      else none

  unfoldable pub ask_yesno_question : String → List String → List String × Outcome (Option Bool)
  unfolding yesno_verdict clarified
  ask_yesno_question question_text [] = (question_text ∷ [], waits)
  ask_yesno_question question_text (a ∷ answers) =
      let (asked, outcome) = ask_yesno_question (clarified question_text) answers in
      elim (yesno_verdict a) [
        | some v ↦ (question_text ∷ [], answered v)
        | none ↦ (question_text ∷ asked, outcome)
      ]

  -- The first answer with a verdict.
  abbrev pub first_clear : List String → Outcome (Option Bool)
  first_clear [] = waits
  first_clear (a ∷ answers) = elim (yesno_verdict a) [
    | some v ↦ answered v
    | none ↦ first_clear answers
  ]

  -- A question for each answer without a verdict at the front.
  abbrev pub repeated : String → List String → List String
  repeated q [] = []
  repeated q (a ∷ answers) = elim (yesno_verdict a) [ some v ↦ [] | none ↦ q ∷ repeated q answers ]

  ask_clear :
      (q a : String) (answers : List String) (v : Option Bool)
      → yesno_verdict a ≡ some v
      → ask_yesno_question q (a ∷ answers) ≡ (q ∷ [], answered v)
  unfolding ask_yesno_question
  ask_clear q a answers v e = rw (ask_yesno_question, e) refl

  ask_unclear :
      (q a : String) (answers : List String)
      → yesno_verdict a ≡ none
      → ask_yesno_question q (a ∷ answers) ≡ (
        q ∷ (ask_yesno_question (clarified q) answers).0,
        (ask_yesno_question (clarified q) answers).1,
      )
  unfolding ask_yesno_question
  ask_unclear q a answers e = rw (ask_yesno_question, e) refl

  -- A yes-or-no question comes to what the first clear answer says, and waits as long as there is
  -- none; each unclear answer has it asked again, with the clarifier in front of it once.
  pub ask_yesno_question_lem :
      (q : String) (answers : List String)
      → ask_yesno_question q answers ≡ (q ∷ repeated (clarified q) answers, first_clear answers)
  ask_yesno_question_lem q [] = unfold ask_yesno_question in refl
  ask_yesno_question_lem q (a ∷ answers) =
      go (yesno_verdict a) refl (ask_yesno_question_lem (clarified q) answers)
    where
      go :
          (v : Option (Option Bool))
          → yesno_verdict a ≡ v
          → ask_yesno_question (clarified q) answers
            ≡ (clarified q ∷ repeated (clarified (clarified q)) answers, first_clear answers)
          → ask_yesno_question q (a ∷ answers)
            ≡ (q ∷ repeated (clarified q) (a ∷ answers), first_clear (a ∷ answers))
      go (some v) e ih = ask_clear q a answers v e ∙ (rw (repeated, first_clear, e) refl)
      go none e ih =
          ask_unclear q a answers e
          ∙ ap (λ (p : List String × Outcome (Option Bool)). (q ∷ p.0, p.1)) ih
          ∙ ap (λ c. (q ∷ clarified q ∷ repeated c answers, first_clear answers))
              (clarified_twice q)
          ∙ (rw (repeated, first_clear, e) refl)
