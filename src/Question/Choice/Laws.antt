-- ===== src/Question/Choice/Laws.antt =====
-- What a multiple choice comes to, over the answers in turn.
use forestfire.Prelude.{
  String, Bool, true, false, ◌&&◌, Option, none, some, List, [], ◌∷◌, truthy, contains, ◌≡◌, refl,
  arith, ◌⊎◌, inl, inr, Bool-cases, string_eq, length, nat_eq,
}
use forestfire.Prelude.Exec.{Result, ok}
use forestfire.Prelude.Dict.{Dict, get, ==_refl}
use forestfire.Question.Loops.{Outcome, waits, answered, terminal_answers, yesno_verdict, clarified}
use forestfire.Question.Choice.{
  choose, confirm, lower_options, or_answer, reminded, ask_multiple_choice_question, dict_options,
  Choices, or_pick, confirmation, Dialog,
}

-- `p` holds of each text of the list.
abbrev pub all : (String → Bool) → List String → Bool
all p [] = true
all p (x ∷ xs) = p x && all p xs

module _ (lower : String → String) (options : Dict String String) (p : String → Bool) where
  -- A result that breaks off, or that a text with `p` picks.
  abbrev pub Picked : Result (Option String) → Type 0
  Picked r =
      (r ≡ ok none)
      ⊎ ((a : String) × (body : String) × (p a ≡ true)
          × (get (lower_options lower options) (lower a) ≡ some body)
          × (r ≡ or_answer a (some body)))

  abbrev pub Fair : Outcome (Result (Option String)) → Type 0
  Fair waits = Unit {0}
  Fair (answered r) = Picked r

  either-Fair :
      (b : Bool) (x y : Dialog)
      → Fair x.1
      → Fair y.1
      → Fair (elim b as (λ _. Dialog) [ true ↦ x | false ↦ y ]).1
  either-Fair true x y h k = h
  either-Fair false x y h k = k

  module _ (speaks : (a : String) → p a ≡ true → truthy a ≡ true) (confirmed first : Bool) where
    abbrev FairFor : List String → Type 0
    FairFor answers =
        ((q : String) → Fair (choose lower options confirmed first q answers).1)
        × ((q a body asked : String)
            → p a ≡ true
            → get (lower_options lower options) (lower a) ≡ some body
            → Fair (confirm lower options confirmed first q a body asked answers).1)

    choose_cons :
        (a : String) (answers : List String)
        → p a ≡ true
        → FairFor answers
        → (q : String) → Fair (choose lower options confirmed first q (a ∷ answers)).1
    unfolding choose
    choose_cons a answers pa ih q = go (get (lower_options lower options) (lower a)) refl
      where
        go :
            (o : Option String)
            → get (lower_options lower options) (lower a) ≡ o
            → Fair (choose lower options confirmed first q (a ∷ answers)).1
        go (some body) e =
            rw (choose, speaks a pa, e)
              (either-Fair confirmed
                (confirm lower options confirmed first q a body
                  (confirmation lower options confirmed first a body) answers)
                ([], answered (or_answer a (some body)))
                (ih.1 q a body (confirmation lower options confirmed first a body) pa e)
                (inr (a, body, pa, e, refl)))
        go none e = elim (Bool-cases (contains terminal_answers (lower a))) [
          | inl c ↦ rw (choose, speaks a pa, e, c) (inl refl)
          | inr c ↦ rw (choose, speaks a pa, e, c) (ih.0 (reminded q))
        ]

    confirm_cons :
        (reply : String) (replies : List String)
        → FairFor replies
        → (q a body asked : String) → p a ≡ true
        → get (lower_options lower options) (lower a) ≡ some body
        → Fair (confirm lower options confirmed first q a body asked (reply ∷ replies)).1
    unfolding confirm
    confirm_cons reply replies ih q a body asked pa e = go (yesno_verdict lower reply) refl
      where
        go :
            (v : Option (Option Bool))
            → yesno_verdict lower reply ≡ v
            → Fair (confirm lower options confirmed first q a body asked (reply ∷ replies)).1
        go none h = rw (confirm, h) (ih.1 q a body (clarified asked) pa e)
        go (some none) h = rw (confirm, h) (ih.0 q)
        go (some (some false)) h = rw (confirm, h) (ih.0 q)
        go (some (some true)) h = rw (confirm, h) (inr (a, body, pa, e, refl))

    choose-Fair : (answers : List String) → all p answers ≡ true → FairFor answers
    unfolding choose confirm
    choose-Fair [] h = (λ q. tt, λ q a body asked pa e. tt)
    choose-Fair (a ∷ answers) h =
        let ih = choose-Fair answers (ground arith) in
        let pa : p a ≡ true = ground arith in
        (choose_cons a answers pa ih, confirm_cons a answers ih)

-- A multiple choice waits, breaks off, or comes to an option whose label the user has typed in some
-- case, whatever else the user typed, if the labels differ in lower case; `p` holds of what the user
-- types, which is never empty.
pub ask_multiple_choice_question-Fair :
    (lower : String → String) (question_text : Option String) (choices : Choices)
    (confirmed first : Bool) (p : String → Bool) (answers : List String)
    → length (lower_options lower (dict_options choices)) ≡ length (dict_options choices)
    → ((a : String) → p a ≡ true → truthy a ≡ true)
    → all p answers ≡ true
    → Fair lower
        (dict_options choices)
        p
        (ask_multiple_choice_question lower question_text choices confirmed first answers).1
unfolding ask_multiple_choice_question
ask_multiple_choice_question-Fair lower question_text choices confirmed first p answers unique
      speaks h =
    rw (ask_multiple_choice_question, unique, ==_refl (length (dict_options choices)))
      ((choose-Fair lower (dict_options choices) p speaks confirmed first answers h).0
        (or_pick question_text))
