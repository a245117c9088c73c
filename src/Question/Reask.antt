-- ===== src/Question/Reask.antt =====
-- The questions of forest/core.py that are asked again, in other words, until an answer has a verdict.
-- A question is its text, if it has one, and whether it requires the first device.
use forestfire.Prelude.{Bool, String, Option, none, some, List, [], ◌∷◌, ◌≡◌, refl, ap, ◌∙◌}
use forestfire.Question.Loops.{Outcome, waits, answered}

abbrev pub Asked : Type 0
Asked = Option String × Bool

module _ {A : Type 0} (verdict : String → Option A) (clarify : Asked → Asked) where
  -- The questions that are asked, and what comes of them; `answers` are the user's, in turn.
  unfoldable pub reask : Asked → List String → List Asked × Outcome A
  reask q [] = (q ∷ [], waits)
  reask q (a ∷ answers) =
      let (asked, outcome) = reask (clarify q) answers in
      elim (verdict a) [ some v ↦ (q ∷ [], answered v) | none ↦ (q ∷ asked, outcome) ]

  -- The first answer with a verdict.
  abbrev pub first_verdict : List String → Outcome A
  first_verdict [] = waits
  first_verdict (a ∷ answers) = elim (verdict a) [
    | some v ↦ answered v
    | none ↦ first_verdict answers
  ]

  -- The question for each answer without a verdict at the front.
  abbrev pub again : Asked → List String → List Asked
  again q [] = []
  again q (a ∷ answers) = elim (verdict a) [ some v ↦ [] | none ↦ q ∷ again q answers ]

  reask_clear :
      (q : Asked) (a : String) (answers : List String) (v : A)
      → verdict a ≡ some v
      → reask q (a ∷ answers) ≡ (q ∷ [], answered v)
  unfolding reask
  reask_clear q a answers v e = rw (reask, e) refl

  reask_unclear :
      (q : Asked) (a : String) (answers : List String)
      → verdict a ≡ none
      → reask q (a ∷ answers) ≡ (q ∷ (reask (clarify q) answers).0, (reask (clarify q) answers).1)
  unfolding reask
  reask_unclear q a answers e = rw (reask, e) refl

  module _ (clarify_twice : (q : Asked) → clarify (clarify q) ≡ clarify q) where
    pub reask_lem :
        (q : Asked) (answers : List String)
        → reask q answers ≡ (q ∷ again (clarify q) answers, first_verdict answers)
    reask_lem q [] = unfold reask in refl
    reask_lem q (a ∷ answers) = go (verdict a) refl (reask_lem (clarify q) answers)
      where
        go :
            (v : Option A)
            → verdict a ≡ v
            → reask (clarify q) answers
              ≡ (clarify q ∷ again (clarify (clarify q)) answers, first_verdict answers)
            → reask q (a ∷ answers)
              ≡ (q ∷ again (clarify q) (a ∷ answers), first_verdict (a ∷ answers))
        go (some v) e ih = reask_clear q a answers v e ∙ (rw (again, first_verdict, e) refl)
        go none e ih =
            reask_unclear q a answers e
            ∙ ap (λ (p : List Asked × Outcome A). (q ∷ p.0, p.1)) ih
            ∙ ap (λ c. (q ∷ clarify q ∷ again c answers, first_verdict answers)) (clarify_twice q)
            ∙ (rw (again, first_verdict, e) refl)
