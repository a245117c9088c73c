-- ===== src/Value/Spelling.antt =====
-- Values and texts as lists of numbers that can be read back. A value is spelled as the steps of a
-- machine that puts it together on a stack.
use Prim.Native.Char.{Char, char, code, nul, IsScalar}
use Prim.Native.Nat.{Ordering, compare}
use text.Mathlib.TextEquality.{Char-path}
use forestfire.Prelude.{ℕ, zero, suc, String, [], ◌∷◌, List, true, false, ◌≡◌, refl, ap, ◌∙◌, codes}
use forestfire.Prelude.Int.{pos, negsuc}
use forestfire.Value.{
  Value, null, bool, int, str, list, tuple, dict, object, Items, nil, cons, Fields, end, field,
}

abbrev is_scalar : (n : ℕ) → Dec (IsScalar n)
is_scalar n = go (compare n 55296) (compare 57343 n) (compare n 1114112) refl refl refl
  where
    go :
        (o p q : Ordering)
        → compare n 55296 ≡ o
        → compare 57343 n ≡ p
        → compare n 1114112 ≡ q
        → Dec (IsScalar n)
    go Ordering.lt p q a b c = rw a (yes tt)
    go Ordering.eq Ordering.lt Ordering.lt a b c = rw (a, b, c) (yes tt)
    go Ordering.eq Ordering.lt Ordering.eq a b c = rw (a, b, c) (no λ x. x)
    go Ordering.eq Ordering.lt Ordering.gt a b c = rw (a, b, c) (no λ x. x)
    go Ordering.eq Ordering.eq q a b c = rw (a, b) (no λ x. x)
    go Ordering.eq Ordering.gt q a b c = rw (a, b) (no λ x. x)
    go Ordering.gt Ordering.lt Ordering.lt a b c = rw (a, b, c) (yes tt)
    go Ordering.gt Ordering.lt Ordering.eq a b c = rw (a, b, c) (no λ x. x)
    go Ordering.gt Ordering.lt Ordering.gt a b c = rw (a, b, c) (no λ x. x)
    go Ordering.gt Ordering.eq q a b c = rw (a, b) (no λ x. x)
    go Ordering.gt Ordering.gt q a b c = rw (a, b) (no λ x. x)

-- `chr`
abbrev chr : ℕ → Char
chr n = elim (is_scalar n) [ yes p ↦ char n p | no ¬p ↦ nul ]

chr-code : (c : Char) → chr (code c) ≡ c
chr-code (char n p) = go (is_scalar n) refl
  where
    go :
        (d : Dec (IsScalar n))
        → is_scalar n ≡ d
        → elim d as (λ _. Char) [ yes p ↦ char n p | no ¬p ↦ nul ] ≡ char n p
    go (yes q) e = Char-path (char n q) (char n p) refl
    go (no ¬q) e = absurd (¬q p)

abbrev pub of_codes : List ℕ → String
of_codes [] = ""
of_codes (n ∷ ns) = String.◌∷◌ (chr n) (of_codes ns)

pub of_codes-codes : (s : String) → of_codes (codes s) ≡ s
of_codes-codes String.[] = refl
of_codes-codes (String.◌∷◌ c s) =
    ap (λ d. String.◌∷◌ d (of_codes (codes s))) (chr-code c) ∙ ap (String.◌∷◌ c) (of_codes-codes s)

-- The steps of the machine.
pub data Step : Type 0 where
  nothing truth falsity zero_up zero_down up thing empty_text empty_list push seal empty_dict
        entry :
      Step
  letter : Char → Step

abbrev step_of : ℕ → Step
step_of zero = nothing
step_of (suc zero) = truth
step_of (suc (suc zero)) = falsity
step_of (suc (suc (suc zero))) = zero_up
step_of (suc (suc (suc (suc zero)))) = zero_down
step_of (suc (suc (suc (suc (suc zero))))) = up
step_of (suc (suc (suc (suc (suc (suc zero)))))) = thing
step_of (suc (suc (suc (suc (suc (suc (suc zero))))))) = empty_text
step_of (suc (suc (suc (suc (suc (suc (suc (suc zero)))))))) = empty_list
step_of (suc (suc (suc (suc (suc (suc (suc (suc (suc zero))))))))) = push
step_of (suc (suc (suc (suc (suc (suc (suc (suc (suc (suc zero)))))))))) = seal
step_of (suc (suc (suc (suc (suc (suc (suc (suc (suc (suc (suc zero))))))))))) = empty_dict
step_of (suc (suc (suc (suc (suc (suc (suc (suc (suc (suc (suc (suc zero)))))))))))) = entry
step_of (suc (suc (suc (suc (suc (suc (suc (suc (suc (suc (suc (suc (suc n))))))))))))) =
    letter (chr n)

abbrev apply : Step → List Value → List Value
apply nothing vs = null ∷ vs
apply truth vs = bool true ∷ vs
apply falsity vs = bool false ∷ vs
apply zero_up vs = int (pos 0) ∷ vs
apply zero_down vs = int (negsuc 0) ∷ vs
apply up (int (pos n) ∷ vs) = int (pos (suc n)) ∷ vs
apply up (int (negsuc n) ∷ vs) = int (negsuc (suc n)) ∷ vs
apply up (object n ∷ vs) = object (suc n) ∷ vs
apply thing vs = object 0 ∷ vs
apply empty_text vs = str "" ∷ vs
apply (letter c) (str s ∷ vs) = str (String.◌∷◌ c s) ∷ vs
apply empty_list vs = list nil ∷ vs
apply push (v ∷ list ws ∷ vs) = list (cons v ws) ∷ vs
apply seal (list ws ∷ vs) = tuple ws ∷ vs
apply empty_dict vs = dict end ∷ vs
apply entry (str k ∷ v ∷ dict fs ∷ vs) = dict (field k v fs) ∷ vs
apply _ vs = vs

abbrev pub run : List ℕ → List Value → List Value
run [] vs = vs
run (n ∷ ns) vs = run ns (apply (step_of n) vs)

-- The spelling of a value, in front of what follows.
abbrev ups : ℕ → List ℕ → List ℕ
ups zero ns = ns
ups (suc n) ns = ups n (5 ∷ ns)

abbrev letter_step : Char → ℕ
letter_step c = suc (suc (suc (suc (suc (suc (suc (suc (suc (suc (suc (suc (suc (code c)))))))))))))

abbrev spell_text : String → List ℕ → List ℕ
spell_text String.[] ns = 7 ∷ ns
spell_text (String.◌∷◌ c s) ns = spell_text s (letter_step c ∷ ns)

mutual
  pub spell_value : Value → List ℕ → List ℕ
  spell_value null ns = 0 ∷ ns
  spell_value (bool true) ns = 1 ∷ ns
  spell_value (bool false) ns = 2 ∷ ns
  spell_value (int (pos n)) ns = 3 ∷ ups n ns
  spell_value (int (negsuc n)) ns = 4 ∷ ups n ns
  spell_value (object n) ns = 6 ∷ ups n ns
  spell_value (str s) ns = spell_text s ns
  spell_value (list vs) ns = spell_items vs ns
  spell_value (tuple vs) ns = spell_items vs (10 ∷ ns)
  spell_value (dict fs) ns = spell_fields fs ns

  spell_items : Items → List ℕ → List ℕ
  spell_items nil ns = 8 ∷ ns
  spell_items (cons v vs) ns = spell_items vs (spell_value v (9 ∷ ns))

  spell_fields : Fields → List ℕ → List ℕ
  spell_fields end ns = 11 ∷ ns
  spell_fields (field k v fs) ns = spell_fields fs (spell_value v (spell_text k (12 ∷ ns)))

run-ups_pos :
    (n : ℕ) (ns : List ℕ) (vs : List Value)
    → run (ups n ns) (int (pos 0) ∷ vs) ≡ run ns (int (pos n) ∷ vs)
run-ups_pos zero ns vs = refl
run-ups_pos (suc n) ns vs = run-ups_pos n (5 ∷ ns) vs

run-ups_negsuc :
    (n : ℕ) (ns : List ℕ) (vs : List Value)
    → run (ups n ns) (int (negsuc 0) ∷ vs) ≡ run ns (int (negsuc n) ∷ vs)
run-ups_negsuc zero ns vs = refl
run-ups_negsuc (suc n) ns vs = run-ups_negsuc n (5 ∷ ns) vs

run-ups_object :
    (n : ℕ) (ns : List ℕ) (vs : List Value)
    → run (ups n ns) (object 0 ∷ vs) ≡ run ns (object n ∷ vs)
run-ups_object zero ns vs = refl
run-ups_object (suc n) ns vs = run-ups_object n (5 ∷ ns) vs

run-spell_text :
    (s : String) (ns : List ℕ) (vs : List Value) → run (spell_text s ns) vs ≡ run ns (str s ∷ vs)
run-spell_text String.[] ns vs = refl
run-spell_text (String.◌∷◌ c s) ns vs =
    run-spell_text s (letter_step c ∷ ns) vs
    ∙ ap (λ d. run ns (str (String.◌∷◌ d s) ∷ vs)) (chr-code c)

mutual
  unfolding spell_value spell_items spell_fields

  pub run-spell_value :
      (v : Value) (ns : List ℕ) (vs : List Value) → run (spell_value v ns) vs ≡ run ns (v ∷ vs)
  run-spell_value null ns vs = refl
  run-spell_value (bool true) ns vs = refl
  run-spell_value (bool false) ns vs = refl
  run-spell_value (int (pos n)) ns vs = run-ups_pos n ns vs
  run-spell_value (int (negsuc n)) ns vs = run-ups_negsuc n ns vs
  run-spell_value (object n) ns vs = run-ups_object n ns vs
  run-spell_value (str s) ns vs = run-spell_text s ns vs
  run-spell_value (list ws) ns vs = run-spell_items ws ns vs
  run-spell_value (tuple ws) ns vs = run-spell_items ws (10 ∷ ns) vs
  run-spell_value (dict fs) ns vs = run-spell_fields fs ns vs

  run-spell_items :
      (ws : Items) (ns : List ℕ) (vs : List Value)
      → run (spell_items ws ns) vs ≡ run ns (list ws ∷ vs)
  run-spell_items nil ns vs = refl
  run-spell_items (cons w ws) ns vs =
      run-spell_items ws (spell_value w (9 ∷ ns)) vs ∙ run-spell_value w (9 ∷ ns) (list ws ∷ vs)

  run-spell_fields :
      (fs : Fields) (ns : List ℕ) (vs : List Value)
      → run (spell_fields fs ns) vs ≡ run ns (dict fs ∷ vs)
  run-spell_fields end ns vs = refl
  run-spell_fields (field k v fs) ns vs =
      run-spell_fields fs (spell_value v (spell_text k (12 ∷ ns))) vs
      ∙ run-spell_value v (spell_text k (12 ∷ ns)) (dict fs ∷ vs)
      ∙ run-spell_text k (12 ∷ ns) (v ∷ dict fs ∷ vs)
