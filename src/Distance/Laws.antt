-- ===== src/Distance/Laws.antt =====
-- `levenshtein` and the edit distance, and its normalised form.
use forestfire.Prelude.{
  ℕ, zero, suc, ◌≤◌, ◌<◌, max, ◌≡◌, ◌↔◌, refl, ap, sym, ◌∙◌, String, codes, List, [], ◌∷◌, Option,
  get_elem?, length, arith, nat_eq,
}
use mathlib.Core.Path.{ap₂}
use native.Mathlib.Decide.{dec_lt}
use Prim.Native.Char.{code}
use text.Mathlib.TextEquality.{Char-path}
use forestfire.Prelude.Exec.{ok, err, zero_division}
use forestfire.Distance.{levenshtein, levenshtein_norm, Fraction}
use forestfire.Distance.Edits.{apart, cost_of, Edit, apart-le, apart_attained, apart_swap}
use forestfire.Distance.Table.{get_elem?_below, levenshtein_codes-eq-apart}

abbrev pub count : String → ℕ
count s = length (codes s)

abbrev pub distance : String → String → ℕ
distance s t = apart (codes s) (codes t) (count s) (count t)

pub levenshtein-eq : (s t : String) → levenshtein s t ≡ ok (distance s t)
unfolding levenshtein
levenshtein-eq s t = levenshtein_codes-eq-apart (codes s) (codes t)

-- `levenshtein` returns, and what it returns is the number of edits of some way to turn the source
-- into the target, and of no shorter way.
pub levenshtein-IsLeast :
    (s t : String)
    → (d : ℕ) × (levenshtein s t ≡ ok d)
      × Edit (codes s) (codes t) (count s) (count t) d
      × ((n : ℕ) → Edit (codes s) (codes t) (count s) (count t) n → d ≤ n)
levenshtein-IsLeast s t = (
  distance s t,
  levenshtein-eq s t,
  apart_attained (codes s) (codes t) (count s) (count t),
  λ n e. apart-le (codes s) (codes t) e,
)

-- The distance does not depend on the order of the two texts.
pub levenshtein_comm : (s t : String) → levenshtein s t ≡ levenshtein t s
levenshtein_comm s t =
    levenshtein-eq s t
    ∙ ap ok (apart_swap (codes s) (codes t) (count s) (count t))
    ∙ sym (levenshtein-eq t s)

apart-le-max : (a b : List ℕ) (i j : ℕ) → apart a b i j ≤ max i j
unfolding apart
apart-le-max a b zero j = omega arith
apart-le-max a b (suc i) zero = omega arith
apart-le-max a b (suc i) (suc j) =
    ground (arith, apart-le-max a b i (suc j), apart-le-max a b (suc i) j, apart-le-max a b i j)

apart_self : (a : List ℕ) (i : ℕ) → i ≤ length a → apart a a i i ≡ 0
unfolding apart
apart_self a zero h = refl
apart_self a (suc i) h = let (x, e) = get_elem?_below a i h in rw e (ground (arith, apart_self a i))

cost_zero : (x y : Option ℕ) → cost_of x y ≡ 0 → x ≡ y
cost_zero x y h = ground arith

-- Texts at distance 0 agree character by character.
apart_eq_zero :
    (a b : List ℕ) (i j : ℕ)
    → apart a b i j ≡ 0
    → (i ≡ j) × ((k : ℕ) → k < i → get_elem? a k ≡ get_elem? b k)
unfolding apart
apart_eq_zero a b zero zero e = (refl, λ k h. absurd (omega arith))
apart_eq_zero a b zero (suc j) e = absurd (omega arith)
apart_eq_zero a b (suc i) zero e = absurd (omega arith)
apart_eq_zero a b (suc i) (suc j) e =
    let (same, before) = apart_eq_zero a b i j (omega arith) in
    let here : get_elem? a i ≡ get_elem? b j = cost_zero _ _ (omega arith) in
    (
      omega arith,
      λ k h. elim (dec_lt k i) [
        | yes lt ↦ before k lt
        | no ge ↦ let e : k ≡ i = omega arith in rw (e, here) (ap (get_elem? b) (sym same))
      ],
    )

get_elem?_ext :
    (a b : List ℕ)
    → length a ≡ length b
    → ((k : ℕ) → k < length a → get_elem? a k ≡ get_elem? b k)
    → a ≡ b
get_elem?_ext [] [] e h = refl
get_elem?_ext [] (y ∷ b) e h = absurd (omega arith)
get_elem?_ext (x ∷ a) [] e h = absurd (omega arith)
get_elem?_ext (x ∷ a) (y ∷ b) e h =
    let tails = get_elem?_ext a b (omega arith) (λ k l. h (suc k) (omega arith)) in
    cc (h 0 (omega arith), tails)

codes_injective : (s t : String) → codes s ≡ codes t → s ≡ t
codes_injective String.[] String.[] e = refl
codes_injective String.[] (String.◌∷◌ d t) e = cc
codes_injective (String.◌∷◌ c s) String.[] e = cc
codes_injective (String.◌∷◌ c s) (String.◌∷◌ d t) e =
    let h : code c ≡ code d = cc in
    let r : codes s ≡ codes t = cc in ap₂ String.◌∷◌ (Char-path c d h) (codes_injective s t r)

-- The distance is 0 between a text and itself, and between no other two.
pub levenshtein_zero_iff : (s t : String) → (levenshtein s t ≡ ok 0) ↔ (s ≡ t)
levenshtein_zero_iff s t = (
  λ h.
      let zero_dist : distance s t ≡ 0 = cc (levenshtein-eq s t) in
      let (lengths, at) = apart_eq_zero (codes s) (codes t) (count s) (count t) zero_dist in
      codes_injective s t (get_elem?_ext (codes s) (codes t) lengths at),
  λ e. rw (← e) (levenshtein-eq s s ∙ ap ok (apart_self (codes s) (count s) (omega arith))),
)

-- Unless both texts are empty, the normalised distance is the distance over the longer length, a
-- quotient between 0 and 1.
pub levenshtein_norm_range :
    (s t : String)
    → 0 < max (count s) (count t)
    → (f : Fraction) × (levenshtein_norm s t ≡ ok f)
      × (levenshtein s t ≡ ok f.num)
      × (f.den ≡ max (count s) (count t))
      × (f.num ≤ f.den)
unfolding levenshtein_norm
levenshtein_norm_range s t h = (
  record { num = distance s t; den = max (count s) (count t) },
  ground (arith, levenshtein-eq s t),
  levenshtein-eq s t,
  refl,
  apart-le-max (codes s) (codes t) (count s) (count t),
)

-- Two empty texts have no normalised distance: the division by 0 raises.
pub levenshtein_norm_empty :
    (s t : String) → max (count s) (count t) ≡ 0 → levenshtein_norm s t ≡ err zero_division
unfolding levenshtein_norm
levenshtein_norm_empty s t h = ground (arith, levenshtein-eq s t)
