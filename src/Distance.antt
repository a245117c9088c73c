-- ===== src/Distance.antt =====
-- forest/string_dist.py: the distance of two texts by the Wagner-Fischer table, its normalised form,
-- and the closest of several texts. A quotient of two lengths is kept exactly, as a fraction.
pub mod Table
pub mod Edits
pub mod Laws
pub mod Closest
mod Tests
use forestfire.Prelude.{
  ℕ, zero, suc, ◌+◌, ◌-◌, ◌*◌, min, max, String, codes, List, [], ◌∷◌, Bool, true, false, ◌&&◌,
  ◌||◌, Option, none, some, get_elem?, length, ltb, leb, ◌==◌, nat_eq, if◌then◌else◌,
}
use forestfire.Prelude.Exec.{Result, ok, err, bind, index_error, zero_division}

abbrev pub Matrix : Type 0
Matrix = List (List ℕ)

-- `range(a, a + n)`
abbrev pub range_from : ℕ → ℕ → List ℕ
range_from a zero = []
range_from a (suc n) = a ∷ range_from (suc a) n

-- `xs[i]` with an `IndexError` past the end. No index of the program is negative.
abbrev pub at_index {ℓ} : {A : Type ℓ} → Option A → Result A
at_index none = err index_error
at_index (some a) = ok a

unfoldable pub index {ℓ} : {A : Type ℓ} → List A → ℕ → Result A
index xs i = at_index (get_elem? xs i)

unfoldable pub cell : Matrix → ℕ → ℕ → Result ℕ
unfolding index
cell m i j = bind (index m i) λ row. index row j

-- `xs[i] = v`
unfoldable pub assign {ℓ} : {A : Type ℓ} → List A → ℕ → A → Result (List A)
assign [] i v = err index_error
assign (x ∷ xs) zero v = ok (v ∷ xs)
assign (x ∷ xs) (suc i) v = let rest = assign xs i v in bind rest λ ys. ok (x ∷ ys)

unfoldable pub set_cell : Matrix → ℕ → ℕ → ℕ → Result Matrix
unfolding index assign
set_cell m i j v = bind (index m i) λ row. bind (assign row j v) λ row'. assign m i row'

-- `for k in ks: s = body(k, s)`
unfoldable pub for_in {ℓ} : {S : Type ℓ} → List ℕ → (ℕ → S → Result S) → S → Result S
for_in [] body s = ok s
for_in (k ∷ ks) body s = bind (body k s) λ s'. for_in ks body s'

-- [(i if j == 0 else j) for j in t_range]
unfoldable pub first_row : ℕ → List ℕ → List ℕ
first_row i [] = []
first_row i (j ∷ js) = (if j == 0 then i else j) ∷ first_row i js

unfoldable pub first_matrix : List ℕ → List ℕ → Matrix
unfolding first_row
first_matrix [] js = []
first_matrix (i ∷ is) js = first_row i js ∷ first_matrix is js

-- The body of the inner loop.
unfoldable pub fill_cell : List ℕ → List ℕ → ℕ → ℕ → Matrix → Result Matrix
unfolding cell index set_cell
fill_cell source target i j matrix = bind (cell matrix (i - 1) j) λ above.
    bind (cell matrix i (j - 1)) λ left. bind (index source (i - 1)) λ x.
      bind (index target (j - 1)) λ y. bind (cell matrix (i - 1) (j - 1)) λ diagonal.
        let del_dist = above + 1 in
        let ins_dist = left + 1 in
        let sub_trans_cost : ℕ = if x == y then 0 else 1 in
        let sub_dist = diagonal + sub_trans_cost in
        set_cell matrix i j (min (min del_dist ins_dist) sub_dist)

unfoldable pub fill_row : List ℕ → List ℕ → ℕ → Matrix → Result Matrix
unfolding for_in fill_cell
fill_row source target i matrix =
    for_in (range_from 1 (length target)) (fill_cell source target i) matrix

unfoldable pub levenshtein_codes : List ℕ → List ℕ → Result ℕ
unfolding first_matrix for_in fill_row cell
levenshtein_codes source target =
    let s_range = range_from 0 (suc (length source)) in
    let t_range = range_from 0 (suc (length target)) in
    let matrix = first_matrix s_range t_range in
    bind (for_in (range_from 1 (length source)) (fill_row source target) matrix)
      λ filled. cell filled (length source) (length target)

unfoldable pub levenshtein : String → String → Result ℕ
unfolding levenshtein_codes
levenshtein source target = levenshtein_codes (codes source) (codes target)

-- A quotient of two numbers.
pub record Fraction : Type 0 where
  pub num : ℕ
  pub den : ℕ

-- `a < b` of two quotients with a positive denominator
abbrev pub ltb_fraction : Fraction → Fraction → Bool
ltb_fraction a b = ltb (a.num * b.den) (b.num * a.den)

unfoldable pub levenshtein_norm : String → String → Result Fraction
unfolding levenshtein
levenshtein_norm source target = bind (levenshtein source target) λ distance.
    let longest = max (length (codes source)) (length (codes target)) in
    if longest == 0 then err zero_division else ok (record { num = distance; den = longest })

abbrev pub ltb_codes : List ℕ → List ℕ → Bool
ltb_codes xs [] = false
ltb_codes [] (y ∷ ys) = true
ltb_codes (x ∷ xs) (y ∷ ys) = let rest = ltb_codes xs ys in if x == y then rest else ltb x y

-- `a < b` of two pairs of a score and a text
abbrev pub Scored : Type 0
Scored = Fraction × String

unfoldable pub ltb_scored : Scored → Scored → Bool
ltb_scored (a, s) (b, t) =
    if ltb_fraction a b
    then true
    else if ltb_fraction b a
    then false
    else ltb_codes (codes s) (codes t)

-- `sorted`: stable, by `<`
unfoldable pub insert_sorted : Scored → List Scored → List Scored
unfolding ltb_scored
insert_sorted x [] = x ∷ []
insert_sorted x (y ∷ ys) =
    let later = insert_sorted x ys in if ltb_scored y x then y ∷ later else x ∷ y ∷ ys

unfoldable pub sorted : List Scored → List Scored
unfolding insert_sorted
sorted [] = []
sorted (x ∷ xs) = insert_sorted x (sorted xs)

unfoldable pub scores : String → List String → Result (List Scored)
unfolding levenshtein_norm
scores source [] = ok []
scores source (target ∷ targets) =
    bind (levenshtein_norm source target)
      λ score. bind (scores source targets) λ rest. ok ((score, target) ∷ rest)

unfoldable pub match : String → List String → Result Scored
unfolding scores sorted index
match source targets = bind (scores source targets) λ scored. index (sorted scored) 0
