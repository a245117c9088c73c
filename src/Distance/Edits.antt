-- ===== src/Distance/Edits.antt =====
-- What the table computes: the least number of edits between two prefixes.
use forestfire.Prelude.{
  ℕ, zero, suc, ◌+◌, ◌≤◌, min, ◌≡◌, refl, List, Option, none, some, get_elem?, arith, ◌==◌, nat_eq,
  if◌then◌else◌, Bool-cases, inl, inr, subst,
}
use native.Mathlib.Decide.{dec_le}

-- `0` where both texts go on with the same character, and `1` otherwise
abbrev pub cost_of : Option ℕ → Option ℕ → ℕ
cost_of (some x) (some y) = if x == y then 0 else 1
cost_of _ _ = 1

module _ (s t : List ℕ) where
  -- The distance of the first `i` characters of `s` from the first `j` of `t`.
  unfoldable pub apart : ℕ → ℕ → ℕ
  apart zero j = j
  apart (suc i) zero = suc i
  apart (suc i) (suc j) =
      let one_of = suc (min (apart i (suc j)) (apart (suc i) j)) in
      min (apart i j + cost_of (get_elem? s i) (get_elem? t j)) one_of

  -- A way to turn the first `i` characters of `s` into the first `j` of `t`, with `n` edits.
  pub data Edit : ℕ → ℕ → ℕ → Type 0 where
    start : Edit 0 0 0
    delete : {i j n : ℕ} → Edit i j n → Edit (suc i) j (suc n)
    insert : {i j n : ℕ} → Edit i j n → Edit i (suc j) (suc n)
    substitute : {i j n : ℕ} → Edit i j n → Edit (suc i) (suc j) (suc n)
    keep :
        {i j n : ℕ} (c : ℕ)
        → get_elem? s i ≡ some c
        → get_elem? t j ≡ some c
        → Edit i j n
        → Edit (suc i) (suc j) n

  cost_le_one : (i j : ℕ) → cost_of (get_elem? s i) (get_elem? t j) ≤ 1
  cost_le_one i j = ground arith

  pub apart-zero : (i : ℕ) → apart i 0 ≡ i
  unfolding apart
  apart-zero zero = refl
  apart-zero (suc i) = refl

  apart-delete : (i j : ℕ) → apart (suc i) j ≤ suc (apart i j)
  unfolding apart
  apart-delete i zero = omega (arith, apart-zero i)
  apart-delete i (suc j) = omega arith

  apart-insert : (i j : ℕ) → apart i (suc j) ≤ suc (apart i j)
  unfolding apart
  apart-insert zero j = omega arith
  apart-insert (suc i) j = omega arith

  -- No way takes fewer edits than `apart`.
  pub apart-le : {i j n : ℕ} → Edit i j n → apart i j ≤ n
  unfolding apart
  apart-le start = omega arith
  apart-le (delete {i} {j} e) = omega (arith, apart-le e, apart-delete i j)
  apart-le (insert {i} {j} e) = omega (arith, apart-le e, apart-insert i j)
  apart-le (substitute {i} {j} e) = omega (arith, apart-le e, cost_le_one i j)
  apart-le (keep {i} {j} c p q e) = rw (p, q) (ground (arith, apart-le e))

  Edit-min : {i j m n : ℕ} → Edit i j m → Edit i j n → Edit i j (min m n)
  Edit-min {i} {j} {m} {n} d e = elim (dec_le m n) [
    | yes h ↦ subst (Edit i j) (omega arith) d
    | no h ↦ subst (Edit i j) (omega arith) e
  ]

  Edit-cost :
      {i j n : ℕ} (x y : Option ℕ)
      → get_elem? s i ≡ x
      → get_elem? t j ≡ y
      → Edit i j n
      → Edit (suc i) (suc j) (n + cost_of x y)
  Edit-cost {i} {j} {n} (some x) (some y) p q e = elim (Bool-cases (x == y)) [
    | inl eq ↦ subst (Edit (suc i) (suc j)) (ground arith) (keep x p (ground arith) e)
    | inr ne ↦ subst (Edit (suc i) (suc j)) (ground arith) (substitute e)
  ]
  Edit-cost {i} {j} {n} none y p q e = subst (Edit (suc i) (suc j)) (omega arith) (substitute e)
  Edit-cost {i} {j} {n} (some x) none p q e =
      subst (Edit (suc i) (suc j)) (omega arith) (substitute e)

  -- Some way takes exactly `apart` edits.
  pub apart_attained : (i j : ℕ) → Edit i j (apart i j)
  unfolding apart
  apart_attained zero zero = start
  apart_attained zero (suc j) = insert (apart_attained zero j)
  apart_attained (suc i) zero =
      subst (Edit (suc i) 0) (omega (arith, apart-zero i)) (delete (apart_attained i zero))
  apart_attained (suc i) (suc j) =
      Edit-min (Edit-cost (get_elem? s i) (get_elem? t j) refl refl (apart_attained i j)) (
        subst (Edit (suc i) (suc j)) (omega arith)
          (Edit-min (delete (apart_attained i (suc j))) (insert (apart_attained (suc i) j))))

module _ {s t : List ℕ} where
  -- An edit read backwards.
  flip : {i j n : ℕ} → Edit s t i j n → Edit t s j i n
  flip start = start
  flip (delete e) = insert (flip e)
  flip (insert e) = delete (flip e)
  flip (substitute e) = substitute (flip e)
  flip (keep c p q e) = keep c q p (flip e)

pub apart_swap : (s t : List ℕ) (i j : ℕ) → apart s t i j ≡ apart t s j i
apart_swap s t i j = omega (
  arith,
  apart-le s t (flip (apart_attained t s j i)),
  apart-le t s (flip (apart_attained s t i j)),
)
