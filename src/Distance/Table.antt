-- ===== src/Distance/Table.antt =====
-- How the loops fill the table, against `apart`.
use forestfire.Prelude.{
  subst, ℕ, zero, suc, ◌+◌, ◌-◌, ◌≤◌, ◌<◌, min, ◌≡◌, refl, ap, ◌∙◌, List, [], ◌∷◌, ◌&&◌, ◌||◌,
  Option, none, some, get_elem?, length, arith, ◌==◌, nat_eq, ltb, if◌then◌else◌,
}
use mathlib.Core.Option.{none-ne-some}
use forestfire.Prelude.Exec.{Result, ok}
use forestfire.Distance.{
  Matrix, range_from, index, cell, assign, set_cell, for_in, first_row, first_matrix, fill_cell,
  fill_row, levenshtein_codes,
}
use forestfire.Distance.Edits.{apart-zero, apart}

-- A counted loop that keeps `P` ends without an exception, with `P` at its end.
for_in-range {ℓ κ} :
    {S : Type ℓ} (P : ℕ → S → Type κ) (stop n a : ℕ) (body : ℕ → S → Result S) (s : S)
    → a + n ≡ stop
    → P a s
    → ((k : ℕ) (t : S) → a ≤ k → k < stop → P k t → (u : S) × (body k t ≡ ok u) × P (suc k) u)
    → (u : S) × (for_in (range_from a n) body s ≡ ok u) × P stop u
unfolding for_in
for_in-range P stop zero a body s e p keep = (s, refl, subst (λ k. P k s) (omega arith) p)
for_in-range P stop (suc n) a body s e p keep =
    let (t, ran, q) = keep a s (omega arith) (omega arith) p in
    let (u, rest, r) =
      for_in-range P stop n (suc a) body t (omega arith) q
        (λ k v lo hi. keep k v (omega arith) hi) in
    (u, rw ran rest, r)

assign_lem {ℓ} :
    {A : Type ℓ} (xs : List A) (i : ℕ) (v x : A)
    → get_elem? xs i ≡ some x
    → (ys : List A) × (assign xs i v ≡ ok ys)
      × ((k : ℕ) → get_elem? ys k ≡ (if k == i then some v else get_elem? xs k))
unfolding assign
assign_lem [] i v x h = absurd (none-ne-some x h)
assign_lem (y ∷ xs) zero v x h = (v ∷ xs, refl, elim [ zero ↦ refl | suc k ↦ ground arith ])
assign_lem (y ∷ xs) (suc i) v x h =
    let (ys, done, at) = assign_lem xs i v x h in
    (y ∷ ys, rw done, elim [ zero ↦ ground arith | suc k ↦ ground (arith, at k) ])

set_cell_lem :
    (m : Matrix) (i j v w : ℕ)
    → cell m i j ≡ ok w
    → (m' : Matrix) × (set_cell m i j v ≡ ok m')
      × ((k l : ℕ) → cell m' k l ≡ (if (k == i) && (l == j) then ok v else cell m k l))
unfolding cell set_cell index
set_cell_lem m i j v w h = go (get_elem? m i) refl
  where
    go :
        (o : Option (List ℕ))
        → get_elem? m i ≡ o
        → (m' : Matrix) × (set_cell m i j v ≡ ok m')
          × ((k l : ℕ) → cell m' k l ≡ (if (k == i) && (l == j) then ok v else cell m k l))
    go none e = cc
    go (some row) e =
        let inside : get_elem? row j ≡ some w = ground arith in
        let (row', wrote, at) = assign_lem row j v w inside in
        let (m', stored, rows) = assign_lem m i row' row e in
        (m', ground arith, λ k l. ground (arith, rows k, at l))

pub get_elem?_below : (xs : List ℕ) (i : ℕ) → i < length xs → (x : ℕ) × (get_elem? xs i ≡ some x)
get_elem?_below [] i h = elim h [ ]
get_elem?_below (x ∷ xs) zero h = (x, refl)
get_elem?_below (x ∷ xs) (suc i) h = get_elem?_below xs i (omega arith)

-- What the table holds at first.
abbrev first : ℕ → ℕ → ℕ
first i j = if j == 0 then i else j

first_row_lem :
    (a j k b : ℕ) → j < k → get_elem? (first_row a (range_from b k)) j ≡ some (first a (b + j))
unfolding first_row
first_row_lem a zero (suc k) b h = ground arith
first_row_lem a (suc j) (suc k) b h = first_row_lem a j k (suc b) (omega arith) ∙ ground arith
first_row_lem a j zero b h = elim h [ ]

cell_first :
    (i j n k a b : ℕ)
    → i < n
    → j < k
    → cell (first_matrix (range_from a n) (range_from b k)) i j ≡ ok (first (a + i) (b + j))
unfolding cell index first_matrix
cell_first zero j (suc n) k a b hi hj = ground (arith, first_row_lem a j k b hj)
cell_first (suc i) j (suc n) k a b hi hj =
    cell_first i j n k (suc a) b (omega arith) hj ∙ ground arith
cell_first i j zero k a b hi hj = elim hi [ ]

module _ (source target : List ℕ) where
  -- What stands in the table before the cell in row `r` and column `c` is filled.
  abbrev entry : ℕ → ℕ → ℕ → ℕ → ℕ
  entry r c i j = if ltb i r || (i == r && ltb j c) then apart source target i j else first i j

  record Inv (r c : ℕ) (m : Matrix) : Type 0 where
    at : (i j : ℕ) → i ≤ length source → j ≤ length target → cell m i j ≡ ok (entry r c i j)

  -- The cell that is filled, from the three cells and the two characters that are read.
  fill_cell-eq :
      (r c a l d x y : ℕ) (m : Matrix)
      → cell m r (suc c) ≡ ok a
      → cell m (suc r) c ≡ ok l
      → get_elem? source r ≡ some x
      → get_elem? target c ≡ some y
      → cell m r c ≡ ok d
      → fill_cell source target (suc r) (suc c) m
        ≡ set_cell m (suc r) (suc c) (min (min (a + 1) (l + 1)) (d + (if x == y then 0 else 1)))
  unfolding fill_cell index
  fill_cell-eq r c a l d x y m ha hl hx hy hd =
      let er : suc r - 1 ≡ r = omega arith in
      let ec : suc c - 1 ≡ c = omega arith in simp (er, ec, ha, hl, hx, hy, hd)

  filled_lem :
      (r c x y : ℕ)
      → get_elem? source r ≡ some x
      → get_elem? target c ≡ some y
      → min
          (min (apart source target r (suc c) + 1) (apart source target (suc r) c + 1))
          (apart source target r c + (if x == y then 0 else 1))
        ≡ apart source target (suc r) (suc c)
  unfolding apart
  filled_lem r c x y hx hy = rw (hx, hy) (omega arith)

  filled-Inv :
      (r c : ℕ) (m m' : Matrix)
      → Inv (suc r) (suc c) m
      → ((k l : ℕ)
          → cell m' k l ≡ (
              if (k == suc r) && (l == suc c)
              then ok (apart source target (suc r) (suc c))
              else cell m k l))
      → Inv (suc r) (suc (suc c)) m'
  filled-Inv r c m m' inv cells = record { at = λ i j hi hj. ground (arith, cells i j, inv.at i j) }

  fill_cell_lem :
      (r c : ℕ) (m : Matrix)
      → suc r ≤ length source
      → suc c ≤ length target
      → Inv (suc r) (suc c) m
      → (m' : Matrix) × (fill_cell source target (suc r) (suc c) m ≡ ok m')
        × Inv (suc r) (suc (suc c)) m'
  fill_cell_lem r c m hr hc inv =
      let (x, ex) = get_elem?_below source r (omega arith) in
      let (y, ey) = get_elem?_below target c (omega arith) in
      let above : cell m r (suc c) ≡ ok (apart source target r (suc c)) =
        ground (arith, inv.at r (suc c)) in
      let left : cell m (suc r) c ≡ ok (apart source target (suc r) c) =
        ground (arith, inv.at (suc r) c) in
      let diagonal : cell m r c ≡ ok (apart source target r c) = ground (arith, inv.at r c) in
      let (m', wrote, cells) =
        set_cell_lem m (suc r) (suc c) (apart source target (suc r) (suc c)) _
          (inv.at (suc r) (suc c) hr hc) in
      (
        m',
        fill_cell-eq r c _ _ _ x y m above left ex ey diagonal
            ∙ ap (set_cell m (suc r) (suc c)) (filled_lem r c x y ex ey)
            ∙ wrote,
        filled-Inv r c m m' inv cells,
      )

  fill_row_lem :
      (r : ℕ) (m : Matrix)
      → suc r ≤ length source
      → Inv (suc r) 1 m
      → (m' : Matrix) × (fill_row source target (suc r) m ≡ ok m')
        × Inv (suc r) (suc (length target)) m'
  unfolding fill_row
  fill_row_lem r m hr inv =
      for_in-range (Inv (suc r)) (suc (length target)) (length target) 1
        (fill_cell source target (suc r)) m (omega arith) inv
        (elim [
          | zero ↦ λ t lo. absurd (omega arith)
          | suc c ↦ λ t lo hi. fill_cell_lem r c t hr (omega arith)
        ])

  row-Inv : (r : ℕ) (m : Matrix) → Inv (suc r) (suc (length target)) m → Inv (suc (suc r)) 1 m
  row-Inv r m inv = record {
    at = λ i j hi hj. ground (arith, apart-zero source target i, inv.at i j);
  }

  first_entry : (i j : ℕ) → ◌≡◌ {A = Result ℕ} (ok (first (0 + i) (0 + j))) (ok (entry 1 1 i j))
  unfolding apart
  first_entry zero j = ground arith
  first_entry (suc i) j = ground (arith, apart-zero source target (suc i))

  first-Inv :
      Inv 1 1
        (first_matrix (range_from 0 (suc (length source))) (range_from 0 (suc (length target))))
  unfolding apart
  first-Inv = record {
    at = λ i j hi hj.
        cell_first i j (suc (length source)) (suc (length target)) 0 0 (omega arith) (omega arith)
        ∙ first_entry i j;
  }

  -- The function returns, without an exception, the distance of the whole texts.
  pub levenshtein_codes-eq-apart :
      levenshtein_codes source target ≡ ok (apart source target (length source) (length target))
  unfolding levenshtein_codes
  levenshtein_codes-eq-apart =
      let (m, ran, inv) =
        for_in-range (λ r. Inv r 1) (suc (length source)) (length source) 1 (fill_row source target)
          _ (omega arith) first-Inv
          (elim [
            | zero ↦ λ t lo. absurd (omega arith)
            | suc r ↦ λ t lo hi p.
                let (u, e, q) = fill_row_lem r t (omega arith) p in (u, e, row-Inv r u q)
          ]) in
      rw ran (ground (arith, inv.at (length source) (length target)))
