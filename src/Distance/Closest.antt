-- ===== src/Distance/Closest.antt =====
-- The text that `match` picks among the targets, and its score.
use forestfire.Prelude.{
  ◌⊎◌, subst, ◌*◌, ◌≤◌, ◌<◌, ◌≡◌, refl, ap, sym, String, List, [], ◌∷◌, true, false, arith,
  string_eq, contains, eq_iff, Bool-cases, inl, inr,
}
use native.Mathlib.Nat.{le_of_mul-le-mul_right, mul-le-mul_right}
use forestfire.Prelude.Exec.{Result, ok, err}
use forestfire.Distance.{
  Fraction, Scored, ltb_scored, insert_sorted, sorted, scores, match, levenshtein_norm, index,
}

abbrev pub All {ℓ κ} : {A : Type ℓ} → (A → Type κ) → List A → Type κ
All P [] = Unit
All P (x ∷ xs) = P x × All P xs

abbrev Positive : Scored → Type 0
Positive x = 0 < x.0.den

-- No closer than `x`.
abbrev pub NotBelow : Scored → Scored → Type 0
NotBelow x y = x.0.num * y.0.den ≤ y.0.num * x.0.den

le_fraction_trans :
    (a b c : Fraction)
    → 0 < b.den
    → a.num * b.den ≤ b.num * a.den
    → b.num * c.den ≤ c.num * b.den
    → a.num * c.den ≤ c.num * a.den
le_fraction_trans a b c pos h k =
    let h' = mul-le-mul_right c.den h in
    let k' = mul-le-mul_right a.den k in le_of_mul-le-mul_right {k = b.den} (grind arith) pos

abbrev Among : Scored → List Scored → Type 0
Among h [] = ⊥
Among h (x ∷ xs) = (h ≡ x) ⊎ Among h xs

-- The head of `ys` is one of `xs`, and none of them is closer.
abbrev HasLeast : List Scored → List Scored → Type 0
HasLeast xs [] = xs ≡ []
HasLeast xs (h ∷ r) = All (NotBelow h) xs × Among h xs

ltb_scored-false : (x y : Scored) → ltb_scored y x ≡ false → NotBelow x y
unfolding ltb_scored
ltb_scored-false (a, s) (b, t) h = ground arith

ltb_scored-true : (x y : Scored) → ltb_scored y x ≡ true → NotBelow y x
unfolding ltb_scored
ltb_scored-true (a, s) (b, t) h = ground arith

All-NotBelow_trans :
    (x y : Scored) (xs : List Scored)
    → Positive y
    → NotBelow x y
    → All (NotBelow y) xs
    → All (NotBelow x) xs
All-NotBelow_trans x y [] pos h a = tt
All-NotBelow_trans x y (z ∷ xs) pos h a =
    (le_fraction_trans x.0 y.0 z.0 pos h a.0, All-NotBelow_trans x y xs pos h a.1)

Among-All : (P : Scored → Type 0) (h : Scored) (xs : List Scored) → Among h xs → All P xs → P h
Among-All P h (x ∷ xs) (inl e) a = subst P (sym e) a.0
Among-All P h (x ∷ xs) (inr m) a = Among-All P h xs m a.1
Among-All P h [] m a = absurd m

insert_sorted-HasLeast :
    (x : Scored) (xs ys : List Scored)
    → All Positive xs
    → HasLeast xs ys
    → HasLeast (x ∷ xs) (insert_sorted x ys)
unfolding insert_sorted
insert_sorted-HasLeast x xs [] pos h = rw h ((omega arith, tt), inl refl)
insert_sorted-HasLeast x xs (y ∷ ys) pos h = elim (Bool-cases (ltb_scored y x)) [
  | inl less ↦ rw less ((ltb_scored-true x y less, h.0), inr h.1)
  | inr not_less ↦ rw not_less (
    (
      omega arith,
      All-NotBelow_trans x y xs (Among-All Positive y xs h.1 pos) (ltb_scored-false x y not_less)
          h.0,
    ),
    inl refl,
  )
]

sorted-HasLeast : (xs : List Scored) → All Positive xs → HasLeast xs (sorted xs)
unfolding sorted
sorted-HasLeast [] pos = refl
sorted-HasLeast (x ∷ xs) pos =
    insert_sorted-HasLeast x xs (sorted xs) pos.1 (sorted-HasLeast xs pos.1)

index_zero :
    (ys : List Scored) (best : Scored)
    → index ys 0 ≡ ok best
    → (rest : List Scored) × (ys ≡ best ∷ rest)
unfolding index
index_zero [] best h = cc
index_zero (y ∷ ys) best h = (ys, cc)

module _ (source : String) where
  norm-Positive : (t : String) (f : Fraction) → levenshtein_norm source t ≡ ok f → 0 < f.den
  unfolding levenshtein_norm
  norm-Positive t f h = ground arith

  -- No target has a quotient below `score`.
  abbrev pub NoCloser : Fraction → String → Type 0
  NoCloser score t =
      (f : Fraction) → levenshtein_norm source t ≡ ok f → score.num * f.den ≤ f.num * score.den

  scores_cons :
      (t : String) (ts : List String) (xs : List Scored)
      → scores source (t ∷ ts) ≡ ok xs
      → (f : Fraction) × (rest : List Scored) × (levenshtein_norm source t ≡ ok f)
        × (scores source ts ≡ ok rest)
        × (xs ≡ (f, t) ∷ rest)
  unfolding scores
  scores_cons t ts xs h = ground arith

  scores_nil : (xs : List Scored) → scores source [] ≡ ok xs → xs ≡ []
  unfolding scores
  scores_nil xs h = cc

  scores-Positive :
      (ts : List String) (xs : List Scored) → scores source ts ≡ ok xs → All Positive xs
  scores-Positive [] xs h = rw (scores_nil xs h) tt
  scores-Positive (t ∷ ts) xs h =
      let (f, rest, n, r, e) = scores_cons t ts xs h in
      rw e (norm-Positive t f n, scores-Positive ts rest r)

  scores-Among :
      (ts : List String) (xs : List Scored) (score : Fraction) (cmd : String)
      → scores source ts ≡ ok xs
      → Among (score, cmd) xs
      → (contains ts cmd ≡ true) × (levenshtein_norm source cmd ≡ ok score)
  scores-Among [] xs score cmd h m = absurd (subst (Among (score, cmd)) (scores_nil xs h) m)
  scores-Among (t ∷ ts) xs score cmd h m =
      let (f, rest, n, r, e) = scores_cons t ts xs h in
      elim (subst (Among (score, cmd)) e m) [
        | inl same ↦
            let cmd_eq : cmd ≡ t = ap (λ p. p.1) same in
            let score_eq : score ≡ f = ap (λ p. p.0) same in
            (ground (arith, eq_iff cmd t), rw (cmd_eq, score_eq) n)
        | inr later ↦
            let (listed, norm) = scores-Among ts rest score cmd r later in (ground arith, norm)
      ]

  scores-All :
      (ts : List String) (xs : List Scored) (best : Scored)
      → scores source ts ≡ ok xs
      → All (NotBelow best) xs
      → All (NoCloser best.0) ts
  scores-All [] xs best h a = tt
  scores-All (t ∷ ts) xs best h a =
      let (f, rest, n, r, e) = scores_cons t ts xs h in
      let (first, later) = subst (All (NotBelow best)) e a in
      (λ g ng. let same : g ≡ f = cc in rw same first, scores-All ts rest best r later)

  match_picks :
      (targets : List String) (best : Scored)
      → match source targets ≡ ok best
      → (xs : List Scored) × (scores source targets ≡ ok xs)
        × (rest : List Scored) × (sorted xs ≡ best ∷ rest)
  unfolding match
  match_picks targets best h = go (scores source targets) refl
    where
      go :
          (r : Result (List Scored))
          → scores source targets ≡ r
          → (xs : List Scored) × (scores source targets ≡ ok xs)
            × (rest : List Scored) × (sorted xs ≡ best ∷ rest)
      go (err e) p = cc
      go (ok xs) p = let (rest, e) = index_zero (sorted xs) best (ground arith) in (xs, p, rest, e)

  -- A result of `match` is one of the targets with its normalised distance, and no target has a
  -- smaller one.
  pub match_closest :
      (targets : List String) (score : Fraction) (cmd : String)
      → match source targets ≡ ok (score, cmd)
      → (contains targets cmd ≡ true)
        × (levenshtein_norm source cmd ≡ ok score)
        × All (NoCloser score) targets
  match_closest targets score cmd h =
      let (xs, scored, rest, e) = match_picks targets (score, cmd) h in
      let (below, among) =
        subst (HasLeast xs) e (sorted-HasLeast xs (scores-Positive targets xs scored)) in
      let (listed, norm) = scores-Among targets xs score cmd scored among in
      (listed, norm, scores-All targets xs (score, cmd) scored below)
