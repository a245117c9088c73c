-- ===== src/Signal/Limit/Laws.antt =====
-- The wait for the rate limit, and the number of commands that are written in a stretch of time.
use forestfire.Prelude.{
  ap, ◌⊎◌, subst, ◌∙◌, sym, ℕ, zero, suc, ◌+◌, ◌≤◌, ◌<◌, ◌*◌, ◌/◌, true, false, Option, none, some,
  ◌≡◌, refl, arith, Bool-cases, inl, inr,
}
use forestfire.Prelude.Int.{pos, pos_part, neg_part, -ℤ_parts}
use forestfire.Signal.Limit.{
  Limiter, update_and_check_rate_limit, wait, paid, take_allowance, earned, looks,
}
use forestfire.Signal.Limit.Update.{
  after, after_update, after_bound, free_allowance, busy_allowance, earned_parts,
}

-- The clock advances by the second that the loop sleeps, at least.
abbrev pub Sleeps : (ℕ → ℕ) → Type 0
Sleeps clock = (k : ℕ) → clock k + 1000 ≤ clock (suc k)

wait_free :
    (fuel : ℕ) (clock : ℕ → ℕ) (k : ℕ) (s : Limiter)
    → (update_and_check_rate_limit (clock k) s).0 ≡ true
    → wait (suc fuel) clock k s ≡ some (suc k, after (clock k) s)
unfolding wait
wait_free fuel clock k s h = rw h refl

wait_busy :
    (fuel : ℕ) (clock : ℕ → ℕ) (k : ℕ) (s : Limiter)
    → (update_and_check_rate_limit (clock k) s).0 ≡ false
    → wait (suc fuel) clock k s ≡ wait fuel clock (suc k) (after (clock k) s)
unfolding wait
wait_busy fuel clock k s h = rw h refl

-- The allowance is enough after so many sleeps.
abbrev Enough : ℕ → ℕ → Limiter → Type 0
Enough sleeps now s = 1000 + neg_part (earned now s) < pos_part (earned now s) + 1000 * sleeps

Enough-next :
    (sleeps now next : ℕ) (s : Limiter)
    → now + 1000 ≤ next
    → (update_and_check_rate_limit now s).0 ≡ false
    → Enough (suc sleeps) now s
    → Enough sleeps next (after now s)
Enough-next sleeps now next s later busy enough =
    let same = (busy_allowance now s busy).0 in
    let parts = earned_parts next (after now s) in
    let kept = ap pos_part same in
    let owed = ap neg_part same in let at_now = after_update now s in omega arith

wait-Enough :
    (fuel : ℕ) (clock : ℕ → ℕ) (k : ℕ) (s : Limiter)
    → Sleeps clock
    → Enough fuel (clock k) s
    → (k' : ℕ) × (s' : Limiter) × (wait (suc fuel) clock k s ≡ some (k', s')) × (k' ≤ k + suc fuel)
wait-Enough zero clock k s sleeps enough =
    elim (Bool-cases (update_and_check_rate_limit (clock k) s).0) [
      | inl free ↦ (suc k, after (clock k) s, wait_free 0 clock k s free, omega arith)
      | inr busy ↦ let low = busy_allowance (clock k) s busy in absurd (omega arith)
    ]
wait-Enough (suc fuel) clock k s sleeps enough =
    elim (Bool-cases (update_and_check_rate_limit (clock k) s).0) [
      | inl free ↦ (suc k, after (clock k) s, wait_free (suc fuel) clock k s free, omega arith)
      | inr busy ↦
          let (k', s', e, bound) =
            wait-Enough fuel clock (suc k) (after (clock k) s) sleeps
              (Enough-next fuel (clock k) (clock (suc k)) s (sleeps k) busy enough) in
          (k', s', wait_busy (suc fuel) clock k s busy ∙ e, omega arith)
    ]

abbrev paying : Option (ℕ × Limiter) → Option (ℕ × Limiter)
paying r = elim r [ none ↦ none | some (k', s') ↦ some (k', paid s') ]

take_allowance_of :
    (fuel : ℕ) (clock : ℕ → ℕ) (k : ℕ) (s : Limiter) (k' : ℕ) (s' : Limiter)
    → wait fuel clock k s ≡ some (k', s')
    → take_allowance fuel clock k s ≡ some (k', paid s')
unfolding take_allowance
take_allowance_of fuel clock k s k' s' e = ap paying e

take_allowance-wait :
    (fuel : ℕ) (clock : ℕ → ℕ) (k : ℕ) (s : Limiter) (k' : ℕ) (s' : Limiter)
    → take_allowance fuel clock k s ≡ some (k', s')
    → (t : Limiter) × (wait fuel clock k s ≡ some (k', t)) × (s' ≡ paid t)
take_allowance-wait fuel clock k s k' s' = unfold take_allowance in go (wait fuel clock k s) refl
  where
    go :
        (r : Option (ℕ × Limiter))
        → wait fuel clock k s ≡ r
        → paying r ≡ some (k', s')
        → (t : Limiter) × (wait fuel clock k s ≡ some (k', t)) × (s' ≡ paid t)
    go none w e = cc
    go (some (j, t)) w e = let k_eq : j ≡ k' = cc in (t, rw k_eq at w, cc)

-- The loop of the wait ends, if every sleep takes its second: whatever the allowance was, and with
-- the clock behind the last update too, three looks at the clock are enough, and one more for every
-- second that the allowance is below zero at the first look.
pub take_allowance_returns :
    (clock : ℕ → ℕ) (k : ℕ) (s : Limiter)
    → Sleeps clock
    → (k' : ℕ) × (s' : Limiter) × (take_allowance (looks (clock k) s) clock k s ≡ some (k', s'))
      × (k' ≤ k + looks (clock k) s)
take_allowance_returns clock k s sleeps =
    let (k', s', e, bound) =
      wait-Enough (2 + neg_part (earned (clock k) s) / 1000) clock k s sleeps (omega arith) in
    (k', paid s', take_allowance_of (looks (clock k) s) clock k s k' s' e, bound)

-- From `s` to `s'`, by looks at the clock from `from` to `now`.
abbrev Waited : Limiter → Limiter → ℕ → ℕ → Type 0
Waited s s' from now =
    let m = s.messages_until_rate_limit in
    let m' = s'.messages_until_rate_limit in
    (1000 + neg_part m' < pos_part m')
    × (pos_part m' + from ≤ 60000 + neg_part m' + s'.last_update)
    × (pos_part m' + neg_part m + s.last_update ≤ neg_part m' + pos_part m + s'.last_update)
    × (from ≤ s'.last_update)
    × (s'.last_update ≤ now)

-- The clock never goes back.
abbrev pub Forward : (ℕ → ℕ) → Type 0
Forward clock = (j : ℕ) → clock j ≤ clock (suc j)

wait-Waited :
    (fuel : ℕ) (clock : ℕ → ℕ) (k : ℕ) (s : Limiter) (k' : ℕ) (s' : Limiter)
    → Forward clock
    → wait fuel clock k s ≡ some (k', s')
    → Waited s s' (clock k) (clock k')
wait-Waited zero clock k s k' s' forward e = unfold wait in cc
wait-Waited (suc fuel) clock k s k' s' forward e =
    let (cap, gain) = after_bound (clock k) s in
    let now = after_update (clock k) s in
    elim (Bool-cases (update_and_check_rate_limit (clock k) s).0) [
      | inl free ↦
          let same : Path (Option (ℕ × Limiter)) (some (suc k, after (clock k) s)) (some (k', s')) =
            sym (wait_free fuel clock k s free) ∙ e in
          let more = free_allowance (clock k) s free in
          let k_eq : suc k ≡ k' = cc in
          let s_eq : after (clock k) s ≡ s' = cc in
          let next = forward k in
          subst (λ t. Waited s t (clock k) (clock k')) s_eq
            (subst (λ j. Waited s (after (clock k) s) (clock k) (clock j)) k_eq
              (more, omega arith, omega arith, omega arith, omega arith))
      | inr busy ↦
          let next = forward k in
          let (more, top, gained, later, latest) =
            wait-Waited fuel clock (suc k) (after (clock k) s) k' s' forward
              (sym (wait_busy fuel clock k s busy) ∙ e) in
          (more, omega arith, omega arith, omega arith, latest)
    ]

-- `Written clock s k n s' k'`: from `s`, at the k-th look at the clock, to `s'`, `n` commands were
-- written, each after as many looks as its wait took.
pub data Written (clock : ℕ → ℕ) (s : Limiter) (k : ℕ) : ℕ → Limiter → ℕ → Type 0 where
  nothing : Written clock s k 0 s k
  -- time goes by: the loop waits for a command, or for the end of the backoff
  idle :
      {n : ℕ} {s' : Limiter} {k' : ℕ} → Written clock s k n s' k' → Written clock s k n s' (suc k')
  command :
      {n : ℕ} {s' s'' : Limiter} {k' k'' : ℕ} (fuel : ℕ)
      → Written clock s k n s' k'
      → take_allowance fuel clock k' s' ≡ some (k'', s'')
      → Written clock s k (suc n) s'' k''

module _ (clock : ℕ → ℕ) (forward : Forward clock) (s : Limiter) (k : ℕ) where
  -- The allowance that is left, and what was spent, come from the time that went by since `k`.
  abbrev Spent : ℕ → Limiter → ℕ → Type 0
  Spent n s' k' =
      (n ≡ 0)
      ⊎ ((n * 1000 + pos_part s'.messages_until_rate_limit + clock k
            ≤ 60000 + neg_part s'.messages_until_rate_limit + s'.last_update)
          × (neg_part s'.messages_until_rate_limit ≤ pos_part s'.messages_until_rate_limit)
          × (s'.last_update ≤ clock k'))

  take_allowance-Spent :
      (fuel n : ℕ) (k' : ℕ) (s' : Limiter) (k'' : ℕ) (s'' : Limiter)
      → Spent n s' k'
      → clock k ≤ clock k'
      → take_allowance fuel clock k' s' ≡ some (k'', s'')
      → Spent (suc n) s'' k'' × (clock k ≤ clock k'')
  take_allowance-Spent fuel n k' s' k'' s'' spent from e =
      let (t, w, same) = take_allowance-wait fuel clock k' s' k'' s'' e in
      let (more, top, gained, later, latest) = wait-Waited fuel clock k' s' k'' t forward w in
      let parts = -ℤ_parts t.messages_until_rate_limit (pos 1000) in
      let m = ap (λ (x : Limiter). pos_part x.messages_until_rate_limit) same in
      let m' = ap (λ (x : Limiter). neg_part x.messages_until_rate_limit) same in
      let l : s''.last_update ≡ t.last_update = ap (λ (x : Limiter). x.last_update) same in
      (
        inr (elim spent [
          | inl first ↦ (omega arith, omega arith, omega arith)
          | inr so_far ↦ (omega arith, omega arith, omega arith)
        ]),
        omega arith,
      )

  written-Spent :
      {n : ℕ} {s' : Limiter} {k' : ℕ}
      → Written clock s k n s' k'
      → Spent n s' k' × (clock k ≤ clock k')
  written-Spent nothing = (inl refl, omega arith)
  written-Spent (idle {n} {s'} {k'} w) =
      let (spent, from) = written-Spent w in
      let next = forward k' in
      (elim spent [ inl e ↦ inl e | inr (a, b, c) ↦ inr (a, b, omega arith) ], omega arith)
  written-Spent (command {n} {s'} {s''} {k'} {k''} fuel w e) =
      let (spent, from) = written-Spent w in take_allowance-Spent fuel n k' s' k'' s'' spent from e

  -- In a stretch of time in which the clock does not go back, from any state of the limiter, at most
  -- 60 commands are written, and one more for every second from the start of the stretch to its end.
  pub written_bound :
      (n : ℕ) (s' : Limiter) (k' : ℕ)
      → Written clock s k n s' k'
      → n * 1000 + clock k ≤ 60000 + clock k'
  written_bound n s' k' w =
      let (spent, from) = written-Spent w in
      elim spent [ inl none_yet ↦ omega arith | inr spent ↦ omega arith ]
