-- ===== src/Signal/Limit/Update.antt =====
-- What one look at the clock makes of the allowance.
use forestfire.Prelude.{
  ap, ◌∙◌, ℕ, ◌+◌, ◌≤◌, ◌<◌, true, false, Bool, ◌≡◌, refl, arith, Bool-cases, inl, inr,
  if◌then◌else◌,
}
use forestfire.Prelude.Int.{ℤ, pos, pos_part, neg_part, ltb_ℤ, ◌-ℤ◌, +ℤ_parts, -ℤ_parts}
use forestfire.Signal.Limit.{Limiter, update_and_check_rate_limit, earned, capped}

abbrev pub after : ℕ → Limiter → Limiter
after now s = (update_and_check_rate_limit now s).1

pub after_update : (now : ℕ) (s : Limiter) → (after now s).last_update ≡ now
unfolding update_and_check_rate_limit
after_update now s = refl

after_allowance :
    (now : ℕ) (s : Limiter) → (after now s).messages_until_rate_limit ≡ capped (earned now s)
unfolding update_and_check_rate_limit
after_allowance now s = refl

capped_bound :
    (a : ℤ)
    → (pos_part (capped a) ≤ 60000 + neg_part (capped a))
      × (pos_part (capped a) + neg_part a ≤ neg_part (capped a) + pos_part a)
capped_bound a = elim (Bool-cases (ltb_ℤ (pos 60000) a)) [
  | inl e ↦ rw e (omega arith, ground arith)
  | inr e ↦ rw e (ground arith, omega arith)
]

pub earned_parts :
    (now : ℕ) (s : Limiter)
    → pos_part (earned now s) + neg_part s.messages_until_rate_limit + s.last_update
      ≡ neg_part (earned now s) + pos_part s.messages_until_rate_limit + now
earned_parts now s =
    let sum = +ℤ_parts s.messages_until_rate_limit (pos now -ℤ pos s.last_update) in
    let difference = -ℤ_parts (pos now) (pos s.last_update) in omega arith

-- What the update leaves of the allowance: never more than the time that went by has earned.
pub after_bound :
    (now : ℕ) (s : Limiter)
    → let m = (after now s).messages_until_rate_limit in
      (pos_part m ≤ 60000 + neg_part m)
      × (pos_part m + neg_part s.messages_until_rate_limit + s.last_update
          ≤ neg_part m + pos_part s.messages_until_rate_limit + now)
after_bound now s =
    let (cap, less) = capped_bound (earned now s) in
    let parts = earned_parts now s in rw (after_allowance now s) (cap, omega arith)

pub free_allowance :
    (now : ℕ) (s : Limiter)
    → (update_and_check_rate_limit now s).0 ≡ true
    → let m = (after now s).messages_until_rate_limit in 1000 + neg_part m < pos_part m
unfolding update_and_check_rate_limit
free_allowance now s h = ground arith

busy_bound :
    (a : ℤ)
    → ltb_ℤ (pos 1000) (capped a) ≡ false
    → (capped a ≡ a) × (pos_part a ≤ 1000 + neg_part a)
busy_bound a h = elim (Bool-cases (ltb_ℤ (pos 60000) a)) [
  | inl e ↦ absurd (full (rw e at h))
  | inr e ↦ let same : capped a ≡ a = ap (λ b. if b then pos 60000 else a) e in (same, ground arith)
]
  where
    full : Path Bool true false → ⊥
    full h = cc

-- An allowance that is not enough is all that was earned.
pub busy_allowance :
    (now : ℕ) (s : Limiter)
    → (update_and_check_rate_limit now s).0 ≡ false
    → ((after now s).messages_until_rate_limit ≡ earned now s)
      × (pos_part (earned now s) ≤ 1000 + neg_part (earned now s))
busy_allowance now s h =
    let (same, low) = busy_bound (earned now s) (unfold update_and_check_rate_limit in h) in
    (after_allowance now s ∙ same, low)
