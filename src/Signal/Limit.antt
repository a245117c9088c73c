-- ===== src/Signal/Limit.antt =====
-- forest/core.py: `update_and_check_rate_limit`, and how `write_commands` waits before it writes a
-- command. A time is in milliseconds, and so is the allowance, of which a command takes 1000. The
-- clock is a parameter: `clock k` is what `time.time()` reads at the k-th look, whose two calls are
-- taken as one. The clock may be behind the last update, and the allowance below zero.
pub mod Laws
pub mod Update
use forestfire.Prelude.{ℕ, zero, suc, ◌+◌, ◌/◌, Bool, Option, none, some, if◌then◌else◌}
use forestfire.Prelude.Int.{ℤ, pos, neg_part, ◌+ℤ◌, ◌-ℤ◌, ltb_ℤ}

pub record Limiter : Type 0 where
  pub messages_until_rate_limit : ℤ
  pub last_update : ℕ

-- `self.messages_until_rate_limit + elapsed * rate`
abbrev pub earned : ℕ → Limiter → ℤ
earned now s = s.messages_until_rate_limit +ℤ (pos now -ℤ pos s.last_update)

-- `min(allowance, 60)`
abbrev pub capped : ℤ → ℤ
capped allowance = if ltb_ℤ (pos 60000) allowance then pos 60000 else allowance

-- `self.messages_until_rate_limit` and `self.last_update`, with what the method returns
unfoldable pub update_and_check_rate_limit : ℕ → Limiter → Bool × Limiter
update_and_check_rate_limit now s =
    let allowed = capped (earned now s) in
    (ltb_ℤ (pos 1000) allowed, record { messages_until_rate_limit = allowed; last_update = now })

-- `while not self.update_and_check_rate_limit(): await asyncio.sleep(1)`, with the number of the
-- next look at the clock.
unfoldable pub wait : ℕ → (ℕ → ℕ) → ℕ → Limiter → Option (ℕ × Limiter)
unfolding update_and_check_rate_limit
wait zero clock k s = none
wait (suc fuel) clock k s =
    let (free, s') = update_and_check_rate_limit (clock k) s in
    let later = wait fuel clock (suc k) s' in if free then some (suc k, s') else later

-- `self.messages_until_rate_limit -= 1`
abbrev paid : Limiter → Limiter
paid s = record s { messages_until_rate_limit = s.messages_until_rate_limit -ℤ pos 1000 }

-- The part of `write_commands` between two commands: wait, and take the command's allowance.
unfoldable pub take_allowance : ℕ → (ℕ → ℕ) → ℕ → Limiter → Option (ℕ × Limiter)
unfolding wait
take_allowance fuel clock k s = elim (wait fuel clock k s) [
  | none ↦ none
  | some (k', s') ↦ some (k', paid s')
]

-- The looks at the clock that are enough: three, and one for every second that the allowance is below
-- zero at the first one.
abbrev pub looks : ℕ → Limiter → ℕ
looks now s = suc (2 + neg_part (earned now s) / 1000)
