-- ===== src/Pay/Mobster/Tests.antt =====
-- `get_rate` at an exchange that fails, in the hour 5.
use forestfire.Prelude.{ℕ, none, some, ◌≡◌, refl}
use forestfire.Prelude.Exec.{Result, ok, err, key_error}
use forestfire.Pay.Mobster.Rate.{Rates, get_rate}

abbrev fails : ℕ → Result ℕ
fails n = err key_error

abbrev first : Rates ℕ
first = record { cached_hour = 0; cached_rate = none; fetches = 0 }

abbrev cached : Rates ℕ
cached = record { cached_hour = 5; cached_rate = some 14; fetches = 1 }

priced : get_rate fails 14 5 first ≡ (ok 14, cached)
unfolding get_rate
priced = refl
