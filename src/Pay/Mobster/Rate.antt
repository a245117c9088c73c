-- ===== src/Pay/Mobster/Rate.antt =====
-- forest/payments_monitor.py: `get_rate` and its cache. A rate is a parameter `R`, `fetch n` is what
-- the n-th request to the exchange comes to.
use forestfire.Prelude.{
  ap, ◌∙◌, subst, ℕ, suc, Bool, true, false, Option, none, some, ◌==◌, nat_eq, if◌then◌else◌, ◌≡◌,
  refl, arith, Bool-cases, inl, inr,
}
use forestfire.Prelude.Dict.{==_refl}
use forestfire.Prelude.Exec.{
  Exc, Result, ok, err, client_error, key_error, type_error, json_decode_error,
}

pub record Rates (R : Type 0) : Type 0 where
  -- `rate_cache`
  pub cached_hour : ℕ
  pub cached_rate : Option R
  -- how often the exchange was asked
  pub fetches : ℕ

-- The exceptions after which a price is made up.
abbrev is_price_error : Exc → Bool
is_price_error client_error = true
is_price_error key_error = true
is_price_error type_error = true
is_price_error json_decode_error = true
is_price_error _ = false

module _ {R : Type 0} (fetch : ℕ → Result R) (fourteen : R) where
  store : ℕ → R → Rates R → Result R × Rates R
  store hour mob_rate s =
      (ok mob_rate, record s { cached_hour = hour; cached_rate = some mob_rate })

  fetched : ℕ → Result R → Rates R → Result R × Rates R
  unfolding store
  fetched hour (ok mob_rate) s = store hour mob_rate s
  fetched hour (err e) s = if is_price_error e then store hour fourteen s else (err e, s)

  ask_exchange : ℕ → Rates R → Result R × Rates R
  unfolding fetched
  ask_exchange hour s = fetched hour (fetch s.fetches) (record s { fetches = suc s.fetches })

  unfoldable pub get_rate : ℕ → Rates R → Result R × Rates R
  unfolding ask_exchange
  get_rate hour s = elim s.cached_rate [
    | none ↦ ask_exchange hour s
    | some mob_rate ↦ if s.cached_hour == hour then (ok mob_rate, s) else ask_exchange hour s
  ]

  served :
      (hour : ℕ) (s : Rates R) (mob_rate : R)
      → s.cached_rate ≡ some mob_rate
      → (s.cached_hour == hour) ≡ true
      → get_rate hour s ≡ (ok mob_rate, s)
  unfolding get_rate
  served hour s mob_rate h e = ground arith

  fetched-served :
      (hour : ℕ) (r : Result R) (s s' : Rates R) (mob_rate : R)
      → fetched hour r s ≡ (ok mob_rate, s')
      → get_rate hour s' ≡ (ok mob_rate, s')
  unfolding fetched
  fetched-served hour (ok m) s s' mob_rate h =
      served hour s' mob_rate (ground arith) (ground (arith, ==_refl hour))
  fetched-served hour (err e) s s' mob_rate h =
      served hour s' mob_rate (ground arith) (ground (arith, ==_refl hour))

  -- After a rate was given, the same hour is served the same rate and the exchange is not asked again.
  pub get_rate_twice :
      (hour : ℕ) (s s' : Rates R) (mob_rate : R)
      → get_rate hour s ≡ (ok mob_rate, s')
      → get_rate hour s' ≡ (ok mob_rate, s')
  unfolding get_rate ask_exchange
  get_rate_twice hour s s' mob_rate h = go s.cached_rate refl
    where
      again : ask_exchange hour s ≡ (ok mob_rate, s') → get_rate hour s' ≡ (ok mob_rate, s')
      again =
          fetched-served hour (fetch s.fetches) (record s { fetches = suc s.fetches }) s' mob_rate

      go : (c : Option R) → s.cached_rate ≡ c → get_rate hour s' ≡ (ok mob_rate, s')
      go none e = again (rw (get_rate, e) at h)
      go (some m) e = elim (Bool-cases (s.cached_hour == hour)) [
        | inl fresh ↦
            let kept : Path (Result R × Rates R) (ok m, s) (ok mob_rate, s') =
              rw (get_rate, e, fresh) at h in
            let m_eq : m ≡ mob_rate = cc in
            let s_eq : s ≡ s' = cc in
            served hour s' mob_rate
              (subst (λ t. t.cached_rate ≡ some mob_rate) s_eq (e ∙ ap some m_eq))
              (subst (λ (t : Rates R). (t.cached_hour == hour) ≡ true) s_eq fresh)
        | inr old ↦ again (rw (get_rate, e, old) at h)
      ]
