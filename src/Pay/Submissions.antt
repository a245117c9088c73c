-- ===== src/Pay/Submissions.antt =====
-- How often a program submits a transaction: a family of programs that submit none, and one of
-- programs that submit at most one, each with a rule for every way to put programs together.
use forestfire.Prelude.{
  ◌⊎◌, ℕ, suc, ◌+◌, ◌≤◌, String, Bool, true, false, some, List, [], ◌∷◌, if◌then◌else◌, ◌==◌,
  string_eq, nat_eq, ◌≡◌, refl, ◌∙◌, ap, arith, Bool-cases, inl, inr,
}
use forestfire.Prelude.Exec.{Exc, Result, ok, err}
use forestfire.Value.{Value, Fields, Items, nil, cons}
use forestfire.Pay.{
  Calls, pure, raise, lift, modify, ◌>>=◌, Event, World, Outside, full_service, ask, tell,
}
use forestfire.Pay.Mobster.{
  req, req_, fsr_get_accounts, account_map, find_account, get_account, pick_account, has_id,
}

abbrev pub is_submission : Event → Bool
is_submission (full_service method params) = method == "submit_transaction"
is_submission _ = false

abbrev pub submissions : List Event → ℕ
submissions [] = 0
submissions (e ∷ es) = let rest = submissions es in if is_submission e then suc rest else rest

pub record Quiet {A : Type 0} (m : Calls A) : Type 0 where
  pub same : (s : World) → submissions (m s).1.events ≡ submissions s.events

pub record Once {A : Type 0} (m : Calls A) : Type 0 where
  pub one : (s : World) → submissions (m s).1.events ≤ submissions s.events + 1

module _ {A : Type 0} where
  pub lift-Quiet : (r : Result A) → Quiet (lift r)
  lift-Quiet r = unfold lift in record { same = λ s. refl }

  pub pure-Quiet : (a : A) → Quiet (pure a)
  pure-Quiet a = unfold pure in record { same = λ s. refl }

  pub raise-Quiet : (e : Exc) → Quiet (raise {A = A} e)
  raise-Quiet e = unfold raise in record { same = λ s. refl }

  pub Quiet-Once : (m : Calls A) → Quiet m → Once m
  Quiet-Once m q = record { one = λ s. let e = q.same s in omega arith }

  pub if-Quiet : (b : Bool) (m k : Calls A) → Quiet m → Quiet k → Quiet (if b then m else k)
  if-Quiet true m k p q = p
  if-Quiet false m k p q = q

  pub if-Once : (b : Bool) (m k : Calls A) → Once m → Once k → Once (if b then m else k)
  if-Once true m k p q = p
  if-Once false m k p q = q

module _ {A B : Type 0} (m : Calls A) (f : A → Calls B) where
  pub bind-Quiet : Quiet m → ((a : A) → Quiet (f a)) → Quiet (m >>= f)
  bind-Quiet p q = unfold ◌>>=◌ in record { same = λ s. go (m s) s (p.same s) }
    where
      go :
          (r : Result A × World) (s : World)
          → submissions r.1.events ≡ submissions s.events
          → submissions
              (elim r.0 as (λ x. Result B × World) [
                | ok a ↦ f a r.1
                | err e ↦ (err e, r.1)
              ]).1.events
            ≡ submissions s.events
      go (ok a, t) s h = let e = (q a).same t in e ∙ h
      go (err e, t) s h = h

  pub after-Once : Quiet m → ((a : A) → Once (f a)) → Once (m >>= f)
  after-Once p q = unfold ◌>>=◌ in record { one = λ s. go (m s) s (p.same s) }
    where
      go :
          (r : Result A × World) (s : World)
          → submissions r.1.events ≡ submissions s.events
          → submissions
              (elim r.0 as (λ x. Result B × World) [
                | ok a ↦ f a r.1
                | err e ↦ (err e, r.1)
              ]).1.events
            ≤ submissions s.events + 1
      go (ok a, t) s h = let e = (q a).one t in omega arith
      go (err e, t) s h = omega arith

  pub before-Once : Once m → ((a : A) → Quiet (f a)) → Once (m >>= f)
  before-Once p q = unfold ◌>>=◌ in record { one = λ s. go (m s) s (p.one s) }
    where
      go :
          (r : Result A × World) (s : World)
          → submissions r.1.events ≤ submissions s.events + 1
          → submissions
              (elim r.0 as (λ x. Result B × World) [
                | ok a ↦ f a r.1
                | err e ↦ (err e, r.1)
              ]).1.events
            ≤ submissions s.events + 1
      go (ok a, t) s h = let e = (q a).same t in omega arith
      go (err e, t) s h = h

module _ (out : Outside) where
  pub ask-Quiet : (e : Event) → is_submission e ≡ false → Quiet (ask out e)
  ask-Quiet e h = unfold ask in record { same = λ s. rw h refl }

  pub ask-Once : (e : Event) → Once (ask out e)
  ask-Once e = unfold ask in record { one = λ s. ground arith }

  pub tell-Quiet : (e : Event) → is_submission e ≡ false → Quiet (tell e)
  tell-Quiet e h = unfold tell in record { same = λ s. rw h refl }

  pub req_-Quiet :
      (method : String) (params : Fields)
      → (method == "submit_transaction") ≡ false
      → Quiet (req_ out method params)
  unfolding req_ req pure lift
  req_-Quiet method params h =
      bind-Quiet _ _ (ask-Quiet (full_service method (some params)) h)
        λ result. bind-Quiet _ _ (lift-Quiet _) λ failed. lift-Quiet (ok result)

  pub accounts-Quiet : Quiet (fsr_get_accounts out)
  unfolding fsr_get_accounts req
  accounts-Quiet = ask-Quiet _ refl

  pub account_map-Quiet : (xs : Items) → Quiet (account_map out xs)
  unfolding account_map pure lift
  account_map-Quiet nil = lift-Quiet (ok [])
  account_map-Quiet (cons x xs) =
      let ih = account_map-Quiet xs in
      bind-Quiet _ _ accounts-Quiet λ accounts. bind-Quiet _ _ (lift-Quiet _) λ result.
        bind-Quiet _ _ (lift-Quiet _) λ map. bind-Quiet _ _ (lift-Quiet _) λ key.
          bind-Quiet _ _ (lift-Quiet _)
            λ account. bind-Quiet _ _ ih λ rest. pure-Quiet (account ∷ rest)

  pub modify-Quiet :
      (f : World → World) → ((s : World) → (f s).events ≡ s.events) → Quiet (modify f)
  modify-Quiet f h = unfold modify in record { same = λ s. ap submissions (h s) }

  pub pick-Quiet : (v : Value) (ids : List Value) → Quiet (pick_account out v ids)
  unfolding pick_account
  pick-Quiet v [] = lift-Quiet _
  pick-Quiet v (i ∷ ids) = pure-Quiet i

  pub find_account-Quiet : Quiet (find_account out)
  unfolding find_account
  find_account-Quiet = bind-Quiet _ _ accounts-Quiet λ accounts.
      bind-Quiet _ _ (lift-Quiet _) λ result. bind-Quiet _ _ (lift-Quiet _) λ account_ids.
        bind-Quiet _ _ (lift-Quiet _) λ xs. bind-Quiet _ _ (account_map-Quiet xs) λ found.
          bind-Quiet _ _ (lift-Quiet _) λ ids.
            bind-Quiet _ _ (pick-Quiet account_ids ids)
              λ account_id. bind-Quiet _ _ (modify-Quiet _ (λ s. refl)) λ _. pure-Quiet account_id

  pub get_account-Quiet : Quiet (get_account out)
  unfolding get_account
  get_account-Quiet = record { same = λ s. known s (Bool-cases (has_id out s.account_id)) }
    where
      known :
          (s : World)
          → ((has_id out s.account_id ≡ true) ⊎ (has_id out s.account_id ≡ false))
          → submissions (get_account out s).1.events ≡ submissions s.events
      known s (inl e) = rw (get_account, e) refl
      known s (inr e) = rw (get_account, e) (find_account-Quiet.same s)
