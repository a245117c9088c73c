-- ===== src/Memory/Search.antt =====
-- The search of `quote_chain` for the message that one quotes.
use forestfire.Prelude.{
  subst, ℕ, ◌<◌, String, true, false, Option, none, some, ◌==◌, nat_eq, string_eq, ◌≡◌, ◌≢◌, refl,
  sym, ◌∙◌, ◌⊎◌, inl, inr, Bool-cases, arith,
}
use forestfire.Prelude.Int.{pos}
use forestfire.Prelude.Exec.{Result, ok, err, bind, is_ok}
use forestfire.Prelude.Dict
use forestfire.Value.{Value, int, list, dict, Items, nil, cons, end, field, find, is_true, same}
use forestfire.Value.Access.{item}
use forestfire.Persist.{get, KvClient, PersistDict}
use forestfire.Memory.Chain.{FirstOf, NoneOf, Missing}
use forestfire.Memory.{
  find_message, message_in, get_user_id, get_user_history, get_user_message, quote_ts, true_or_none,
  message_of_user,
}

-- A time before `n`.
abbrev pub Before : Value → ℕ → Type 0
Before (int (pos t)) n = t < n
Before _ n = ⊥

-- A message of the time `n` whose quote, if it has one, is of an earlier time.
pub record Dated (n : ℕ) (o : Value) : Type 0 where
  pub quote : Value
  pub dated : item o "timestamp" ≡ ok (int (pos n))
  pub quotes : quote_ts o ≡ ok quote
  pub earlier : (is_true quote ≡ false) ⊎ Before quote n

pub record Timed (o : Value) : Type 0 where
  pub time : ℕ
  pub is_dated : Dated time o

-- Each message has its time, and quotes an earlier one at most.
abbrev pub AllDated : Items → Type 0
AllDated nil = Unit
AllDated (cons o more) = Timed o × AllDated more

abbrev pub ListDated : Value → Type 0
ListDated (list vs) = AllDated vs
ListDated _ = ⊥

abbrev pub Histories : Dict.Dict String Value → Type 0
Histories d = (user : String) (v : Value) → Dict.get d user ≡ some v → ListDated v

-- What a search for the time `t` in a history may come to.
abbrev Found : ℕ → Items → Result (Option Value) → Type 0
Found t vs (ok none) = NoneOf t vs
Found t vs (ok (some o)) = FirstOf t vs o × Dated t o
Found t vs (err e) = ⊥

same_time : (m n : ℕ) → same (int (pos m)) (int (pos n)) ≡ (m == n)
unfolding same
same_time m n = refl

nat_path : {m n : ℕ} → (m == n) ≡ true → m ≡ n
nat_path {m} {n} h = (nat_eq.eqb_iff m n).0 h

nat_differ : {m n : ℕ} → (m == n) ≡ false → m ≢ n
nat_differ {m} {n} h e = apart (sym h ∙ (nat_eq.eqb_iff m n).1 e)
  where
    apart : false ≡ true → ⊥
    apart h = cc

no_time :
    {m n : ℕ} (o : Value)
    → item o "timestamp" ≡ ok (int (pos m))
    → m ≢ n
    → item o "timestamp" ≡ ok (int (pos n))
    → ⊥
no_time {m} {n} o h differ e =
    let same : Path (Result Value) (ok (int (pos m))) (ok (int (pos n))) = sym h ∙ e in
    let m_eq : m ≡ n = cc in differ m_eq

skipped :
    (t n : ℕ) (o : Value) (more : Items) (r : Result (Option Value))
    → item o "timestamp" ≡ ok (int (pos n))
    → n ≢ t
    → Found t more r
    → Found t (cons o more) r
skipped t n o more (ok none) h differ f = (no_time o h differ, f)
skipped t n o more (ok (some p)) h differ f = (FirstOf.later n h differ f.0, f.1)
skipped t n o more (err e) h differ f = elim f [ ]

find_message-Found : (t : ℕ) (vs : Items) → AllDated vs → Found t vs (find_message (int (pos t)) vs)
unfolding find_message
find_message-Found t nil a = tt
find_message-Found t (cons o more) a = elim (Bool-cases (a.0.time == t)) [
  | inl e ↦
      let dated : Dated t o = subst (λ n. Dated n o) (nat_path e) a.0.is_dated in
      rw (a.0.is_dated.dated, same_time a.0.time t, e) (FirstOf.here dated.dated, dated)
  | inr e ↦
      rw (a.0.is_dated.dated, same_time a.0.time t, e)
        (skipped t a.0.time o more (find_message (int (pos t)) more) a.0.is_dated.dated
          (nat_differ e) (find_message-Found t more a.1))
]

Dated-is_true : (t : ℕ) (o : Value) → Dated t o → is_true o ≡ true
unfolding item find
Dated-is_true t o d = go o d.dated
  where
    go : (o : Value) → item o "timestamp" ≡ ok (int (pos t)) → is_true o ≡ true
    go (dict end) h = cc
    go (dict (field k v fs)) h = refl
    go other h = cc

module _ (kv : KvClient) where
  abbrev Object : Type 0
  Object = PersistDict kv.Backend

  -- What a search in the memory of a user may come to.
  abbrev pub Located : ℕ → Dict.Dict String Value → String → Result (Option Value) → Type 0
  Located t d user (ok none) = Missing d user t
  Located t d user (ok (some o)) =
      (vs : Items) × (Dict.get d user ≡ some (list vs)) × FirstOf t vs o × Dated t o
  Located t d user (err e) = ⊥

  kept-Located :
      (t : ℕ) (d : Dict.Dict String Value) (user : String) (vs : Items) (r : Result (Option Value))
      → Dict.get d user ≡ some (list vs)
      → Found t vs r
      → Located t d user (bind r λ blob. ok (true_or_none kv blob))
  kept-Located t d user vs (ok none) e f = inr (vs, e, f)
  kept-Located t d user vs (ok (some o)) e f = rw (Dated-is_true t o f.1) (vs, e, f.0, f.1)
  kept-Located t d user vs (err x) e f = elim f [ ]

  message_in-Located :
      (t : ℕ) (d : Dict.Dict String Value) (user : String) (v : Value)
      → Dict.get d user ≡ some v
      → ListDated v
      → Located t d user (message_in kv (int (pos t)) (true_or_none kv (some v)))
  unfolding message_in
  message_in-Located t d user (list nil) e a = inr (nil, e, tt)
  message_in-Located t d user (list (cons o more)) e a =
      kept-Located t d user (cons o more) (find_message (int (pos t)) (cons o more)) e
        (find_message-Found t (cons o more) a)
  message_in-Located t d user other e a = elim a [ ]

  get_user_id-ok : (o v : Value) → item o "timestamp" ≡ ok v → is_ok (get_user_id o) ≡ true
  unfolding item get_user_id
  get_user_id-ok (dict fs) v h = refl
  get_user_id-ok other v h = cc

  get_user_history-eq :
      (user : String) (s : Object)
      → s.init_task ≡ ok tt
      → get_user_history kv user s ≡ (ok (true_or_none kv (Dict.get s.dict_ user)), s)
  unfolding get_user_history get
  get_user_history-eq user s init = ground arith

  message_of_user-eq :
      (user : String) (timestamp : Value) (s : Object)
      → s.init_task ≡ ok tt
      → message_of_user kv user timestamp s
        ≡ (message_in kv timestamp (true_or_none kv (Dict.get s.dict_ user)), s)
  unfolding get_user_history message_in
  message_of_user-eq user timestamp s init = simp (get_user_history-eq user s init)

  get_user_message-eq :
      (user : String) (msg timestamp : Value) (s : Object)
      → get_user_id msg ≡ ok user
      → get_user_message kv msg timestamp s ≡ message_of_user kv user timestamp s
  unfolding get_user_message
  get_user_message-eq user msg timestamp s h = simp h

  lookup-Located :
      (t : ℕ) (user : String) (d : Dict.Dict String Value)
      → Histories d
      → Located t d user (message_in kv (int (pos t)) (true_or_none kv (Dict.get d user)))
  unfolding message_in
  lookup-Located t user d h = go (Dict.get d user) refl
    where
      go :
          (v : Option Value)
          → Dict.get d user ≡ v
          → Located t d user (message_in kv (int (pos t)) (true_or_none kv (Dict.get d user)))
      go none e = rw e (inl e)
      go (some v) e = rw e (message_in-Located t d user v e (h user v e))

  -- The search for the quoted message returns, and changes nothing.
  pub get_user_message-Located :
      (t : ℕ) (msg v : Value) (s : Object)
      → s.init_task ≡ ok tt
      → Histories s.dict_
      → item msg "timestamp" ≡ ok v
      → (user : String) × (r : Result (Option Value)) × (get_user_id msg ≡ ok user)
        × (get_user_message kv msg (int (pos t)) s ≡ (r, s))
        × Located t s.dict_ user r
  get_user_message-Located t msg v s init h dated =
      go (get_user_id msg) refl (get_user_id-ok msg v dated)
    where
      go :
          (user : Result String)
          → get_user_id msg ≡ user
          → is_ok user ≡ true
          → (user : String) × (r : Result (Option Value)) × (get_user_id msg ≡ ok user)
            × (get_user_message kv msg (int (pos t)) s ≡ (r, s))
            × Located t s.dict_ user r
      go (err e) same_user fine = cc
      go (ok user) same_user fine = (
        user,
        message_in kv (int (pos t)) (true_or_none kv (Dict.get s.dict_ user)),
        same_user,
        get_user_message-eq user msg (int (pos t)) s same_user
            ∙ message_of_user-eq user (int (pos t)) s init,
        lookup-Located t user s.dict_ h,
      )
