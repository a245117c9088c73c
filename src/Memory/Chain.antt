-- ===== src/Memory/Chain.antt =====
-- What a chain of quotes is, apart from the search that finds it, and how many messages one can hold.
use forestfire.Prelude.{
  ℕ, ◌+◌, ◌<◌, ◌≤◌, String, false, Option, none, some, List, [], ◌∷◌, ◌==◌, nat_eq, string_eq, ltb,
  ◌≡◌, ◌⊎◌, inl, inr, Bool-cases, arith, if◌then◌else◌, ◌≢◌,
}
use forestfire.Prelude.Int.{pos}
use forestfire.Prelude.Exec.{Result, ok, err}
use forestfire.Prelude.Dict
use forestfire.Prelude.Dict.{Dict}
use forestfire.Value.{Value, int, list, Items, nil, cons, is_true}
use forestfire.Value.Access.{item}
use forestfire.Memory.{get_user_id, quote_ts}

-- `o` is the first message of the time `t`.
pub data FirstOf (t : ℕ) : Items → Value → Type 0 where
  here :
      {o : Value} {more : Items} → item o "timestamp" ≡ ok (int (pos t)) → FirstOf t (cons o more) o
  later :
      {o p : Value} {more : Items} (n : ℕ)
      → item p "timestamp" ≡ ok (int (pos n))
      → n ≢ t
      → FirstOf t more o
      → FirstOf t (cons p more) o

-- No message is of the time `t`.
abbrev pub NoneOf : ℕ → Items → Type 0
NoneOf t nil = Unit
NoneOf t (cons o more) = ¬ (item o "timestamp" ≡ ok (int (pos t))) × NoneOf t more

-- Nothing of the time `t` is kept for the user.
abbrev pub Missing : Dict String Value → String → ℕ → Type 0
Missing d user t =
    (Dict.get d user ≡ none) ⊎ ((vs : Items) × (Dict.get d user ≡ some (list vs)) × NoneOf t vs)

-- A message, the one that it quotes, the one that this quotes, and so on, to one that quotes none or
-- quotes one that is not kept.
pub data IsChain (d : Dict String Value) : Value → List Value → Type 0 where
  quotes_none : {msg q : Value} → quote_ts msg ≡ ok q → is_true q ≡ false → IsChain d msg (msg ∷ [])
  quotes_lost :
      {msg : Value} (t : ℕ) (user : String)
      → quote_ts msg ≡ ok (int (pos t))
      → get_user_id msg ≡ ok user
      → Missing d user t
      → IsChain d msg (msg ∷ [])
  quotes :
      {msg o : Value} {rest : List Value} (t : ℕ) (user : String) (vs : Items)
      → quote_ts msg ≡ ok (int (pos t))
      → get_user_id msg ≡ ok user
      → Dict.get d user ≡ some (list vs)
      → FirstOf t vs o
      → IsChain d o rest
      → IsChain d msg (msg ∷ rest)

abbrev is_before : ℕ → Result Value → ℕ
is_before n (ok (int (pos t))) = if ltb t n then 1 else 0
is_before n _ = 0

abbrev before : ℕ → Items → ℕ
before n nil = 0
before n (cons o more) = is_before n (item o "timestamp") + before n more

abbrev history_before : ℕ → Value → ℕ
history_before n (list vs) = before n vs
history_before n _ = 0

-- The number of messages in memory that are of a time before `n`.
abbrev pub kept_before : ℕ → Dict String Value → ℕ
kept_before n [] = 0
kept_before n ((user, history) ∷ d) = history_before n history + kept_before n d

is_before_mono : (t n : ℕ) (r : Result Value) → t < n → is_before t r ≤ is_before n r
is_before_mono t n (ok (int (pos m))) h = ground arith
is_before_mono t n (ok other) h = omega arith
is_before_mono t n (err e) h = omega arith

before_mono : (t n : ℕ) (vs : Items) → t < n → before t vs ≤ before n vs
before_mono t n nil h = omega arith
before_mono t n (cons o more) h =
    let head = is_before_mono t n (item o "timestamp") h in
    let rest = before_mono t n more h in omega arith

first_before :
    (t n : ℕ) {vs : Items} {o : Value} → FirstOf t vs o → t < n → before t vs < before n vs
first_before t n (here {o} {more} e) h = let rest = before_mono t n more h in rw e (ground arith)
first_before t n (later {p} m e other f) h =
    let rest = first_before t n f h in
    let head = is_before_mono t n (item p "timestamp") h in omega arith

history_before_mono : (t n : ℕ) (v : Value) → t < n → history_before t v ≤ history_before n v
history_before_mono t n (list vs) h = before_mono t n vs h
history_before_mono t n other h = omega arith

kept_before_mono : (t n : ℕ) (d : Dict String Value) → t < n → kept_before t d ≤ kept_before n d
kept_before_mono t n [] h = omega arith
kept_before_mono t n ((user, v) ∷ d) h =
    let rest = kept_before_mono t n d h in let head = history_before_mono t n v h in omega arith

-- Before a message of the time `t` there are fewer than before a later time.
pub kept_before_first :
    (t n : ℕ) (d : Dict String Value) (user : String) {vs : Items} {o : Value}
    → Dict.get d user ≡ some (list vs)
    → FirstOf t vs o
    → t < n
    → kept_before t d < kept_before n d
unfolding Dict.get
kept_before_first t n [] user found f h = cc
kept_before_first t n ((user', v) ∷ d) user {vs} found f h = elim (Bool-cases (user' == user)) [
  | inl alike ↦
      let same : v ≡ list vs = value_of (rw alike at found) in
      let fewer : history_before t v < history_before n v = rw same (first_before t n f h) in
      let rest = kept_before_mono t n d h in omega arith
  | inr differ ↦
      let rest = kept_before_first t n d user (rw differ at found) f h in
      let head = history_before_mono t n v h in omega arith
]
  where
    value_of : Path (Option Value) (some v) (some (list vs)) → v ≡ list vs
    value_of e = cc
