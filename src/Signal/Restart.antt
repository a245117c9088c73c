-- ===== src/Signal/Restart.antt =====
-- forest/core.py: the loop of `start_process`, which starts signal-cli again after a pause whenever it
-- exits. A run is how many seconds the process ran, and whether the bot was told to exit by then. A
-- pause is counted in half seconds.
use forestfire.Prelude.{
  ap, ◌∙◌, ◌||◌, ◌&&◌, not, ℕ, zero, suc, ◌+◌, ◌-◌, ◌≤◌, ◌*◌, List, [], ◌∷◌, Bool, true, false, ltb,
  if◌then◌else◌, ◌≡◌, refl, arith, ◌⊎◌, inl, inr, Bool-cases,
}

pub record Run : Type 0 where
  pub runtime : ℕ
  pub exiting : Bool

pub data End : Type 0 where
  -- `break`, after so many retries
  gave_up : ℕ → End
  told_to_exit : End
  -- with the count of restarts
  still_running : ℕ → End

abbrev pub max_backoff : ℕ
max_backoff = 15

-- `2 ** n`
unfoldable pub pow2 : ℕ → ℕ
pow2 zero = 1
pow2 (suc n) = 2 * pow2 n

unfoldable pub next_count : Run → ℕ → ℕ
next_count r restart_count = (if ltb (max_backoff * 4) r.runtime then 0 else restart_count) + 1

-- `0.5 * (2**restart_count - 1)`, in half seconds
unfoldable pub backoff : ℕ → ℕ
unfolding pow2
backoff restart_count = pow2 restart_count - 1

-- The pauses, and how the loop ended.
unfoldable pub start_process : List Run → ℕ → List ℕ × End
unfolding next_count backoff
start_process [] restart_count = ([], still_running restart_count)
start_process (r ∷ runs) restart_count =
    let count = next_count r restart_count in
    let (pauses, end) = start_process runs count in
    if ltb (max_backoff * 2) (backoff count)
    then ([], gave_up count)
    else if r.exiting
    then (backoff count ∷ [], told_to_exit)
    else (backoff count ∷ pauses, end)

-- A run of at most a minute.
abbrev pub is_short : Run → Bool
is_short r = not (ltb 60 r.runtime)

-- The first `n` runs are all there, and short.
abbrev pub starts_short : ℕ → List Run → Bool
starts_short zero runs = true
starts_short (suc n) [] = false
starts_short (suc n) (r ∷ runs) = let later = starts_short n runs in is_short r && later

-- Some run is followed by four short ones.
abbrev pub has_streak : List Run → Bool
has_streak [] = false
has_streak (r ∷ runs) = let later = has_streak runs in starts_short 4 runs || later

abbrev pub none_exiting : List Run → Bool
none_exiting [] = true
none_exiting (r ∷ runs) = let later = none_exiting runs in not r.exiting && later

abbrev pub is_gave_up : End → Bool
is_gave_up (gave_up n) = true
is_gave_up _ = false

backoff_small : (c : ℕ) → c ≤ 4 → backoff c ≤ 15
unfolding backoff
backoff_small zero h = omega arith
backoff_small (suc zero) h = omega arith
backoff_small (suc (suc zero)) h = omega arith
backoff_small (suc (suc (suc zero))) h = omega arith
backoff_small (suc (suc (suc (suc zero)))) h = omega arith
backoff_small (suc (suc (suc (suc (suc c))))) h = absurd (omega arith)

backoff_five : ltb 30 (backoff 5) ≡ true
unfolding backoff
backoff_five = refl

-- The loop, as long as it goes on.
start_process_on :
    (r : Run) (runs : List Run) (c : ℕ)
    → next_count r c ≤ 4
    → r.exiting ≡ false
    → (start_process (r ∷ runs) c).1 ≡ (start_process runs (next_count r c)).1
unfolding start_process
start_process_on r runs c small on =
    let pause = backoff_small (next_count r c) small in
    let short_pause : ltb 30 (backoff (next_count r c)) ≡ false = ground arith in
    rw (short_pause, on) refl

start_process_five :
    (r : Run) (runs : List Run) (c : ℕ)
    → next_count r c ≡ 5
    → is_gave_up (start_process (r ∷ runs) c).1 ≡ true
unfolding start_process
start_process_five r runs c five = rw (five, backoff_five) refl

starts_short-le :
    (n m : ℕ) (runs : List Run) → n ≤ m → starts_short m runs ≡ true → starts_short n runs ≡ true
starts_short-le zero m runs h all = refl
starts_short-le (suc n) zero runs h all = absurd (omega arith)
starts_short-le (suc n) (suc m) [] h all = all
starts_short-le (suc n) (suc m) (r ∷ runs) h all =
    ground (arith, starts_short-le n m runs (omega arith))

absorb : (a b z : Bool) → (b ≡ true → a ≡ true) → a || z ≡ a || (b || z)
absorb a b z h = ground arith

next_count_short : (r : Run) (c : ℕ) → is_short r ≡ true → next_count r c ≡ suc c
unfolding next_count
next_count_short r c h = ground arith

next_count_long : (r : Run) (c : ℕ) → is_short r ≡ false → next_count r c ≡ 1
unfolding next_count
next_count_long r c h = ground arith

gives_up_from :
    (runs : List Run) (c : ℕ)
    → c ≤ 4
    → none_exiting runs ≡ true
    → is_gave_up (start_process runs c).1 ≡ starts_short (5 - c) runs || has_streak runs
gives_up_from [] c h on =
    let positive : 5 - c ≡ suc (4 - c) = omega arith in unfold start_process in rw positive refl
gives_up_from (r ∷ runs) c h on =
    let positive : 5 - c ≡ suc (4 - c) = omega arith in
    let here : r.exiting ≡ false = ground arith in
    let later : none_exiting runs ≡ true = ground arith in
    elim (Bool-cases (is_short r)) [
      | inr long ↦
          let one = next_count_long r c long in
          let ih = gives_up_from runs 1 (omega arith) later in
          rw (start_process_on r runs c (omega arith) here, one, positive, long) ih
      | inl short ↦ elim (le_or_eq c h) [
        | inl small ↦
            let next = next_count_short r c short in
            let ih = gives_up_from runs (suc c) small later in
            let less : 5 - suc c ≡ 4 - c = omega arith in
            let all = starts_short-le (4 - c) 4 runs (omega arith) in
            rw (start_process_on r runs c (omega arith) here, next, positive, short)
              ((rw less at ih)
                ∙ absorb (starts_short (4 - c) runs) (starts_short 4 runs) (has_streak runs) all)
        | inr four ↦
            let five : next_count r c ≡ 5 = next_count_short r c short ∙ ap suc four in
            rw (start_process_five r runs c five, positive, four, short) refl
      ]
    ]
  where
    le_or_eq : (n : ℕ) → n ≤ 4 → (suc n ≤ 4) ⊎ (n ≡ 4)
    le_or_eq n h = omega arith

-- If nobody tells it to exit, the loop gives up exactly when some run of signal-cli has been
-- followed by four runs of at most a minute each.
pub start_process-gives_up :
    (runs : List Run)
    → none_exiting runs ≡ true
    → is_gave_up (start_process runs 0).1 ≡ has_streak runs
start_process-gives_up runs on = gives_up_from runs 0 (omega arith) on ∙ five_is_streak runs
  where
    five_is_streak : (rs : List Run) → starts_short 5 rs || has_streak rs ≡ has_streak rs
    five_is_streak [] = refl
    five_is_streak (r ∷ rs) = ground arith
