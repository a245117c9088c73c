-- ===== src/Distance/Tests.antt =====
-- The theorems on distances at concrete texts.
use forestfire.Prelude.{ℕ, ◌≤◌, String, List, [], ◌∷◌, ◌≡◌, refl, contains, string_eq, true}
use forestfire.Prelude.Exec.{ok}
use forestfire.Distance.{levenshtein, levenshtein_norm, match}
use forestfire.Distance.Edits.{Edit}
use forestfire.Distance.Laws
use forestfire.Distance.Laws.{count}
use forestfire.Distance.Closest
use forestfire.Distance.Closest.{All, NoCloser}
use forestfire.Prelude.{codes}

levenshtein-IsLeast_example :
    (d : ℕ) × (levenshtein "kitten" "sitting" ≡ ok d)
    × Edit (codes "kitten") (codes "sitting") 6 7 d
    × ((n : ℕ) → Edit (codes "kitten") (codes "sitting") 6 7 n → d ≤ n)
levenshtein-IsLeast_example = Laws.levenshtein-IsLeast "kitten" "sitting"

abbrev commands : List String
commands = "help" ∷ "ping" ∷ "pong" ∷ []

match_pnig : match "pinh" commands ≡ ok (record { num = 1; den = 4 }, "ping")
unfolding match
match_pnig = refl

match_closest_example :
    (contains commands "ping" ≡ true)
    × (levenshtein_norm "pinh" "ping" ≡ ok (record { num = 1; den = 4 }))
    × All (NoCloser "pinh" (record { num = 1; den = 4 })) commands
match_closest_example =
    Closest.match_closest "pinh" commands (record { num = 1; den = 4 }) "ping" match_pnig
