-- ===== src/Prelude/Strings.antt =====
-- Python's methods of `str` that the program calls, over the characters of the native `String`.
use Prim.Native.Char.{code}
use Prim.Native.Nat.{◌%◌, ◌/◌, suc, ℕ}
use Prim.Native.String.{String}
use Prim.Native.String
use mathlib.Core.Bool.{Bool, true, false, ◌&&◌, ◌||◌}
use mathlib.Core.List.{List, [], ◌∷◌}
use forestfire.Prelude.Tests.{leb, ◌==◌, nat_eq, if◌then◌else◌}
use forestfire.Prelude.Lists.{get_or}

-- The code points of a text.
abbrev pub codes : String → List ℕ
codes String.[] = []
codes (String.◌∷◌ c s) = code c ∷ codes s

-- `s + t`
infixr 65 ◌&◌
abbrev pub ◌&◌ : String → String → String
s & t = String.◌++◌ s t

-- Truth of a text: `bool(s)`.
abbrev pub truthy : String → Bool
truthy String.[] = false
truthy (String.◌∷◌ c s) = true

-- `s.startswith(prefix)`
unfoldable pub startswith : String → String → Bool
startswith s String.[] = true
startswith String.[] (String.◌∷◌ d p) = false
startswith (String.◌∷◌ c s) (String.◌∷◌ d p) = code c == code d && startswith s p

-- `part in s`
unfoldable pub has_part : String → String → Bool
unfolding startswith
has_part String.[] part = startswith String.[] part
has_part (String.◌∷◌ c s) part = startswith (String.◌∷◌ c s) part || has_part s part

-- What follows as many characters as the list has.
abbrev drop_text : List ℕ → String → String
drop_text [] s = s
drop_text (n ∷ ns) String.[] = String.[]
drop_text (n ∷ ns) (String.◌∷◌ c s) = drop_text ns s

-- `s.removeprefix(prefix)`
unfoldable pub removeprefix : String → String → String
unfolding startswith
removeprefix s p = if startswith s p then drop_text (codes p) s else s

-- `s.lstrip(chars)`
unfoldable pub lstrip : (ℕ → Bool) → String → String
lstrip p String.[] = String.[]
lstrip p (String.◌∷◌ c s) = let rest = lstrip p s in if p (code c) then rest else String.◌∷◌ c s

-- `" ".join(words)`
unfoldable pub join : String → List String → String
join sep [] = ""
join sep (w ∷ []) = w
join sep (w ∷ v ∷ ws) = w & sep & join sep (v ∷ ws)

abbrev digits : List String
digits = "0" ∷ "1" ∷ "2" ∷ "3" ∷ "4" ∷ "5" ∷ "6" ∷ "7" ∷ "8" ∷ "9" ∷ []

-- The last `fuel` digits at most.
decimal_of : ℕ → ℕ → String
decimal_of ℕ.zero n = ""
decimal_of (ℕ.suc fuel) n =
    let rest = decimal_of fuel (n / 10) in
    let last = get_or digits (n % 10) "" in if leb n 9 then last else rest & last

-- `str(n)`, which has at most `n + 1` digits
unfoldable pub decimal : ℕ → String
unfolding decimal_of
decimal n = decimal_of (suc n) n
