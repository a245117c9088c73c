-- ===== src/Crypto/Spelling.antt =====
-- Bytes as a text that can be read back: an encoding to run forest/cryptography.py and
-- mc_util/__init__.py with.
use forestfire.Prelude.{ℕ, zero, suc, String, [], ◌∷◌, ◌≡◌, refl, ap, ◌==◌, nat_eq, if◌then◌else◌}
use forestfire.Prelude.Exec.{Result, ok, err, bind, value_error}
use forestfire.Crypto.{Bytes}
use Prim.Native.Char.{char, code}

-- A byte `n` as `n` letters and a dot.
abbrev letters : ℕ → String → String
letters zero s = String.◌∷◌ (char 46 tt) s
letters (suc n) s = String.◌∷◌ (char 97 tt) (letters n s)

abbrev pub spell : Bytes → String
spell [] = ""
spell (n ∷ ns) = letters n (spell ns)

abbrev grow : Result Bytes → Result Bytes
grow (ok (n ∷ ns)) = ok (suc n ∷ ns)
grow (ok []) = err value_error
grow (err e) = err e

abbrev read_letter : ℕ → Result Bytes → Result Bytes
read_letter n ns = if n == 97 then grow ns else bind ns λ ns. ok (0 ∷ ns)

abbrev pub unspell : String → Result Bytes
unspell String.[] = ok []
unspell (String.◌∷◌ c s) = read_letter (code c) (unspell s)

unspell-letters :
    (n : ℕ) (ns : Bytes) (s : String) → unspell s ≡ ok ns → unspell (letters n s) ≡ ok (n ∷ ns)
unspell-letters zero ns s h = ap (read_letter 46) h
unspell-letters (suc n) ns s h = ap grow (unspell-letters n ns s h)

pub unspell-spell : (b : Bytes) → unspell (spell b) ≡ ok b
unspell-spell [] = refl
unspell-spell (n ∷ ns) = unspell-letters n ns (spell ns) (unspell-spell ns)
