-- ===== src/Pay/Fsr/Tests.antt =====
-- Requests that are spelled out, at a wallet that has only one answer.
use forestfire.Prelude.{[], ◌∷◌, ◌≡◌, refl}
use forestfire.Value.{str, field, end}
use forestfire.Pay.Fsr.{zipped}

paired :
    zipped ("a" ∷ "1" ∷ "b" ∷ "2" ∷ "a" ∷ "3" ∷ []) end
    ≡ field "a" (str "3") (field "b" (str "2") end)
unfolding zipped
paired = refl
