-- ===== src/Persist/Ints/Laws.antt =====
-- Counters: what `increment` and `decrement` leave under a key.
use forestfire.Prelude.{
  ap, ◌∙◌, string_eq, String, Option, none, some, ◌≡◌, arith, eq_refl, List, [], ◌∷◌,
}
use forestfire.Prelude.Int.{ℤ, ◌+ℤ◌, ◌-ℤ◌, +ℤ_cancel}
use forestfire.Prelude.Exec.{ok, err, type_error, Exec, pure, ◌>>◌}
use forestfire.Prelude.Dict
use forestfire.Prelude.Dict.{get-put}
use forestfire.Value.{int}
use forestfire.Persist.{KvClient, PersistDict, set_locked}
use forestfire.Persist.Sync.{set_locked-dict, get-assign}
use forestfire.Persist.Ints.{number_at, increment, decrement, store_number}

module _ (kv : KvClient) where
  abbrev Object : Type 0
  Object = PersistDict kv.Backend

  abbrev counter : Object → String → Option ℤ
  counter s key = number_at (Dict.get s.dict_ key)

  set_int :
      (key : String) (z : ℤ) (s : Object) {r : String} {s' : Object}
      → set_locked kv key (int z) s ≡ (ok r, s')
      → counter s' key ≡ some z
  set_int key z s h =
      ground
        (arith, set_locked-dict kv key (int z) s h, get-assign s.dict_ key key (int z), eq_refl key)

  -- An `increment` that returns has added its amount to the number, 0 where the key was missing.
  pub counter-increment :
      (key : String) (y z : ℤ) (s : Object) {r : String} {s' : Object}
      → counter s key ≡ some z
      → increment kv key y s ≡ (ok r, s')
      → counter s' key ≡ some (z +ℤ y)
  unfolding increment store_number
  counter-increment key y z s {r} {s'} c h = set_int key (z +ℤ y) s {r = r} {s' = s'} (ground arith)

  pub counter-decrement :
      (key : String) (y z : ℤ) (s : Object) {r : String} {s' : Object}
      → counter s key ≡ some z
      → decrement kv key y s ≡ (ok r, s')
      → counter s' key ≡ some (z -ℤ y)
  unfolding decrement store_number
  counter-decrement key y z s {r} {s'} c h = set_int key (z -ℤ y) s {r = r} {s' = s'} (ground arith)

  -- An `increment` undone by a `decrement` of the same amount, both having returned, leaves the
  -- number that was there, which is 0 where the key was missing.
  pub decrement-increment :
      (key : String) (y z : ℤ) (s : Object) {r r' : String} {s' s'' : Object}
      → counter s key ≡ some z
      → increment kv key y s ≡ (ok r, s')
      → decrement kv key y s' ≡ (ok r', s'')
      → counter s'' key ≡ some z
  decrement-increment key y z s {s'} c h h' =
      counter-decrement key y (z +ℤ y) s' (counter-increment key y z s c h) h'
      ∙ ap some (+ℤ_cancel z y)

  -- What a run of increments of one key does to the object, and the amount that it adds up to.
  pub increments : String → List ℤ → Exec Object (Unit {0})
  unfolding increment
  increments key [] = pure tt
  increments key (y ∷ ys) = do increment kv key y; increments key ys

  -- A value that is no integer is refused with a `TypeError` and nothing changes.
  pub increment_refused :
      (key : String) (y : ℤ) (s : Object)
      → s.init_task ≡ ok tt
      → counter s key ≡ none
      → (increment kv key y s ≡ (err type_error, s)) × (decrement kv key y s ≡ (err type_error, s))
  unfolding increment decrement store_number
  increment_refused key y s i c = (ground arith, ground arith)
