-- ===== src/Secrets/Laws.antt =====
-- A secret that is read twice.
use forestfire.Prelude.{string_eq, String, none, some, ◌≡◌, refl, ap, ◌∙◌, if◌then◌else◌}
use forestfire.Prelude.Exec.{ok}
use forestfire.Prelude.Dict.{get, put, get-put, ==_refl}
use forestfire.Secrets.{Env, Files, load_secrets, get_secret, flag, keep_secret}

module _ (files : Files) where
  missed :
      (key : String) (s : Env)
      → get s.secret_cache key ≡ none
      → get s.environ key ≡ none
      → get_secret files key s ≡ keep_secret files key (load_secrets files s)
  unfolding get_secret
  missed key s c e = rw (get_secret, c, e) refl

  kept :
      (key : String) (s : Env) (v : String)
      → get s.environ key ≡ some v
      → keep_secret files key (ok tt, s)
        ≡ (ok (flag files v), record s { secret_cache = put s.secret_cache key v })
  kept key s v e = rw e refl

  served :
      (key : String) (s : Env) (v : String)
      → get s.secret_cache key ≡ some v
      → get_secret files key s ≡ (ok v, s)
  unfolding get_secret
  served key s v c = rw (get_secret, c) refl

  -- A secret that a file sets, and the environment does not, where the file is read for it: the first
  -- read takes 0, false and no for the empty text, and the second one returns them as they are.
  pub get_secret_twice :
      (key : String) (s loaded : Env) (v : String)
      → get s.secret_cache key ≡ none
      → get s.environ key ≡ none
      → load_secrets files s ≡ (ok tt, loaded)
      → get loaded.environ key ≡ some v
      → (s' : Env) × (get_secret files key s ≡ (ok (flag files v), s'))
        × (get_secret files key s' ≡ (ok v, s'))
  get_secret_twice key s loaded v c e l found =
      let s' = record loaded { secret_cache = put loaded.secret_cache key v } in
      let cached : get s'.secret_cache key ≡ some v =
        get-put loaded.secret_cache key key v
        ∙ ap (λ b. if b then some v else get loaded.secret_cache key) (==_refl key) in
      (
        s',
        missed key s c e ∙ ap (keep_secret files key) l ∙ kept key loaded v found,
        served key s' v cached,
      )
