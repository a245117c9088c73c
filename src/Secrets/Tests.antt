-- ===== src/Secrets/Tests.antt =====
-- A file that switches a flag off, and sets a token.
use forestfire.Prelude.{
  String, Option, none, some, [], ◌∷◌, ◌≡◌, refl, ◌==◌, string_eq, if◌then◌else◌, false, true,
}
use forestfire.Prelude.Exec.{ok, err, value_error}
use forestfire.Prelude.Dict.{Dict, get}
use forestfire.Secrets.{Env, Files, load_secrets, get_secret, flag, parse_secrets}
use forestfire.Secrets.Laws

abbrev files : Files
files = record {
  read = λ name.
      if name == "dev_secrets" then some "# flags\nENABLE_EVAL=false\n\nTOKEN=a=b" else none;
  strip = λ s. s;
  lower = λ s. s;
}

abbrev fresh : Env
fresh = record { environ = []; secret_cache = []; loaded = false }

abbrev loaded : Env
loaded = record fresh { environ = ("ENABLE_EVAL", "false") ∷ ("TOKEN", "a=b") ∷ []; loaded = true }

loads : load_secrets files fresh ≡ (ok tt, loaded)
unfolding load_secrets get parse_secrets forestfire.Secrets.pairs_onto
    forestfire.Secrets.split_lines forestfire.Prelude.startswith forestfire.Secrets.split_pair
    forestfire.Prelude.Dict.update
loads = refl

get_secret_twice_example :
    (s' : Env) × (get_secret files "ENABLE_EVAL" fresh ≡ (ok (flag files "false"), s'))
    × (get_secret files "ENABLE_EVAL" s' ≡ (ok "false", s'))
unfolding get
get_secret_twice_example =
    Laws.get_secret_twice files "ENABLE_EVAL" fresh loaded "false" refl refl loads refl

off_at_first : flag files "false" ≡ ""
off_at_first = refl

-- A line of one blank is no pair.
blank_line : parse_secrets files " " ≡ err value_error
unfolding parse_secrets forestfire.Secrets.pairs_onto forestfire.Secrets.split_lines
    forestfire.Prelude.startswith forestfire.Secrets.split_pair
blank_line = refl
