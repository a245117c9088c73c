-- ===== src/Secrets.antt =====
-- forest/utils.py: `parse_secrets`, `load_secrets` and `get_secret`, of the environment that is named
-- in the variable ENV. The text of a file, if there is one, is a parameter.
pub mod Laws
mod Tests
use forestfire.Prelude.{
  ◌++◌, String, Bool, true, false, not, ◌&&◌, ◌||◌, ◌&◌, Option, none, some, List, [], ◌∷◌,
  if◌then◌else◌, truthy, startswith, contains, string_eq, ◌==◌, nat_eq, ℕ,
}
use forestfire.Prelude.Exec.{Result, ok, err, Exec, value_error, lift, modify, ◌>>=◌, ◌>>◌, bind}
use forestfire.Prelude.Dict.{Dict, get, put, update}
use Prim.Native.Char.{Char, code}
use Prim.Native.String

pub record Env : Type 0 where
  -- `os.environ` and `secret_cache`
  pub environ : Dict String String
  pub secret_cache : Dict String String
  -- whether `load_secrets` has returned, after which its cache answers
  pub loaded : Bool

pub record Files : Type 0 where
  -- the file of this name
  pub read : String → Option String
  pub strip : String → String
  pub lower : String → String

-- One more character in front of the first line.
abbrev onto_first : Char → List String → List String
onto_first c [] = []
onto_first c (l ∷ ls) = String.◌∷◌ c l ∷ ls

-- `s.split("\n")`
unfoldable pub split_lines : String → List String
split_lines String.[] = "" ∷ []
split_lines (String.◌∷◌ c s) =
    let rest = split_lines s in if code c == 10 then "" ∷ rest else onto_first c rest

-- `s.split("=", 1)`, which has to have two parts
abbrev with_first : Char → Option (String × String) → Option (String × String)
with_first c none = none
with_first c (some (a, b)) = some (String.◌∷◌ c a, b)

unfoldable pub split_pair : String → Option (String × String)
split_pair String.[] = none
split_pair (String.◌∷◌ c s) =
    let rest = split_pair s in if code c == 61 then some ("", s) else with_first c rest

abbrev put_pair : Option (String × String) → Dict String String → Result (Dict String String)
put_pair none d = err value_error
put_pair (some (k, v)) d = ok (put d k v)

module _ (files : Files) where
  unfoldable pub pairs_onto : Dict String String → List String → Result (Dict String String)
  pairs_onto d [] = ok d
  pairs_onto d (line ∷ lines) =
      if truthy line && not (startswith line "#")
      then (bind (put_pair (split_pair (files.strip line)) d) λ d'. pairs_onto d' lines)
      else pairs_onto d lines

  unfoldable pub parse_secrets : String → Result (Dict String String)
  parse_secrets secrets = pairs_onto [] (split_lines secrets)

  abbrev or_dev : Option String → String
  or_dev none = "dev"
  or_dev (some env) = env

  abbrev or_dotenv : Option String → Option String
  or_dotenv none = files.read ".env"
  or_dotenv (some secrets) = some secrets

  -- What the file sets, under what the environment sets already; no file sets nothing.
  abbrev masked : Option String → Dict String String → Result (Dict String String)
  masked none environ = ok environ
  masked (some secrets) environ =
      bind (parse_secrets secrets) λ new. ok (update environ (update new environ))

  unfoldable pub load_secrets : Exec Env (Unit {0})
  load_secrets s =
      if s.loaded
      then (ok tt, s)
      else (elim (masked (or_dotenv (files.read (or_dev (get s.environ "ENV") & "_secrets")))
          s.environ) [
            | err e ↦ (err e, s)
            | ok environ ↦ (ok tt, record s { environ = environ; loaded = true })
          ])

  abbrev or_empty : Option String → String
  or_empty none = ""
  or_empty (some v) = v

  -- `secret.lower() in ("0", "false", "no")`
  abbrev is_off : String → Bool
  is_off secret = contains ("0" ∷ "false" ∷ "no" ∷ []) (files.lower secret)

  abbrev pub flag : String → String
  flag secret = if is_off secret then "" else secret

  abbrev pub keep_secret : String → Result (Unit {0}) × Env → Result String × Env
  keep_secret key (err e, s) = (err e, s)
  keep_secret key (ok tt, s) =
      let secret = or_empty (get s.environ key) in
      (ok (flag secret), record s { secret_cache = put s.secret_cache key secret })

  -- What is cached is returned as it is.
  unfoldable pub get_secret : String → Exec Env String
  get_secret key s = elim (get s.secret_cache key) [
    | some secret ↦ (ok secret, s)
    | none ↦ elim (get s.environ key) [
      | some secret ↦ (ok (flag secret), s)
      | none ↦ keep_secret key (load_secrets s)
    ]
  ]
