-- ===== src/Datastore.antt =====
-- forest/datastore.py: class `SignalDatastore`, which keeps a copy of the key state of signal-cli, a
-- file, in the key-value service. The litestream processes are the commands that it runs.
pub mod Laws
pub mod Periodic
pub mod Http
mod Tests
use forestfire.Prelude.{
  ℕ, String, Bool, true, false, not, ◌&&◌, ◌||◌, Option, none, some, List, [], ◌∷◌, ◌++◌, ◌==◌,
  string_eq, nat_eq, if◌then◌else◌, truthy, ◌&◌, ◌≡◌, lstrip,
}
use forestfire.Prelude.Exec.{
  Result, ok, err, bind, is_ok, Exec, pure, raise, lift, gets, modify, ◌>>=◌, ◌>>◌, runtime_error,
  attribute_error, file_not_found, cancelled,
}
use forestfire.Prelude.Dict
use forestfire.Prelude.Dict.{Dict}
use forestfire.Value.{Value, null, str, Items, nil, cons}
use forestfire.Value.Access.{item, get_item, elements}

-- The two methods of the client that are used.
pub record TextClient : Type 1 where
  pub Backend : Type 0
  pub get : Backend → String → Result (Option String)
  pub post : Backend → String → String → Result String × Backend

-- A write that returned is read back.
pub record TextLaws (client : TextClient) : Type 0 where
  pub get-post :
      (b : client.Backend) (key text : String)
      → is_ok (client.post b key text).0 ≡ true
      → client.get (client.post b key text).1 key ≡ ok (some text)

-- The object, with the files of its machine, by their paths, and the service that it shares with
-- other machines. `tasks` counts the periodic tasks that were created.
pub record SignalDatastore (B : Type 0) : Type 0 where
  pub account_id : String
  pub account : Value
  pub keystate : Option String
  pub shutting_down : Bool
  pub tasks : ℕ
  pub files : Dict String String
  pub commands : List String
  pub backend : B

-- `__init__`: the account whose number is the account's id, without the plus signs in front.
abbrev plus : ℕ → Bool
plus c = c == 43

same_number : String → Value → Result Bool
unfolding lstrip
same_number account_id (str number) = ok (lstrip plus number == lstrip plus account_id)
same_number account_id other = err attribute_error

matching : String → Items → Result (List Value)
unfolding same_number get_item
matching account_id nil = ok []
matching account_id (cons a more) = bind (get_item a "number" null) λ number.
    bind (same_number account_id number)
      λ found. bind (matching account_id more) λ rest. ok (if found then a ∷ rest else rest)

first_account : List Value → Result Value
first_account [] = err runtime_error
first_account (a ∷ more) = ok a

unfoldable pub choose_account : String → Value → Result Value
unfolding matching first_account get_item elements
choose_account account_id accounts_map =
    bind (get_item accounts_map "accounts" null)
      λ accounts. bind (elements accounts) λ items. bind (matching account_id items) first_account

-- `fmt` is the text of a value in an f-string.
module _ (client : TextClient) (fmt : Value → String) where
  abbrev pub Object : Type 0
  Object = SignalDatastore client.Backend

  abbrev or_not_found : Option String → Exec Object String
  or_not_found none = raise file_not_found
  or_not_found (some text) = pure text

  -- `open(path).read()`
  unfoldable pub read_file : String → Exec Object String
  read_file path = do found ← gets (λ s. Dict.get s.files path); or_not_found found

  abbrev write_file : String → String → Exec Object (Unit {0})
  write_file path text = modify λ s. record s { files = Dict.put s.files path text }

  -- the key of the account in the service
  abbrev get_key : Exec Object String
  get_key = do
    account ← gets (λ s. s.account)
    uuid ← lift (get_item account "uuid" null)
    pure (fmt uuid)

  abbrev client_get : String → Exec Object (Option String)
  client_get key s = (client.get s.backend key, s)

  abbrev client_post : String → String → Exec Object String
  client_post key text s =
      let (r, b) = client.post s.backend key text in (r, record s { backend = b })

  differs : Option String → String → Bool
  differs none text = true
  differs (some stored) text = not (stored == text)

  store_backup : String → String → Bool → Exec Object (Option String)
  store_backup key text false = pure none
  store_backup key text true = do result ← client_post key text; pure (some result)

  unfoldable pub async_ensure_backup : Exec Object (Option String)
  unfolding read_file differs store_backup get_item
  async_ensure_backup = do
    account ← gets (λ s. s.account)
    path ← lift (get_item account "path" (str ""))
    text ← read_file ("state/data/" & fmt path)
    modify (λ s. record s { keystate = some text })
    key ← get_key
    stored ← client_get key
    store_backup key text (differs stored text)

  restored : String → String → Option String → Exec Object (Unit {0})
  restored path keystate none = write_file path keystate
  restored path keystate (some text) =
      if not (keystate == text) then write_file path keystate else pure tt

  write_keystate : String → Option String → Exec Object (Unit {0})
  unfolding restored
  write_keystate path none = pure tt
  write_keystate path (some keystate) =
      if truthy keystate
      then gets (λ s. Dict.get s.files path) >>= restored path keystate
      else pure tt

  -- That a process fails is only logged; that it cannot be started at all is left out.
  abbrev run_command : String → Exec Object (Unit {0})
  run_command command = modify λ s. record s { commands = s.commands ++ (command ∷ []) }

  unfoldable pub start_periodic_backup : Exec Object (Unit {0})
  start_periodic_backup s = (ok tt, record s { shutting_down = false; tasks = ℕ.suc s.tasks })

  -- Five seconds later `start_periodic_backup` is called.
  unfoldable pub async_startup : Exec Object (Unit {0})
  unfolding write_keystate item get_item
  async_startup = do
    key ← get_key
    keystate ← client_get key
    modify (λ s. record s { keystate = keystate })
    account ← gets (λ s. s.account)
    path ← lift (item account "path")
    write_keystate ("state/data/" & fmt path) keystate
    run_command "restore"
    run_command "replicate"

  -- With a task there, `stop_periodic_backup` also cancels it; the task finds out where it waits.
  unfoldable pub stop_periodic_backup : Exec Object (Unit {0})
  stop_periodic_backup s = (ok tt, record s { shutting_down = true })

  cancel_if : ℕ → Exec Object (Unit {0})
  cancel_if tasks = if tasks == 0 then pure tt else raise cancelled

  -- What happens while the loop sleeps: the files and the service change, and the datastore may be
  -- stopped.
  abbrev pub Sleep : Type 0
  Sleep = Dict String String × (client.Backend × Bool)

  asleep : Sleep → Exec Object (Unit {0})
  unfolding stop_periodic_backup cancel_if
  asleep (files, (backend, stopped)) = do
    modify (λ s. record s { files = files; backend = backend })
    if stopped
        then (do stop_periodic_backup; tasks ← gets (λ s. s.tasks); cancel_if tasks)
        else pure tt

  -- The loop over what happens in its sleeps, `false` if it sleeps once more after them.
  unfoldable pub periodic_backup : List Sleep → Exec Object Bool
  unfolding async_ensure_backup asleep
  periodic_backup [] = do stop ← gets (λ s. s.shutting_down); async_ensure_backup; pure stop
  periodic_backup (sleep ∷ sleeps) = do
    stop ← gets (λ s. s.shutting_down)
    if stop
        then (do async_ensure_backup; pure true)
        else (do async_ensure_backup; asleep sleep; periodic_backup sleeps)
