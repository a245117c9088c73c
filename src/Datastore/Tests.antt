-- ===== src/Datastore/Tests.antt =====
-- The datastore over the HTTP client and a service in memory, on two machines.
use forestfire.Prelude.{List, string_eq, true, false, none, some, [], ◌∷◌, ◌≡◌, refl}
use forestfire.Prelude.Exec.{ok, err, cancelled}
use forestfire.Prelude.Dict
use forestfire.Value.{Value, dict, field, end, str, list, cons, nil}
use forestfire.Message.Stdio.{text_of}
use forestfire.Persist.Faster.{Store}
use forestfire.Persist.Faster.Tests.{lib, laws, hash_laws, http, http_laws, secret, self, zeros}
use forestfire.Datastore.{
  TextClient, SignalDatastore, async_ensure_backup, async_startup, periodic_backup, choose_account,
  Sleep,
}
use forestfire.Datastore.Periodic.{BackedUp, periodic_backup-BackedUp}
use forestfire.Datastore.Http.{http_client, http_client-TextLaws}
use forestfire.Datastore.Laws.{async_startup-async_ensure_backup, async_ensure_backup_again}

abbrev client : TextClient
client = http_client lib secret http (λ n. zeros 16) self

abbrev account : Value
account = dict (field "number" (str "+123") (field "path" (str "42") (field "uuid" (str "u") end)))

chosen : choose_account "123" (dict (field "accounts" (list (cons account nil)) end)) ≡ ok account
unfolding choose_account
chosen = refl

abbrev machine : Store http.Server → SignalDatastore client.Backend
machine b = record {
  account_id = "+123";
  account = account;
  keystate = none;
  shutting_down = false;
  tasks = 1;
  files = [];
  commands = [];
  backend = b;
}

abbrev old : SignalDatastore client.Backend
old = record (machine (record { server = []; drawn = 0 })) {
  files = ("state/data/42", "keys") ∷ [];
}

abbrev backed_up : SignalDatastore client.Backend
backed_up = (async_ensure_backup client text_of old).1

backs_up : async_ensure_backup client text_of old ≡ (ok (some "stored"), backed_up)
unfolding async_ensure_backup Dict.get forestfire.Persist.Faster.get forestfire.Crypto.hash_salt
    forestfire.Persist.Faster.post forestfire.Crypto.get_aeskey
backs_up = refl

abbrev new : SignalDatastore client.Backend
new = machine backed_up.backend

async_startup-async_ensure_backup_example :
    ((async_startup client text_of new).0 ≡ ok tt)
    × (Dict.get (async_startup client text_of new).1.files "state/data/42" ≡ some "keys")
unfolding forestfire.Value.Access.get_item Dict.get forestfire.Value.Access.item
async_startup-async_ensure_backup_example =
    async_startup-async_ensure_backup client
      (http_client-TextLaws lib laws hash_laws secret http http_laws self (λ n. zeros 16)
        (λ n. refl))
      text_of old new (str "42") (str "u") "keys" refl refl refl refl backs_up refl refl refl

async_ensure_backup_again_example :
    async_ensure_backup client text_of backed_up ≡ (ok none, backed_up)
unfolding forestfire.Value.Access.get_item Dict.get
async_ensure_backup_again_example =
    async_ensure_backup_again client
      (http_client-TextLaws lib laws hash_laws secret http http_laws self (λ n. zeros 16)
        (λ n. refl))
      text_of old (str "42") (str "u") "keys" refl refl refl backs_up

-- The files change and the loop is stopped while it sleeps.
abbrev sleeps : SignalDatastore client.Backend → List (Sleep client text_of)
sleeps s = ((("state/data/42", "new keys") ∷ []), (s.backend, true)) ∷ []

-- No task to cancel: the loop was called by itself.
abbrev alone : SignalDatastore client.Backend
alone = record old { tasks = 0 }

abbrev returned : SignalDatastore client.Backend
returned = (periodic_backup client text_of (sleeps old) alone).1

returns : periodic_backup client text_of (sleeps old) alone ≡ (ok true, returned)
unfolding periodic_backup Dict.get forestfire.Persist.Faster.get forestfire.Crypto.hash_salt
    forestfire.Persist.Faster.post forestfire.Crypto.get_aeskey
returns = refl

periodic_backup-BackedUp_example :
    BackedUp client
      (http_client-TextLaws lib laws hash_laws secret http http_laws self
        (λ n. zeros 16)
        (λ n. refl))
      text_of
      (str "42")
      (str "u")
      returned
unfolding forestfire.Value.Access.get_item
periodic_backup-BackedUp_example =
    periodic_backup-BackedUp client
      (http_client-TextLaws lib laws hash_laws secret http http_laws self (λ n. zeros 16)
        (λ n. refl))
      text_of alone (str "42") (str "u") (sleeps old) true refl refl returns

-- A task is cancelled where it sleeps.
task_is_cancelled : (periodic_backup client text_of (sleeps old) old).0 ≡ err cancelled
unfolding periodic_backup Dict.get forestfire.Persist.Faster.get forestfire.Crypto.hash_salt
    forestfire.Persist.Faster.post forestfire.Crypto.get_aeskey
task_is_cancelled = refl
