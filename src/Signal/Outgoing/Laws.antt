-- ===== src/Signal/Outgoing/Laws.antt =====
-- What becomes of a reply, and of a message to the admins.
use forestfire.Prelude.{ℕ, String, Option, ◌≡◌, refl}
use forestfire.Prelude.Exec.{err, value_error}
use forestfire.Signal.Requests.{Requests, Response, Options}
use forestfire.Signal.Requests.Laws.{send_message_ambiguous}
use forestfire.Signal.Outgoing.{admin}

module _ (uid : ℕ → String) (canonical_uuid : String → Option String) where
  -- Without an admin and an admin group, a message to the admins raises a ValueError and sends nothing.
  pub admin_unset :
      (secret : String → String) (msg : Response) (o : Options) (s : Requests)
      → secret "ADMIN" ≡ ""
      → secret "ADMIN_GROUP" ≡ ""
      → admin uid canonical_uuid secret msg o s ≡ (err value_error, s)
  unfolding admin
  admin_unset secret msg o s a g =
      rw (g, a) (send_message_ambiguous uid canonical_uuid "" "" msg o s refl)
