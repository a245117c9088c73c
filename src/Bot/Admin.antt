-- ===== src/Bot/Admin.antt =====
-- Admins, and the commands that only they may use, where no admin is configured.
use forestfire.Prelude.{String, true, false, ◌≡◌, refl, arith, truthy, has_part, some}
use forestfire.Message.{Message}
use forestfire.Bot.{is_admin, requires_admin, Reply}

has_part_empty : (part : String) → truthy part ≡ true → has_part "" part ≡ false
unfolding has_part
has_part_empty String.[] h = cc
has_part_empty (String.◌∷◌ c s) h = refl

-- With none of the three secrets set, no message comes from an admin.
pub is_admin_unset :
    (secret : String → String) (msg : Message)
    → secret "ADMIN" ≡ ""
    → secret "ADMINS" ≡ ""
    → secret "ADMIN_GROUP" ≡ ""
    → is_admin secret msg ≡ false
unfolding is_admin
is_admin_unset secret msg a b c =
    rw (a, b, c) (ground (arith, has_part_empty msg.uuid, has_part_empty msg.group))

-- With none of the three secrets set, an admin command never runs: it leaves the bot's state alone
-- and answers with the refusal, whoever asks.
pub requires_admin_unset {ℓ} :
    {S : Type ℓ} (secret : String → String) (command : Message → S → Reply × S) (msg : Message)
    (s : S)
    → secret "ADMIN" ≡ ""
    → secret "ADMINS" ≡ ""
    → secret "ADMIN_GROUP" ≡ ""
    → requires_admin secret command msg s ≡ (some "you must be an admin to use this command", s)
unfolding requires_admin
requires_admin_unset secret command msg s a b c = rw (is_admin_unset secret msg a b c)
