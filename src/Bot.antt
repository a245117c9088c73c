-- ===== src/Bot.antt =====
-- forest/core.py: who is an admin, and how `Bot` turns a message into a command. The environment is
-- the function `secret` (`utils.get_secret`), the names of the commands are those that the
-- constructor collects.
pub mod Admin
pub mod Dispatch
pub mod Help
pub mod Replies
mod Tests
use forestfire.Prelude.{
  ℕ, String, Bool, true, false, not, ◌&&◌, ◌||◌, Option, none, some, List, [], ◌∷◌, ◌==◌, string_eq,
  nat_eq, if◌then◌else◌, truthy, startswith, has_part, lstrip, contains, keep, join, ◌&◌,
}
use forestfire.Prelude.Exec.{Result, ok, err, bind}
use forestfire.Message.{Message, TextLib, parse_text}
use forestfire.Distance
use forestfire.Distance.{Fraction, Scored, ltb_fraction}

-- What the rest of the program says of a bot: its environment, its own uuid, and its `do_…` methods
-- in the order of `dir(self)`, with whether a method has the attribute `hide`.
pub record Config : Type 0 where
  pub secret : String → String
  pub bot_uuid : String
  pub commands : List String
  pub hidden : String → Bool
  -- `float(TYPO_THRESHOLD or 0.3)`
  pub threshold : Fraction

unfoldable pub is_admin : (String → String) → Message → Bool
unfolding has_part
is_admin secret msg =
    (truthy msg.uuid && (has_part (secret "ADMIN") msg.uuid || has_part (secret "ADMINS") msg.uuid))
    || (truthy msg.group && has_part (secret "ADMIN_GROUP") msg.group)

-- `requires_admin(command)`, for a command on the bot's state `S` with a reply
abbrev pub Reply : Type 0
Reply = Option String

unfoldable pub requires_admin {ℓ} :
    {S : Type ℓ} → (String → String) → (Message → S → Reply × S) → Message → S → Reply × S
unfolding is_admin
requires_admin secret command msg s =
    if is_admin secret msg
    then command msg s
    else (some "you must be an admin to use this command", s)

-- `self.visible_commands`
abbrev pub visible_commands : Config → List String
visible_commands bot = keep (λ name. not (bot.hidden name)) bot.commands

unfoldable pub mentions_us : Config → Message → Bool
mentions_us bot msg = contains msg.mentions bot.bot_uuid

unfoldable pub is_command : Config → Message → Bool
unfolding mentions_us startswith
is_command bot msg =
    if truthy msg.full_text then startswith msg.full_text "/" || mentions_us bot msg else false

-- the object replacement character and the space
abbrev mention_mark : ℕ → Bool
mention_mark c = c == 0xfffc || c == 32

abbrev pub only : List String → String
only (name ∷ []) = name
only _ = ""

-- The commands that a sender may reach by a near miss.
abbrev pub valid_commands : Config → Message → List String
valid_commands bot msg = if is_admin bot.secret msg then bot.commands else visible_commands bot

-- What `match_command` does with the closest command: the list of expansions tests that command,
-- and not each one in turn.
unfoldable pub accept : Config → Message → Scored → String
unfolding startswith
accept bot msg (score, cmd) =
    if ltb_fraction score bot.threshold
    then cmd
    else only (keep (λ expanded_cmd. startswith cmd msg.arg0) (valid_commands bot msg))

module _ (lib : TextLib) (bot : Config) where
  -- The second parse, of a message that mentions the bot, as `match_command` leaves the message.
  unfoldable pub reparse : Message → Message
  unfolding mentions_us parse_text lstrip
  reparse msg =
      if mentions_us bot msg && truthy msg.full_text
      then parse_text lib (lstrip mention_mark msg.full_text) msg
      else msg

  unfoldable pub lookup_command : Message → Result String
  unfolding is_command accept
  lookup_command msg =
      if contains bot.commands msg.arg0
      then ok msg.arg0
      else if truthy (bot.secret "ENABLE_MAGIC") && (not (truthy msg.group) || is_command bot msg)
      then bind (Distance.match msg.arg0 (valid_commands bot msg))
          (λ best. ok (accept bot msg best))
      else ok ""

  -- The command, empty for none, and the message as it is afterwards.
  unfoldable pub match_command : Message → Result String × Message
  unfolding reparse lookup_command
  match_command msg =
      if truthy msg.arg0 then (lookup_command (reparse msg), reparse msg) else (ok "", msg)

  -- `documented_commands`: every method has a `__doc__`.
  unfoldable pub documented_commands : String
  unfolding join
  documented_commands =
      "Documented commands: "
      & join ", " (visible_commands bot)
      & "\n\nFor more info about a command, try \"help\" [command]"

  unfoldable pub default : Message → Reply
  unfolding documented_commands has_part
  default msg =
      let resp = "That didn't look like a valid command!\n" & documented_commands in
      if truthy msg.text
        && not (truthy msg.group || (has_part msg.text "Documented commands" || resp == msg.text))
      then some resp
      else none

  module _ {S : Type 0} (run : String → Message → S → Result Reply × S) where
    dispatch : Result String × Message → S → Result Reply × S
    unfolding default
    dispatch (err e, msg) s = (err e, s)
    dispatch (ok cmd, msg) s =
        if truthy cmd
        then run cmd msg s
        else if msg.text == "TERMINATE"
        then (ok (some "signal session reset"), s)
        else (ok (default msg), s)

    -- `run` is the bot's `do_…` methods.
    unfoldable pub handle_message : Message → S → Result Reply × S
    unfolding match_command dispatch
    handle_message message s = dispatch (match_command message) s
