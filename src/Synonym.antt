-- ===== src/Synonym.antt =====
-- forest/synonymbot.py: class `SynonymBot`. Its state is the persistent dictionary `self.synonyms`,
-- whose values are read as Python reads them, since the decorator leaves tuples there.
pub mod Laws
pub mod Link
pub mod Words
mod Tests
use forestfire.Prelude.{
  map, String, Bool, true, false, not, ◌&&◌, Option, none, some, List, [], ◌∷◌, ◌==◌, string_eq,
  if◌then◌else◌, truthy, contains, keep, ◌&◌, length,
}
use forestfire.Prelude.Exec.{
  Result, ok, err, bind, Exec, pure, raise, lift, gets, ◌>>=◌, ◌>>◌, key_error,
}
use forestfire.Prelude.Dict
use forestfire.Prelude.Dict.{Dict}
use forestfire.Value.{Value, null, str, list, tuple, dict, of_list, of_dict, cons, nil}
use forestfire.Value.Access.{key_in, or_value}
use forestfire.Message.{Message, TextLib}
use forestfire.Bot.{Config, is_admin, valid_commands}
use forestfire.Bot
use forestfire.Persist.{KvClient, PersistDict, get, set, keys, remove}
use forestfire.Persist.Lists.{extend, remove_from}

abbrev pub Synonyms : Type 0
Synonyms = Dict String Value

-- `valid_syns` of `get_valid_syns`, whose `valid_cmds` are `valid_commands`
unfoldable pub get_valid_syns : Config → Message → Synonyms → Synonyms
get_valid_syns bot msg d = keep (λ entry. contains (valid_commands bot msg) entry.0) d

-- `any(word in v for v in valid_syns.values())`
unfoldable pub any_has : String → Synonyms → Result Bool
any_has word [] = ok false
any_has word ((k, v) ∷ d) = bind (key_in word v) λ found. if found then ok true else any_has word d

-- `[k for k, v in valid_syns.items() if word in v]`
unfoldable pub commands_with : String → Synonyms → Result (List String)
commands_with word [] = ok []
commands_with word ((k, v) ∷ d) =
    bind (key_in word v)
      λ found. bind (commands_with word d) λ rest. ok (if found then k ∷ rest else rest)

-- The loop of `match_command`.
unfoldable pub command_of : String → Synonyms → Result (Option String)
command_of word [] = ok none
command_of word ((k, v) ∷ d) =
    bind (key_in word v) λ found. if found then ok (some k) else command_of word d

abbrev texts : List String → Value
texts words = list (of_list (map str words))

module _ (kv : KvClient) (bot : Config) (fmt : Value → String) where
  abbrev Method : Type 0
  Method = Exec (PersistDict kv.Backend) String

  -- `requires_admin`, for commands that may raise
  abbrev admin_only : (Message → Method) → Message → Method
  admin_only command msg =
      if is_admin bot.secret msg
      then command msg
      else pure "you must be an admin to use this command"

  -- `method.syns` of a command's method, where a decorator has set it
  module _ (syns : String → Option (List String)) where
    set_syns : String → Option (List String) → Exec (PersistDict kv.Backend) (Unit {0})
    unfolding set
    set_syns cmd none = pure tt
    set_syns cmd (some words) = do set kv cmd (tuple (of_list (map str words))); pure tt

    build : List String → Exec (PersistDict kv.Backend) (Unit {0})
    unfolding set_syns
    build [] = pure tt
    build (cmd ∷ cmds) = do set_syns cmd (syns cmd); build cmds

    unfoldable pub do_build_synonyms : Message → Method
    unfolding build
    do_build_synonyms = admin_only λ msg. do
      build bot.commands
      gets (λ s. "Built synonym list: a" & fmt (dict (of_dict s.dict_)))

  clear : List String → Exec (PersistDict kv.Backend) (Unit {0})
  unfolding remove
  clear [] = pure tt
  clear (cmd ∷ cmds) = do remove kv cmd; clear cmds

  unfoldable pub do_clear_synonyms : Message → Method
  unfolding clear keys
  do_clear_synonyms = admin_only λ msg. do cmds ← keys kv; clear cmds; pure "Synonym list cleared"

  list_word : String → Synonyms → Bool → Method
  unfolding commands_with
  list_word word valid_syns false = pure ("Synonym list: " & fmt (dict (of_dict valid_syns)))
  list_word word valid_syns true = do
    cmds ← lift (commands_with word valid_syns)
    pure ("'" & word & "' is a synonym for " & fmt (texts cmds))

  unfoldable pub do_list_synonyms : Message → Method
  unfolding get_valid_syns any_has list_word get
  do_list_synonyms msg = do
    valid_syns ← gets (λ s. get_valid_syns bot msg s.dict_)
    if contains (valid_commands bot msg) msg.arg1
        then (do
          syns ← get kv msg.arg1 (some null)
          pure ("Synonyms for '" & msg.arg1 & "' are: " & fmt (or_value syns null)))
        else (do found ← lift (any_has msg.arg1 valid_syns); list_word msg.arg1 valid_syns found)

  add_word : Message → Synonyms → Method
  unfolding set extend
  add_word msg valid_syns =
      if not (contains (Dict.keys valid_syns) msg.arg1)
      then set kv msg.arg1 (list (cons (str msg.arg2) nil))
      else extend kv msg.arg1 (str msg.arg2)

  -- The happy path of `do_link`, or its last refusal.
  link_word : Message → Synonyms → Bool → Method
  unfolding commands_with add_word
  link_word msg valid_syns true = do
    cmds ← lift (commands_with msg.arg2 valid_syns)
    pure (
        "Sorry, '"
        & msg.arg2
        & "' is already associated with one or more commands: "
        & fmt (texts cmds))
  link_word msg valid_syns false = do
    add_word msg valid_syns
    pure ("Linked synonym '" & msg.arg2 & "' to command '" & msg.arg1 & "'")

  unfoldable pub do_link : Message → Method
  unfolding get_valid_syns any_has link_word
  do_link msg = do
    valid_syns ← gets (λ s. get_valid_syns bot msg s.dict_)
    if not (contains (valid_commands bot msg) msg.arg1)
        then pure
            "Not a valid command. Syntax for linking commands is 'link command synonym'. Please try again"
        else if not (truthy msg.arg2)
        then pure ("Need a synonym to link to command '" & msg.arg1 & "', try again")
        else if contains (valid_commands bot msg) msg.arg2
        then pure ("Sorry, '" & msg.arg2 & "' is a command")
        else (do found ← lift (any_has msg.arg2 valid_syns); link_word msg valid_syns found)

  unlink_from : Message → Option Value → Method
  unfolding remove_from
  unlink_from msg none = raise key_error
  unlink_from msg (some syns) = do
    found ← lift (if truthy msg.arg2 then key_in msg.arg2 syns else ok false)
    if found
        then (do
          remove_from kv msg.arg1 (str msg.arg2)
          pure ("Unlinked synonym '" & msg.arg2 & "' from command '" & msg.arg1 & "'"))
        else pure (
            "Need a synonym to unlink from command '"
            & msg.arg1
            & "'. Valid synonyms are "
            & fmt syns)

  usage : String
  usage = "Syntax for unlinking commands is 'unlink command synonym', try again"

  unlink_word : String → List String → Method
  unfolding remove_from usage
  unlink_word word [] = pure usage
  unlink_word word (cmd ∷ []) = do
    remove_from kv cmd (str word)
    pure ("Synonym '" & word & "' removed from command '" & cmd & "'")
  unlink_word word cmds = pure (
      "Multiple commands have that synonym: "
      & fmt (texts cmds)
      & ". Please try again in the form 'unlink command synonym'")

  unfoldable pub do_unlink : Message → Method
  unfolding get_valid_syns any_has commands_with unlink_from unlink_word usage
  do_unlink msg = do
    valid_syns ← gets (λ s. get_valid_syns bot msg s.dict_)
    if contains (valid_commands bot msg) msg.arg1
        then unlink_from msg (Dict.get valid_syns msg.arg1)
        else (do
          found ← lift (any_has msg.arg1 valid_syns)
          if not found
              then pure usage
              else (do cmds ← lift (commands_with msg.arg1 valid_syns); unlink_word msg.arg1 cmds))

-- The answer of the loop, or the search of `Bot`.
or_bot : TextLib → Config → Message → Result (Option String) → Result String × Message
unfolding Bot.match_command
or_bot lib bot msg (err e) = (err e, msg)
or_bot lib bot msg (ok (some cmd)) = (ok cmd, msg)
or_bot lib bot msg (ok none) = Bot.match_command lib bot msg

unfoldable pub match_command : TextLib → Config → Synonyms → Message → Result String × Message
unfolding command_of get_valid_syns or_bot
match_command lib bot d msg =
    if not (truthy msg.arg0)
    then (ok "", msg)
    else if contains bot.commands msg.arg0
    then (ok msg.arg0, msg)
    else or_bot lib bot msg (command_of msg.arg0 (get_valid_syns bot msg d))
