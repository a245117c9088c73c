-- ===== src/Synonym/Tests.antt =====
-- The synonyms of a bot with three commands, over a backend in memory.
use forestfire.Prelude.{
  String, true, false, Option, none, some, [], ◌∷◌, ◌≡◌, refl, ◌==◌, string_eq, if◌then◌else◌, inl,
  inr, ◌⊎◌, contains, ◌∙◌, sym, eq_iff, Bool-cases,
}
use forestfire.Prelude.Exec.{ok, err, key_error}
use forestfire.Prelude.Dict
use forestfire.Value.{Value, str, list, cons, nil}
use forestfire.Value.Access.{key_in}
use forestfire.Message.{Message}
use forestfire.Message.Tests.{lib, blank}
use forestfire.Bot.{Config, valid_commands, reparse, is_admin}
use forestfire.Bot.Dispatch.{Reachable}
use forestfire.Persist.{PersistDict}
use forestfire.Persist.Memory.{Memory, memory}
use forestfire.Synonym.{Synonyms, do_link, do_unlink, match_command}
use forestfire.Synonym.Laws.{
  match_command-do_link, Unambiguous, Unambiguous-do_link, AllCommands, match_command-Reachable,
}

abbrev bot : Config
bot = record {
  secret = λ name. if name == "ADMIN" then "boss" else "";
  bot_uuid = "bot";
  commands = "eval" ∷ "help" ∷ "ping" ∷ [];
  hidden = λ name. name == "eval";
  threshold = record { num = 3; den = 10 };
}

abbrev fmt : Value → String
fmt v = "..."

abbrev start : PersistDict Memory
start = record {
  tag = "synonyms";
  writer_id = "me";
  dict_ = ("ping", list (cons (str "pong") nil)) ∷ [];
  claim_lost = false;
  init_task = ok tt;
  backend = record { values = []; raws = [] };
}

abbrev link : Message
link = record blank { uuid = "boss"; arg0 = "link"; arg1 = "help"; arg2 = "docs" }

abbrev docs : Message
docs = record blank { uuid = "boss"; arg0 = "docs" }

abbrev linked : PersistDict Memory
linked = (do_link memory bot fmt link start).1

links : do_link memory bot fmt link start ≡ (ok "Linked synonym 'docs' to command 'help'", linked)
unfolding do_link is_admin key_in forestfire.Value.serializable forestfire.Value.dumps Dict.put
links = refl

match_command-do_link_example : match_command lib bot linked.dict_ docs ≡ (ok "help", docs)
unfolding is_admin forestfire.Synonym.any_has forestfire.Synonym.get_valid_syns key_in
match_command-do_link_example =
    match_command-do_link memory bot fmt lib link docs start (refl, refl, refl, refl) links refl
      refl refl

only_ping : (k : String) (v : Value) → Dict.get start.dict_ k ≡ some v → k ≡ "ping"
unfolding Dict.get
only_ping k v e = elim (Bool-cases ("ping" == k)) [
  | inl alike ↦ sym ((eq_iff "ping" k).0 alike)
  | inr differ ↦ absurd (no_entry (rw differ at e))
]
  where
    no_entry : Path (Option Value) none (some v) → ⊥
    no_entry h = cc

all_commands : AllCommands bot start.dict_
all_commands k v e = rw (only_ping k v e) refl

one_word : Unambiguous start.dict_
one_word word k j s t = only_ping k s.value s.stored ∙ sym (only_ping j t.value t.stored)

Unambiguous-do_link_example : Unambiguous linked.dict_
unfolding is_admin
Unambiguous-do_link_example =
    Unambiguous-do_link memory bot fmt link start refl all_commands one_word links

-- A synonym of a hidden command, told to someone else.
abbrev stranger : Message
stranger = record blank { uuid = "someone"; arg0 = "pong" }

reaches : (match_command lib bot start.dict_ stranger).0 ≡ ok "ping"
unfolding match_command is_admin key_in
reaches = refl

match_command-Reachable_example :
    ((("ping" ≡ stranger.arg0) × (contains bot.commands "ping" ≡ true))
      ⊎ (contains (valid_commands bot stranger) "ping" ≡ true))
    ⊎ Reachable bot (reparse lib bot stranger) "ping"
match_command-Reachable_example =
    match_command-Reachable lib bot start.dict_ stranger "ping" reaches refl

-- A command without synonyms has no list to unlink from.
unlink_raises : (do_unlink memory bot fmt (record link { arg0 = "unlink" }) start).0 ≡ err key_error
unfolding do_unlink is_admin Dict.get
unlink_raises = refl
