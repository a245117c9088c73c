-- ===== src/Bot/Help.antt =====
-- forest/core.py, `Bot.do_help`. The docstrings of the methods are a parameter, and so is
-- `dedent(doc).strip()`.
use forestfire.Prelude.{
  String, Bool, true, false, not, ◌&&◌, ◌||◌, none, some, List, [], ◌∷◌, ◌==◌, string_eq,
  if◌then◌else◌, truthy, has_part, join, contains, keep, ◌&◌, ◌≡◌, refl, sym, ap, ◌∙◌, inl, inr,
  Bool-cases, arith, eq_iff,
}
use forestfire.Message.{Message, TextLib}
use forestfire.Bot.{Config, Reply, visible_commands, documented_commands}

-- `cmd.__doc__` and `cmd.__group_doc__`, empty where there is none.
pub record Docs : Type 0 where
  pub doc : String → String
  pub group_doc : String → String

module _ (lib : TextLib) (dedent : String → String) where
  -- What is said of a command that is there and not hidden.
  unfoldable pub describe : Docs → Message → String → String
  describe docs msg name =
      if truthy (docs.group_doc name) && truthy msg.group
      then dedent (docs.group_doc name)
      else if truthy (docs.doc name)
      then dedent (docs.doc name)
      else name & " isn't documented, sorry :("

  unfoldable pub do_help : Config → Docs → Message → Reply
  unfolding describe documented_commands has_part
  do_help bot docs msg =
      if truthy msg.text && has_part msg.text "Documented commands"
      then none
      else if truthy msg.arg1
      then some (
          if not (contains bot.commands msg.arg1) || bot.hidden msg.arg1
          then "No such command '" & msg.arg1 & "'"
          else describe docs msg msg.arg1)
      else some (documented_commands lib bot)

  contains-keep :
      (hidden : String → Bool) (xs : List String) (x : String)
      → contains (keep (λ name. not (hidden name)) xs) x ≡ (contains xs x && not (hidden x))
  contains-keep hidden [] x = refl
  contains-keep hidden (y ∷ ys) x = elim (Bool-cases (x == y)) [
    | inl alike ↦
        let e : hidden y ≡ hidden x = ap hidden (sym ((eq_iff x y).0 alike)) in
        ground (arith, contains-keep hidden ys x)
    | inr differ ↦ ground (arith, contains-keep hidden ys x)
  ]

  or-not : (a b : Bool) → (not a || b) ≡ not (a && not b)
  or-not true true = refl
  or-not true false = refl
  or-not false b = refl

  -- The help as it follows from the visible commands alone.
  help_of : List String → Docs → Message → Reply
  help_of visible docs msg =
      if truthy msg.text && has_part msg.text "Documented commands"
      then none
      else if truthy msg.arg1
      then some (
          if not (contains visible msg.arg1)
          then "No such command '" & msg.arg1 & "'"
          else describe docs msg msg.arg1)
      else some (
          "Documented commands: "
          & join ", " visible
          & "\n\nFor more info about a command, try \"help\" [command]")

  do_help-help_of :
      (bot : Config) (docs : Docs) (msg : Message)
      → do_help bot docs msg ≡ help_of (visible_commands bot) docs msg
  unfolding do_help help_of documented_commands
  do_help-help_of bot docs msg =
      rw
        (
          or-not (contains bot.commands msg.arg1) (bot.hidden msg.arg1),
          contains-keep bot.hidden bot.commands msg.arg1,
        )
        refl

  help_of-describe :
      (visible : List String) (docs docs' : Docs) (msg : Message)
      → ((name : String)
          → contains visible name ≡ true
          → describe docs msg name ≡ describe docs' msg name)
      → help_of visible docs msg ≡ help_of visible docs' msg
  unfolding help_of
  help_of-describe visible docs docs' msg h = elim (Bool-cases (contains visible msg.arg1)) [
    | inl e ↦ rw (e, h msg.arg1 e) refl
    | inr e ↦ rw e refl
  ]

  -- Two bots with the same visible commands and the same help on them give the same help to every
  -- message: nothing of a hidden command shows.
  pub do_help_visible :
      (bot bot' : Config) (docs docs' : Docs) (msg : Message)
      → visible_commands bot ≡ visible_commands bot'
      → ((name : String)
          → contains (visible_commands bot) name ≡ true
          → describe docs msg name ≡ describe docs' msg name)
      → do_help bot docs msg ≡ do_help bot' docs' msg
  do_help_visible bot bot' docs docs' msg same_commands same_docs =
      do_help-help_of bot docs msg
      ∙ help_of-describe (visible_commands bot) docs docs' msg same_docs
      ∙ ap (λ visible. help_of visible docs' msg) same_commands
      ∙ sym (do_help-help_of bot' docs' msg)
