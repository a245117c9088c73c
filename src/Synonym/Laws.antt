-- ===== src/Synonym/Laws.antt =====
-- Words that are linked to a command, and what `match_command` makes of them.
use forestfire.Prelude.{
  none, Option, truthy, eq_iff, ◌⊎◌, sym, subst, ap, String, Bool, true, false, some, [], ◌∷◌, ◌==◌,
  string_eq, if◌then◌else◌, Bool-cases, contains, ◌≡◌, refl, ◌∙◌, inl, inr, arith,
}
use forestfire.Prelude.Exec.{Result, ok, err, bind}
use forestfire.Prelude.Dict
use forestfire.Prelude.Dict.{Dict, get-put}
use forestfire.Value.{Value, list}
use forestfire.Value.Access.{key_in}
use forestfire.Message.{Message, TextLib}
use forestfire.Bot.{is_admin, Config, valid_commands}
use forestfire.Persist.{KvClient, PersistDict}
use forestfire.Bot.Dispatch.{Reachable, match_command_valid}
use forestfire.Synonym.{
  or_bot, Synonyms, get_valid_syns, any_has, command_of, do_link, match_command,
}
use forestfire.Synonym.Words.{chosen, any_has-Only, get-keep, command_of-Only, Stands}
use forestfire.Synonym.Link.{Added, Added-do_link, do_link-cases, Links}
use forestfire.Bot.{reparse}

-- No word stands for two commands.
abbrev pub Unambiguous : Synonyms → Type 0
Unambiguous d = (word k j : String) → Stands word k d → Stands word j d → k ≡ j

-- Each key is a command of the bot.
abbrev pub AllCommands : Config → Synonyms → Type 0
AllCommands bot d =
    (k : String) (v : Value) → Dict.get d k ≡ some v → contains bot.commands k ≡ true

lacks_word :
    (word j : String) (w : Value) (d : Synonyms)
    → any_has word d ≡ ok false
    → Dict.get d j ≡ some w
    → key_in word w ≡ ok false
unfolding any_has Dict.get
lacks_word word j w [] h e = cc
lacks_word word j w ((k, v) ∷ d) h e = go (key_in word v) refl h (lacks_word word j w d)
  where
    go :
        (r : Result Bool)
        → key_in word v ≡ r
        → bind r (λ found. if found then ok true else any_has word d) ≡ ok false
        → (any_has word d ≡ ok false → Dict.get d j ≡ some w → key_in word w ≡ ok false)
        → key_in word w ≡ ok false
    go (err x) e' h rest = cc
    go (ok true) e' h rest = cc
    go (ok false) e' h rest = elim (Bool-cases (k == j)) [
      | inl alike ↦ let same_value : v ≡ w = ground (arith, rw alike at e) in rw⁻¹ same_value e'
      | inr differ ↦ rest h (rw differ at e)
    ]

not_standing : (word j : String) (d : Synonyms) → any_has word d ≡ ok false → Stands word j d → ⊥
not_standing word j d h s =
    let absent = lacks_word word j s.value d h s.stored in let there = s.has in cc

standing_chosen :
    (p : String → Bool) (word j : String) (d : Synonyms)
    → p j ≡ true
    → Stands word j d
    → Stands word j (chosen p d)
standing_chosen p word j d h s = record {
  value = s.value;
  stored = get-keep p j d h ∙ s.stored;
  has = s.has;
}

-- A standing text after a link was there before, or is the new word of the command.
before :
    (word k : String) (d d' : Synonyms)
    → Added word k d d'
    → (text j : String) → Stands text j d'
    → ((text ≡ word) × (j ≡ k)) ⊎ Stands text j d
before word k d d' a text j s = elim (Bool-cases (k == j)) [
  | inl alike ↦
      let e : j ≡ k = sym ((eq_iff k j).0 alike) in
      let same_value : s.value ≡ list a.items =
        ground (arith, s.stored, a.there, ap (Dict.get d') e) in
      elim (a.grown text (ap (key_in text) (sym same_value) ∙ s.has)) [
        | inl new ↦ inl (new, e)
        | inr old ↦ inr (subst (λ i. Stands text i d) (sym e) old)
      ]
  | inr differ ↦
      inr (record { value = s.value; stored = sym (a.kept j differ) ∙ s.stored; has = s.has })
]

Unambiguous-Added :
    (word k : String) (d d' : Synonyms)
    → Added word k d d'
    → ((j : String) → Stands word j d → ⊥)
    → Unambiguous d
    → Unambiguous d'
Unambiguous-Added word k d d' a new u text i j s t = elim (before word k d d' a text i s) [
  | inl (e, at_i) ↦ elim (before word k d d' a text j t) [
    | inl (f, at_j) ↦ at_i ∙ sym at_j
    | inr old ↦ absurd (new j (subst (λ x. Stands x j d) e old))
  ]
  | inr old ↦ elim (before word k d d' a text j t) [
    | inl (f, at_j) ↦ absurd (new i (subst (λ x. Stands x i d) f old))
    | inr old' ↦ u text i j old old'
  ]
]

module _ (kv : KvClient) (bot : Config) (fmt : Value → String) where
  abbrev Object : Type 0
  Object = PersistDict kv.Backend

  admin_commands :
      (msg : Message) → is_admin bot.secret msg ≡ true → valid_commands bot msg ≡ bot.commands
  admin_commands msg admin = rw admin refl

  new_word :
      (msg : Message) (d : Synonyms)
      → is_admin bot.secret msg ≡ true
      → AllCommands bot d
      → any_has msg.arg2 (get_valid_syns bot msg d) ≡ ok false
      → (j : String) → Stands msg.arg2 j d
      → ⊥
  unfolding get_valid_syns
  new_word msg d admin all h j s =
      let p : String → Bool = contains (valid_commands bot msg) in
      let valid : p j ≡ true =
        ap (λ cmds. contains cmds j) (admin_commands msg admin) ∙ all j s.value s.stored in
      not_standing msg.arg2 j (chosen p d) h (standing_chosen p msg.arg2 j d valid s)

  -- If no word stands for two commands, and each key is a command of the bot, then no word stands
  -- for two commands after a `do_link` by an admin that returned, whatever it answered.
  pub Unambiguous-do_link :
      (msg : Message) (s : Object) {r : String} {s' : Object}
      → is_admin bot.secret msg ≡ true
      → AllCommands bot s.dict_
      → Unambiguous s.dict_
      → do_link kv bot fmt msg s ≡ (ok r, s')
      → Unambiguous s'.dict_
  Unambiguous-do_link msg s {r} {s'} admin all u h = elim (do_link-cases kv bot fmt msg s h) [
    | inr kept ↦ subst (λ t. Unambiguous t.dict_) (sym kept) u
    | inl l ↦
        Unambiguous-Added msg.arg2 msg.arg1 s.dict_ s'.dict_ (Added-do_link kv bot fmt msg s l h)
          (new_word msg s.dict_ admin all l.3) u
  ]

  module _ (lib : TextLib) where
    -- A word that is linked to a command, where the sender may use the command and no command that
    -- he may use is or has the word: once the link has returned, a message of anyone with the same
    -- commands that begins with the word is a message for that command.
    pub match_command-do_link :
        (msg msg' : Message) (s : Object) {r : String} {s' : Object}
        → Links kv bot fmt msg s.dict_
        → do_link kv bot fmt msg s ≡ (ok r, s')
        → msg'.arg0 ≡ msg.arg2
        → contains bot.commands msg'.arg0 ≡ false
        → valid_commands bot msg' ≡ valid_commands bot msg
        → match_command lib bot s'.dict_ msg' ≡ (ok msg.arg1, msg')
    unfolding match_command get_valid_syns forestfire.Bot.is_admin
    match_command-do_link msg msg' s {r} {s'} l h word direct same_commands =
        let p : String → Bool = contains (valid_commands bot msg) in
        let a = Added-do_link kv bot fmt msg s l h in
        let o = a.others p (any_has-Only msg.arg2 msg.arg1 (chosen p s.dict_) l.3) in
        let found : command_of msg.arg2 (chosen p s'.dict_) ≡ ok (some msg.arg1) =
          command_of-Only msg.arg2 msg.arg1 (list a.items) (chosen p s'.dict_) o
            (get-keep p msg.arg1 s'.dict_ l.0 ∙ a.there) a.has_word in
        rw (word, l.1, rw word at direct, same_commands, found) refl

command_of-chosen :
    (p : String → Bool) (word k : String) (d : Synonyms)
    → command_of word (chosen p d) ≡ ok (some k)
    → p k ≡ true
unfolding command_of
command_of-chosen p word k [] h = cc
command_of-chosen p word k ((j, v) ∷ d) h = elim (Bool-cases (p j)) [
  | inr e ↦ command_of-chosen p word k d (rw e at h)
  | inl e ↦ go (key_in word v) e (rw e at h) (command_of-chosen p word k d)
]
  where
    go :
        (r : Result Bool)
        → p j ≡ true
        → bind r (λ found. if found then ok (some j) else command_of word (chosen p d))
          ≡ ok (some k)
        → (command_of word (chosen p d) ≡ ok (some k) → p k ≡ true)
        → p k ≡ true
    go (err x) e h rest = cc
    go (ok true) e h rest = let alike : j ≡ k = cc in ap p (sym alike) ∙ e
    go (ok false) e h rest = rest h

-- A command that `match_command` returns is the first word of the message as it stands, or one that
-- the sender may use, or one that the search of `Bot` may return: a sender who is no admin reaches
-- no hidden command by a synonym.
pub match_command-Reachable :
    (lib : TextLib) (bot : Config) (d : Synonyms) (msg : Message) (cmd : String)
    → (match_command lib bot d msg).0 ≡ ok cmd
    → truthy cmd ≡ true
    → (((cmd ≡ msg.arg0) × (contains bot.commands cmd ≡ true))
        ⊎ (contains (valid_commands bot msg) cmd ≡ true))
      ⊎ Reachable bot (reparse lib bot msg) cmd
unfolding match_command get_valid_syns
match_command-Reachable lib bot d msg cmd h t = elim (Bool-cases (truthy msg.arg0)) [
  | inr e ↦ absurd (not_empty (rw e at h))
  | inl e ↦ elim (Bool-cases (contains bot.commands msg.arg0)) [
    | inl f ↦ inl (inl (ground (arith, rw (e, f) at h)))
    | inr f ↦
        go (command_of msg.arg0 (chosen (contains (valid_commands bot msg)) d)) refl
          (rw (e, f) at h)
  ]
]
  where
    not_empty : Path (Result String) (ok "") (ok cmd) → ⊥
    not_empty h = cc

    go :
        (r : Result (Option String))
        → command_of msg.arg0 (chosen (contains (valid_commands bot msg)) d) ≡ r
        → (or_bot lib bot msg r).0 ≡ ok cmd
        → (((cmd ≡ msg.arg0) × (contains bot.commands cmd ≡ true))
            ⊎ (contains (valid_commands bot msg) cmd ≡ true))
          ⊎ Reachable bot (reparse lib bot msg) cmd
    go (err x) e h = cc
    go (ok (some k)) e h =
        let alike : k ≡ cmd = cc in
        inl (
          inr (
            ap (contains (valid_commands bot msg)) (sym alike)
            ∙ command_of-chosen (contains (valid_commands bot msg)) msg.arg0 k d e))
    go (ok none) e h = inr (match_command_valid lib bot msg cmd h t)
