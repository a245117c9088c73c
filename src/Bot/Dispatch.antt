-- ===== src/Bot/Dispatch.antt =====
-- What `match_command` can return.
use forestfire.Prelude.{
  ap, subst, ◌<◌, String, Bool, true, false, not, ◌&&◌, ◌||◌, none, List, [], ◌∷◌, ◌==◌, string_eq,
  truthy, startswith, contains, keep, ◌≡◌, refl, ◌⊎◌, inl, inr, arith, eq_refl, length, Bool-cases,
}
use forestfire.Prelude.Exec.{Result, ok, err, bind}
use forestfire.Message.{Message, TextLib}
use forestfire.Distance
use forestfire.Distance.{Fraction, Scored, ltb_fraction}
use forestfire.Distance.Closest.{match_closest}
use forestfire.Bot.{
  default, mentions_us, Reply, handle_message, is_command, Config, valid_commands, only, accept,
  reparse, lookup_command, match_command,
}

-- A text that is kept is one of the texts.
contains-keep :
    (p : String → Bool) (xs : List String) (x : String)
    → contains (keep p xs) x ≡ true
    → contains xs x ≡ true
contains-keep p [] x h = h
contains-keep p (y ∷ ys) x h = ground (arith, contains-keep p ys x)

contains-only : (xs : List String) → truthy (only xs) ≡ true → contains xs (only xs) ≡ true
contains-only [] h = cc
contains-only (x ∷ []) h = ground (arith, eq_refl x)
contains-only (x ∷ y ∷ ys) h = cc

only-keep-contains :
    (p : String → Bool) (xs : List String)
    → truthy (only (keep p xs)) ≡ true
    → contains xs (only (keep p xs)) ≡ true
only-keep-contains p xs t = contains-keep p xs (only (keep p xs)) (contains-only (keep p xs) t)

accept_valid :
    (bot : Config) (msg : Message) (score : Fraction) (cmd : String)
    → contains (valid_commands bot msg) cmd ≡ true
    → truthy (accept bot msg (score, cmd)) ≡ true
    → contains (valid_commands bot msg) (accept bot msg (score, cmd)) ≡ true
unfolding accept
accept_valid bot msg score cmd h t = elim (Bool-cases (ltb_fraction score bot.threshold)) [
  | inl e ↦ rw e h
  | inr e ↦
      rw e
        (only-keep-contains (λ name. startswith cmd msg.arg0) (valid_commands bot msg) (rw e at t))
]

-- What `match_command` may make of a message whose first word is `arg0`.
abbrev pub Reachable : Config → Message → String → Type 0
Reachable bot msg cmd =
    ((cmd ≡ msg.arg0) × (contains bot.commands cmd ≡ true))
    ⊎ (contains (valid_commands bot msg) cmd ≡ true)

near_miss :
    (bot : Config) (msg : Message) (cmd : String)
    → bind (Distance.match msg.arg0 (valid_commands bot msg)) (λ best. ok (accept bot msg best))
      ≡ ok cmd
    → truthy cmd ≡ true
    → contains (valid_commands bot msg) cmd ≡ true
near_miss bot msg cmd h t = go (Distance.match msg.arg0 (valid_commands bot msg)) refl h
  where
    go :
        (r : Result Scored)
        → Distance.match msg.arg0 (valid_commands bot msg) ≡ r
        → bind r (λ best. ok (accept bot msg best)) ≡ ok cmd
        → contains (valid_commands bot msg) cmd ≡ true
    go (err e) same h = cc
    go (ok (score, best)) same h =
        let listed = match_closest msg.arg0 (valid_commands bot msg) score best same in
        let e : accept bot msg (score, best) ≡ cmd = cc in
        subst (λ c. contains (valid_commands bot msg) c ≡ true) e
          (accept_valid bot msg score best listed.0 (rw e t))

none_found : (cmd : String) → Path (Result String) (ok "") (ok cmd) → truthy cmd ≡ true → ⊥
none_found cmd h t = cc

keep_all : {A : Type 0} (xs : List A) → keep (λ x. true) xs ≡ xs
keep_all [] = refl
keep_all (x ∷ xs) = ap (◌∷◌ x) (keep_all xs)

keep_none : {A : Type 0} (xs : List A) → keep (λ x. false) xs ≡ []
keep_none [] = refl
keep_none (x ∷ xs) = keep_none xs

only_many : (xs : List String) → 1 < length xs → only xs ≡ ""
only_many [] h = refl
only_many (x ∷ []) h = absurd (omega arith)
only_many (x ∷ y ∷ xs) h = refl

-- A first word that is not within the threshold of the closest command is never expanded to a
-- command that it begins, if the sender may reach two commands or more: no command is found.
pub accept_far :
    (bot : Config) (msg : Message) (score : Fraction) (cmd : String)
    → ltb_fraction score bot.threshold ≡ false
    → 1 < length (valid_commands bot msg)
    → accept bot msg (score, cmd) ≡ ""
unfolding accept
accept_far bot msg score cmd far many = elim (Bool-cases (startswith cmd msg.arg0)) [
  | inl e ↦ rw (far, e, keep_all (valid_commands bot msg)) (only_many (valid_commands bot msg) many)
  | inr e ↦ rw (far, e, keep_none (valid_commands bot msg)) refl
]

module _ (lib : TextLib) (bot : Config) where
  lookup_command_valid :
      (msg : Message) (cmd : String)
      → lookup_command lib bot msg ≡ ok cmd
      → truthy cmd ≡ true
      → Reachable bot msg cmd
  unfolding lookup_command
  lookup_command_valid msg cmd h t = elim (Bool-cases (contains bot.commands msg.arg0)) [
    | inl e ↦ inl (ground (arith))
    | inr e ↦
        elim (Bool-cases
          (truthy (bot.secret "ENABLE_MAGIC") && (not (truthy msg.group) || is_command bot msg))) [
            | inl f ↦ inr (near_miss bot msg cmd (rw (e, f) at h) t)
            | inr f ↦ absurd (none_found cmd (rw (e, f) at h) t)
          ]
  ]

  -- A command that `match_command` returns is one that the bot has. Unless it is the first word of
  -- the message as it stands, it is one that the sender may reach by a near miss: a sender who is
  -- no admin reaches a hidden command by its exact name only.
  pub match_command_valid :
      (msg : Message) (cmd : String)
      → (match_command lib bot msg).0 ≡ ok cmd
      → truthy cmd ≡ true
      → Reachable bot (reparse lib bot msg) cmd
  unfolding match_command
  match_command_valid msg cmd h t = elim (Bool-cases (truthy msg.arg0)) [
    | inl e ↦ lookup_command_valid (reparse lib bot msg) cmd (rw e at h) t
    | inr e ↦ absurd (none_found cmd (rw e at h) t)
  ]

  is_command_quiet :
      (msg : Message)
      → startswith msg.full_text "/" ≡ false
      → mentions_us bot msg ≡ false
      → is_command bot msg ≡ false
  unfolding is_command
  is_command_quiet msg slash mention = ground arith

  lookup_command_quiet :
      (msg : Message)
      → truthy msg.group ≡ true
      → is_command bot msg ≡ false
      → contains bot.commands msg.arg0 ≡ false
      → lookup_command lib bot msg ≡ ok ""
  unfolding lookup_command
  lookup_command_quiet msg group quiet command =
      elim (Bool-cases (truthy (bot.secret "ENABLE_MAGIC"))) [
        | inl e ↦ rw (command, e, group, quiet) refl
        | inr e ↦ rw (command, e) refl
      ]

  match_command_quiet :
      (msg : Message)
      → truthy msg.group ≡ true
      → startswith msg.full_text "/" ≡ false
      → mentions_us bot msg ≡ false
      → contains bot.commands msg.arg0 ≡ false
      → match_command lib bot msg ≡ (ok "", msg)
  unfolding match_command
  match_command_quiet msg group slash mention command =
      let same : reparse lib bot msg ≡ msg = unfold reparse in rw mention refl in
      let none_found =
        lookup_command_quiet msg group (is_command_quiet msg slash mention) command in
      elim (Bool-cases (truthy msg.arg0)) [
        | inl e ↦ rw (e, same, none_found) refl
        | inr e ↦ rw e refl
      ]

  default_group : (msg : Message) → truthy msg.group ≡ true → default lib bot msg ≡ none
  unfolding default
  default_group msg group = elim (Bool-cases (truthy msg.text)) [
    | inl e ↦ rw (e, group) refl
    | inr e ↦ rw e refl
  ]

  -- In a group, a message that neither begins with a slash nor mentions the bot, and whose first
  -- word is no command, is left alone: no answer, and no change of the bot's state.
  pub handle_message_quiet :
      {S : Type 0} (run : String → Message → S → Result Reply × S) (msg : Message) (s : S)
      → truthy msg.group ≡ true
      → startswith msg.full_text "/" ≡ false
      → mentions_us bot msg ≡ false
      → contains bot.commands msg.arg0 ≡ false
      → (msg.text == "TERMINATE") ≡ false
      → handle_message lib bot run msg s ≡ (ok none, s)
  unfolding handle_message
  handle_message_quiet run msg s group slash mention command terminate =
      rw (match_command_quiet msg group slash mention command, terminate, default_group msg group)
        refl
