-- ===== src/Synonym/Link.antt =====
-- What `do_link` makes of the dictionary of synonyms.
use forestfire.Prelude.{
  List, subst, String, Bool, true, false, Option, none, some, ◌==◌, string_eq, truthy, ◌&◌,
  Bool-cases, contains, ◌≡◌, refl, sym, ap, ◌∙◌, ◌⊎◌, inl, inr, arith, eq_refl,
}
use forestfire.Prelude.Exec.{Result, ok, err, ◌>>◌, pure}
use forestfire.Prelude.Dict
use forestfire.Prelude.Dict.{Dict, get-put}
use forestfire.Value.{Value, str, list, Items, nil, cons}
use forestfire.Value.Access.{key_in}
use forestfire.Message.{Message}
use forestfire.Bot.{Config, valid_commands}
use forestfire.Persist.{KvClient, PersistDict, set, assign}
use forestfire.Persist.Lists.{extend, append}
use forestfire.Persist.Sync.{set_locked-dict, set-eq}
use forestfire.Persist.Lists.Laws.{extend_missing-dict, extend-dict, extend-IsList}
use forestfire.Synonym.{
  commands_with, Synonyms, get_valid_syns, any_has, do_link, add_word, link_word,
}
use forestfire.Synonym.Words.{Only, chosen, put-Only, key_in-append, Stands, grown_one, grown_list}

-- What a link of `word` to `k` makes of the dictionary.
pub record Added (word k : String) (d d' : Synonyms) : Type 0 where
  pub items : Items
  pub has_word : key_in word (list items) ≡ ok true
  pub there : Dict.get d' k ≡ some (list items)
  pub others : (p : String → Bool) → Only word k (chosen p d) → Only word k (chosen p d')
  pub kept : (j : String) → (k == j) ≡ false → Dict.get d' j ≡ Dict.get d j
  pub grown : (text : String) → key_in text (list items) ≡ ok true → (text ≡ word) ⊎ Stands text k d

Added-assign :
    (word k : String) (vs : Items) (d : Synonyms)
    → key_in word (list vs) ≡ ok true
    → ((text : String) → key_in text (list vs) ≡ ok true → (text ≡ word) ⊎ Stands text k d)
    → Added word k d (assign d k (list vs))
unfolding assign
Added-assign word k vs d h g = record {
  items = vs;
  has_word = h;
  there = simp (get-put, eq_refl);
  others = λ p o. put-Only p word k (list vs) d o;
  kept = λ j differ. simp (get-put, differ);
  grown = g;
}

-- `extend` puts the list twice.
Added-assign_twice :
    (word k : String) (vs : Items) (d : Synonyms)
    → key_in word (list vs) ≡ ok true
    → ((text : String) → key_in text (list vs) ≡ ok true → (text ≡ word) ⊎ Stands text k d)
    → Added word k d (assign (Dict.put d k (list vs)) k (list vs))
unfolding assign
Added-assign_twice word k vs d h g = record {
  items = vs;
  has_word = h;
  there = simp (get-put, eq_refl);
  others =
      λ p o. put-Only p word k (list vs) (Dict.put d k (list vs)) (put-Only p word k (list vs) d o);
  kept = λ j differ. simp (get-put, differ);
  grown = g;
}

module _ (kv : KvClient) where
  abbrev Object : Type 0
  Object = PersistDict kv.Backend

  Added-set :
      (word k : String) (s : Object) {r : String} {s' : Object}
      → set kv k (list (cons (str word) nil)) s ≡ (ok r, s')
      → Added word k s.dict_ s'.dict_
  unfolding append
  Added-set word k s {s'} h =
      subst (Added word k s.dict_)
        (sym (
          set_locked-dict kv k (list (cons (str word) nil)) s
            (set-eq kv k (list (cons (str word) nil)) s h).1))
        (Added-assign word k (cons (str word) nil) s.dict_ (key_in-append word nil)
          (grown_one word k s.dict_))

  Added-extend :
      (word k : String) (s : Object) {r : String} {s' : Object}
      → extend kv k (str word) s ≡ (ok r, s')
      → Added word k s.dict_ s'.dict_
  unfolding append
  Added-extend word k s {r} {s'} h = go (Dict.get s.dict_ k) refl
    where
      go : (found : Option Value) → Dict.get s.dict_ k ≡ found → Added word k s.dict_ s'.dict_
      go none e = subst (Added word k s.dict_) (sym (extend_missing-dict kv k (str word) s e h)) (
          Added-assign word k (cons (str word) nil) s.dict_ (key_in-append word nil)
            (grown_one word k s.dict_))
      go (some (list vs)) e =
          subst (Added word k s.dict_) (sym (extend-dict kv k (str word) vs s e h)) (
            Added-assign_twice word k (append vs (str word)) s.dict_ (key_in-append word vs)
              (λ text. grown_list word k vs s.dict_ text e))
      go (some other) e = absurd (extend-IsList kv k (str word) other s e h)

  module _ (bot : Config) (fmt : Value → String) where
    Added-add_word :
        (msg : Message) (valid_syns : Synonyms) (s : Object) {r : String} {s' : Object}
        → add_word kv bot fmt msg valid_syns s ≡ (ok r, s')
        → Added msg.arg2 msg.arg1 s.dict_ s'.dict_
    unfolding add_word
    Added-add_word msg valid_syns s h =
        elim (Bool-cases (contains (Dict.keys valid_syns) msg.arg1)) [
          | inl e ↦ Added-extend msg.arg2 msg.arg1 s (rw e at h)
          | inr e ↦ Added-set msg.arg2 msg.arg1 s (rw e at h)
        ]

    -- The conditions under which `do_link` adds the word.
    abbrev pub Links : Message → Synonyms → Type 0
    Links msg d =
        (contains (valid_commands bot msg) msg.arg1 ≡ true)
        × (truthy msg.arg2 ≡ true)
        × (contains (valid_commands bot msg) msg.arg2 ≡ false)
        × (any_has msg.arg2 (get_valid_syns bot msg d) ≡ ok false)

    pub Added-do_link :
        (msg : Message) (s : Object) {r : String} {s' : Object}
        → Links msg s.dict_
        → do_link kv bot fmt msg s ≡ (ok r, s')
        → Added msg.arg2 msg.arg1 s.dict_ s'.dict_
    unfolding do_link link_word
    Added-do_link msg s {r} {s'} l h =
        let (a, b, c, d) = l in
        go (add_word kv bot fmt msg (get_valid_syns bot msg s.dict_) s) refl (rw (a, b, c, d) at h)
      where
        text : String
        text = "Linked synonym '" & msg.arg2 & "' to command '" & msg.arg1 & "'"

        go :
            (p : Result String × Object)
            → add_word kv bot fmt msg (get_valid_syns bot msg s.dict_) s ≡ p
            → Path (Result String × Object) (((λ _. p) >> pure text) s) (ok r, s')
            → Added msg.arg2 msg.arg1 s.dict_ s'.dict_
        go (ok a, t) e h' =
            let same_state : t ≡ s' = ground arith in
            Added-add_word msg (get_valid_syns bot msg s.dict_) s
              (e ∙ ap (λ u. (ok a, u)) same_state)
        go (err x, t) e h' = ground arith

    no_change :
        (m : Message) (text : String) (s : Object) {r : String} {s' : Object}
        → Path (Result String × Object) (ok text, s) (ok r, s')
        → Links m s.dict_ ⊎ (s' ≡ s)
    no_change m text s h = inr (ground arith)

    link_word-kept :
        (msg : Message) (valid_syns : Synonyms) (s : Object) {r : String} {s' : Object}
        → link_word kv bot fmt msg valid_syns true s ≡ (ok r, s')
        → s' ≡ s
    unfolding link_word
    link_word-kept msg valid_syns s {r} {s'} h = go (commands_with msg.arg2 valid_syns) refl
      where
        go : (cmds : Result (List String)) → commands_with msg.arg2 valid_syns ≡ cmds → s' ≡ s
        go (ok cmds) e = ground arith
        go (err x) e = ground arith

    -- A `do_link` that returns has added the word, or has changed nothing.
    pub do_link-cases :
        (msg : Message) (s : Object) {r : String} {s' : Object}
        → do_link kv bot fmt msg s ≡ (ok r, s')
        → Links msg s.dict_ ⊎ (s' ≡ s)
    unfolding do_link
    do_link-cases msg s {r} {s'} h =
        elim (Bool-cases (contains (valid_commands bot msg) msg.arg1)) [
          | inr a ↦ inr (ground (arith, rw a at h))
          | inl a ↦ elim (Bool-cases (truthy msg.arg2)) [
            | inr b ↦ inr (ground (arith, rw (a, b) at h))
            | inl b ↦ elim (Bool-cases (contains (valid_commands bot msg) msg.arg2)) [
              | inl c ↦ inr (ground (arith, rw (a, b, c) at h))
              | inr c ↦ go (any_has msg.arg2 (get_valid_syns bot msg s.dict_)) refl a b c
            ]
          ]
        ]
      where
        go :
            (found : Result Bool)
            → any_has msg.arg2 (get_valid_syns bot msg s.dict_) ≡ found
            → contains (valid_commands bot msg) msg.arg1 ≡ true
            → truthy msg.arg2 ≡ true
            → contains (valid_commands bot msg) msg.arg2 ≡ false
            → Links msg s.dict_ ⊎ (s' ≡ s)
        go (ok false) e a b c = inl (a, b, c, e)
        go (ok true) e a b c =
            inr (link_word-kept msg (get_valid_syns bot msg s.dict_) s (rw (a, b, c, e) at h))
        go (err x) e a b c = inr (ground (arith, rw (a, b, c, e) at h))
