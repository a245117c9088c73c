-- ===== src/Message/Laws.antt =====
-- How `parse_text` splits a text into a command and its tokens.
use forestfire.Prelude.{
  ◌≢◌, ◌≡◌, refl, ap, ◌∙◌, String, true, false, none, some, List, [], ◌∷◌, ◌==◌, string_eq, nat_eq,
  removeprefix, join, arith, ◌&◌, Bool-cases, inl, inr,
}
use Prim.Native.Char.{Char, code}
use text.Mathlib.TextLemmas.{nil-append, cons-append}
use text.Mathlib.TextEquality.{Char-path}
use forestfire.Message.{
  split_char, Message, TextLib, split, split_once, space, words, try_words, parse_text, head_or,
  tail_of,
}

space_char : (c : Char) (s : String) → (code c == space) ≡ true → " " & s ≡ String.◌∷◌ c s
space_char c s h =
    let blank : Char = " " in
    let e : blank ≡ c = Char-path blank c (ground arith) in
    cons-append blank String.[] s ∙ (rw e (ap (String.◌∷◌ c) (nil-append s)))

join-split_char :
    (c : Char) (w : String) (ws : List String)
    → join " " (split_char c (w ∷ ws)) ≡ String.◌∷◌ c (join " " (w ∷ ws))
unfolding split_char join
join-split_char c w ws = elim (Bool-cases (code c == space)) [
  | inl at_space ↦ rw at_space (nil-append _ ∙ space_char c (join " " (w ∷ ws)) at_space)
  | inr inside ↦ rw inside (cons_join ws)
]
  where
    cons_join :
        (vs : List String) → join " " (String.◌∷◌ c w ∷ vs) ≡ String.◌∷◌ c (join " " (w ∷ vs))
    cons_join [] = refl
    cons_join (v ∷ vs) = cons-append c w _

split_cons : (c : Char) (s : String) → split (String.◌∷◌ c s) ≡ split_char c (split s)
unfolding split
split_cons c s = refl

split_char-ne-nil : (c : Char) (ws : List String) → ws ≢ [] → split_char c ws ≢ []
unfolding split_char
split_char-ne-nil c [] h = absurd (h refl)
split_char-ne-nil c (w ∷ ws) h = ground arith

split-ne-nil : (s : String) → split s ≢ []
split-ne-nil String.[] = unfold split in ground arith
split-ne-nil (String.◌∷◌ c s) = rw split_cons (split_char-ne-nil c (split s) (split-ne-nil s))

-- Joining the parts of a split gives the text back.
pub join-split : (s : String) → join " " (split s) ≡ s
join-split String.[] = unfold split join in refl
join-split (String.◌∷◌ c s) = go (split s) refl (join-split s)
  where
    go :
        (ws : List String)
        → split s ≡ ws
        → join " " (split s) ≡ s
        → join " " (split (String.◌∷◌ c s)) ≡ String.◌∷◌ c s
    go [] e h = absurd (split-ne-nil s e)
    go (w ∷ ws) e h = rw split_cons (rw e (join-split_char c w ws ∙ ap (String.◌∷◌ c) (rw e at h)))

split_once-space :
    (c : Char) (s a b : String)
    → (code c == space) ≡ true
    → split_once (String.◌∷◌ c s) ≡ some (a, b)
    → (a ≡ "") × (b ≡ s)
unfolding split_once
split_once-space c s a b e h = (ground arith, ground arith)

split_once_inside :
    (c : Char) (s a b : String)
    → (code c == space) ≡ false
    → split_once (String.◌∷◌ c s) ≡ some (a, b)
    → (a' : String) × (a ≡ String.◌∷◌ c a') × (split_once s ≡ some (a', b))
unfolding split_once
split_once_inside c s a b e h = ground arith

-- Splitting once at a space takes nothing away but that space.
pub split_once_lem : (s a b : String) → split_once s ≡ some (a, b) → a & " " & b ≡ s
split_once_lem String.[] a b h = unfold split_once in cc
split_once_lem (String.◌∷◌ c s) a b h = elim (Bool-cases (code c == space)) [
  | inl at_space ↦
      let (e, f) = split_once-space c s a b at_space h in
      rw (e, f) (nil-append _ ∙ space_char c s at_space)
  | inr inside ↦
      let (a', e, f) = split_once_inside c s a b inside h in
      rw e (cons-append c a' _ ∙ ap (String.◌∷◌ c) (split_once_lem s a' b f))
]

head_tail : (ws : List String) → ws ≢ [] → head_or ws "" ∷ tail_of ws ≡ ws
head_tail [] h = absurd (h refl)
head_tail (w ∷ ws) h = refl

module _ (lib : TextLib) where
  -- Whether the text is split by `shlex` or not: the tokens of a parsed message make up its text.
  pub parse_text-join :
      (text : String) (m : Message)
      → (parse_text lib text m).text ≡ join " " (parse_text lib text m).tokens
  unfolding parse_text
  parse_text-join text m = ground arith

  -- A command that is followed by true JSON is parsed to that JSON: the message's text is the text
  -- behind the first space, however many spaces it holds, and the command is what stands before it.
  pub parse_text_json :
      (text command json : String) (m : Message)
      → split_once text ≡ some (command, json)
      → lib.json_truth json ≡ some true
      → let parsed = parse_text lib text m in
        (parsed.text ≡ json)
        × (parsed.arg0 ≡ lib.lower (removeprefix command "/"))
        × (command & " " & json ≡ text)
  unfolding parse_text
  parse_text_json text command json m s j =
      let e : words lib text ≡ (command, split json) = ground arith in
      (
        ap (λ (p : String × List String). join " " p.1) e ∙ join-split json,
        ap (λ (p : String × List String). lib.lower (removeprefix p.0 "/")) e,
        split_once_lem text command json s,
      )

  -- A text that is neither of the two is split at its spaces, and loses nothing.
  pub parse_text_plain :
      (text : String) (m : Message)
      → try_words lib text ≡ none
      → let (arg0, tokens) = words lib text in
        (join " " (arg0 ∷ tokens) ≡ text)
        × ((parse_text lib text m).tokens ≡ tokens)
        × ((parse_text lib text m).arg0 ≡ lib.lower (removeprefix arg0 "/"))
  unfolding parse_text
  parse_text_plain text m h =
      let e : words lib text ≡ (head_or (split text) "", tail_of (split text)) = ground arith in
      (
        ap (λ (p : String × List String). join " " (p.0 ∷ p.1)) e
            ∙ ap (join " ") (head_tail (split text) (split-ne-nil text))
            ∙ join-split text,
        refl,
        refl,
      )
