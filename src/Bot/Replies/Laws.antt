-- ===== src/Bot/Replies/Laws.antt =====
-- What is sent for a message, up to the wait for signal-cli's answer.
use forestfire.Prelude.{
  join, ◌&◌, not, ◌&&◌, if◌then◌else◌, ℕ, nat_eq, string_eq, String, true, false, Option, none,
  some, ap, ◌∙◌, List, [], ◌∷◌, ◌++◌, truthy, ◌≡◌, refl, arith, ◌⊎◌, inl, inr, Bool-cases,
}
use forestfire.Prelude.Exec.{Exc, index_error, user_error, Result, ok, err, is_ok, bind}
use forestfire.Prelude.Dict.{get, put, update}
use forestfire.Value.{Value, str}
use forestfire.Message.{Message}
use forestfire.Signal.Requests.{
  Requests, Response, text, texts, table, table_lines, params_of, check_valid_recipient, Command,
  send_message, send_text, send_texts, submit,
}
use forestfire.Signal.Outgoing.{respond, plain}
use forestfire.Bot.Replies.{Replies, send_response, try_response, except}

-- Where the reply to a message goes, as the recipient and the group: to the group of the message,
-- or to its sender if it has none.
abbrev pub reply_place : Message → String × String
reply_place message = if truthy message.group then ("", message.group) else (message.uuid, "")

abbrev pub unless_empty : String → Option Value
unless_empty s = if truthy s then some (str s) else none

-- The command sends the words, to the recipient or the group and to nobody else.
abbrev pub Carries : String × String → String → Command → Type 0
Carries (recipient, group) words c =
    (c.method ≡ "send")
    × (get c.params "message" ≡ some (str words))
    × (get c.params "recipient" ≡ unless_empty recipient)
    × (get c.params "group-id" ≡ unless_empty group)

-- One command for each of the texts, in their order.
abbrev pub CarryAll : String × String → List String → List Command → Type 0
CarryAll place [] [] = Unit
CarryAll place (words ∷ more) (c ∷ cs) = Carries place words c × CarryAll place more cs
CarryAll place _ _ = ⊥

-- From `s` to `s'` the texts were sent.
abbrev pub Sent : String × String → List String → Requests → Requests → Type 0
Sent place words s s' = (cs : List Command) × (s'.outbox ≡ s.outbox ++ cs) × CarryAll place words cs

CarryAll-next :
    (place : String × String) (words : String) (cs : List Command) (more : List String)
    (cs' : List Command)
    → CarryAll place (words ∷ []) cs
    → CarryAll place more cs'
    → CarryAll place (words ∷ more) (cs ++ cs')
CarryAll-next place words [] more cs' h later = elim h [ ]
CarryAll-next place words (c ∷ []) more cs' h later = (h.0, later)
CarryAll-next place words (c ∷ (c' ∷ cs)) more cs' h later = elim h.1 [ ]

append_assoc : (xs ys zs : List Command) → (xs ++ ys) ++ zs ≡ xs ++ (ys ++ zs)
append_assoc [] ys zs = refl
append_assoc (x ∷ xs) ys zs = ap (λ l. x ∷ l) (append_assoc xs ys zs)

params_plain :
    (recipient words group : String)
    → let params = params_of recipient words group plain in
      (get params "message" ≡ some (str words))
      × (get params "recipient" ≡ unless_empty recipient)
      × (get params "group-id" ≡ unless_empty group)
unfolding params_of get put update
params_plain recipient words group = elim (Bool-cases (truthy recipient)) [
  | inl e ↦ elim (Bool-cases (truthy group)) [
    | inl e' ↦ rw (e, e') (refl, refl, refl)
    | inr e' ↦ rw (e, e') (refl, refl, refl)
  ]
  | inr e ↦ elim (Bool-cases (truthy group)) [
    | inl e' ↦ rw (e, e') (refl, refl, refl)
    | inr e' ↦ rw (e, e') (refl, refl, refl)
  ]
]

module _ (uid : ℕ → String) (canonical_uuid : String → Option String) where
  -- A group, or a recipient that is a uuid in its usual form.
  Open : String × String → Type 0
  Open (recipient, group) =
      (truthy recipient && truthy group ≡ false)
      × (not (truthy recipient) && not (truthy group) ≡ false)
      × (truthy recipient && not (check_valid_recipient uid canonical_uuid recipient) ≡ false)

  -- A call that returned and sent the texts.
  Done : String × String → List String → Requests → Result String × Requests → Type 0
  unfolding Open
  Done place words s (r, s') = (is_ok r ≡ true) × Sent place words s s'

  send_text-Done :
      (recipient words group : String) (s : Requests)
      → Open (recipient, group)
      → Done
          (recipient, group)
          (words ∷ [])
          s
          (send_text uid canonical_uuid recipient words group plain s)
  unfolding send_text Done submit
  send_text-Done recipient words group s (_, _, valid) =
      let c : Command = record {
        id = "send-" & uid s.next_uid;
        method = "send";
        params = params_of recipient words group plain;
      } in
      let (said, to, at_group) = params_plain recipient words group in
      rw valid (refl, (c ∷ [], refl, ((refl, said, to, at_group), tt)))

  send_texts-Done :
      (recipient words : String) (more : List String) (group : String) (s : Requests)
      → Open (recipient, group)
      → Done
          (recipient, group)
          (words ∷ more)
          s
          (send_texts uid canonical_uuid recipient (words ∷ more) group plain s)
  unfolding send_texts Done
  send_texts-Done recipient words [] group s h = send_text-Done recipient words group s h
  send_texts-Done recipient words (next ∷ more) group s h =
      let (_, (cs, sent, carried)) = send_text-Done recipient words group s h in
      let (fine, (cs', sent', carried')) =
        send_texts-Done recipient next more group
          (send_text uid canonical_uuid recipient words group plain s).1 h in
      (
        fine,
        (
          cs ++ cs',
          sent' ∙ ap (λ o. o ++ cs') sent ∙ append_assoc s.outbox cs cs',
          CarryAll-next (recipient, group) words cs (next ∷ more) cs' carried carried',
        ),
      )

  -- The texts of an answer.
  abbrev pub words_of : Response → List String
  words_of (text words) = words ∷ []
  words_of (texts ms) = ms
  words_of (table d) = join "\n" (table_lines d) ∷ []

  send_message-Done :
      (recipient group : String) (r : Response) (words : String) (more : List String) (s : Requests)
      → Open (recipient, group)
      → words_of r ≡ words ∷ more
      → Done
          (recipient, group)
          (words_of r)
          s
          (send_message uid canonical_uuid recipient r group plain s)
  unfolding send_message Done Open
  send_message-Done recipient group (text m) words more s h e =
      rw (h.0, h.1) (send_text-Done recipient m group s h)
  send_message-Done recipient group (table d) words more s h e =
      rw (h.0, h.1) (send_text-Done recipient (join "\n" (table_lines d)) group s h)
  send_message-Done recipient group (texts []) words more s h e = cc
  send_message-Done recipient group (texts (m ∷ ms)) words more s h e =
      rw (h.0, h.1) (send_texts-Done recipient m ms group s h)

  -- A message in a group, or of a sender whose uuid is in its usual form.
  abbrev pub CanReply : Message → Type 0
  CanReply message =
      (truthy message.group ≡ true)
      ⊎ ((truthy message.uuid ≡ true)
          × (check_valid_recipient uid canonical_uuid message.uuid ≡ true))

  respond-Done :
      (message : Message) (r : Response) (words : String) (more : List String) (s : Requests)
      → CanReply message
      → words_of r ≡ words ∷ more
      → Done (reply_place message) (words_of r) s (respond uid canonical_uuid message r plain s)
  unfolding respond Open
  respond-Done message r words more s h e = elim (Bool-cases (truthy message.group)) [
    | inl group ↦
        rw group (send_message-Done "" message.group r words more s (refl, ap not group, refl) e)
    | inr alone ↦ elim h [
      | inl group ↦ cc
      | inr (sender, valid) ↦ rw alone (
          send_message-Done message.uuid "" r words more s
            (rw sender refl, rw sender refl, rw (sender, valid) refl) e)
    ]
  ]

  module _ (trace : Message → Exc → String) where
    -- The texts are sent to the place of the message, and the admins are not told.
    abbrev pub Replied : Message → List String → Replies → Replies → Type 0
    Replied message words s s' =
        Sent (reply_place message) words s.requests s'.requests × (s'.notices ≡ s.notices)

    -- Nothing is sent, and the admins are told of the exception.
    abbrev pub Told : Message → Exc → Replies → Replies → Type 0
    Told message e s s' =
        (s'.requests ≡ s.requests) × (s'.notices ≡ s.notices ++ (trace message e ∷ []))

    -- What becomes of an answer, and of an exception.
    abbrev pub Outcome : Message → Result (Option Response) → Replies → Replies → Type 0
    Outcome message (ok none) s s' = s' ≡ s
    Outcome message (ok (some (texts []))) s s' = Told message index_error s s'
    Outcome message (ok (some r)) s s' = Replied message (words_of r) s s'
    Outcome message (err (user_error e)) s s' = Replied message (e ∷ []) s s'
    Outcome message (err e) s s' = Told message e s s'

    send_response-ok :
        (message : Message) (r : Response) (words : String) (more : List String) (s : Replies)
        → CanReply message
        → words_of r ≡ words ∷ more
        → Replied message
            (words_of r)
            s
            (send_response uid canonical_uuid trace message (ok (some r)) s).1
    unfolding send_response try_response except Done
    send_response-ok message r words more s h e =
        go (respond uid canonical_uuid message r plain s.requests)
          (respond-Done message r words more s.requests h e)
      where
        go :
            (p : Result String × Requests)
            → Done (reply_place message) (words_of r) s.requests p
            → let s' = record s { requests = p.1 } in
              Replied message
                (words_of r)
                s
                (except uid canonical_uuid trace message
                  (bind p.0 (λ rpc_id. ok (some rpc_id)))
                  s').1
        go (ok rpc_id, t) (_, sent) = (sent, refl)
        go (err x, t) (fine, sent) = cc

    no_texts :
        (message : Message) (s : Replies)
        → CanReply message
        → Told message index_error s
            (send_response uid canonical_uuid trace message (ok (some (texts []))) s).1
    unfolding send_response try_response except respond send_message send_texts
    no_texts message s h = ground arith

    -- For a message in a group, or of a sender whose uuid is in its usual form: an answer of a text, a
    -- table or some texts is sent, a command for each text in their order, to the group, or else to the
    -- sender, and to nobody else, and so is the text of a UserError; no answer changes nothing; for any
    -- other exception, and for an empty list, nothing is sent and the admins are told once.
    pub send_response-Outcome :
        (message : Message) (r : Result (Option Response)) (s : Replies)
        → CanReply message
        → Outcome message r s (send_response uid canonical_uuid trace message r s).1
    unfolding send_response try_response except Done
    send_response-Outcome message (ok none) s h = refl
    send_response-Outcome message (ok (some (texts []))) s h = no_texts message s h
    send_response-Outcome message (ok (some (texts (m ∷ ms)))) s h =
        send_response-ok message (texts (m ∷ ms)) m ms s h refl
    send_response-Outcome message (ok (some (text m))) s h =
        send_response-ok message (text m) m [] s h refl
    send_response-Outcome message (ok (some (table d))) s h =
        send_response-ok message (table d) (join "\n" (table_lines d)) [] s h refl
    send_response-Outcome message (err (user_error e)) s h =
        let (_, sent) = respond-Done message (text e) e [] s.requests h refl in (sent, refl)
    send_response-Outcome message (err e) s h = (refl, refl)
