-- ===== src/Signal/Requests/Laws.antt =====
-- A command that is sent, its answer, and the call that waits for it.
use forestfire.Prelude.{
  ◌&&◌, ◌⊎◌, ◌⊎◌, subst, ◌&◌, if◌then◌else◌, ◌∙◌, sym, ap, ℕ, String, Bool, true, false, not,
  Option, none, some, truthy, ◌≡◌, refl, arith, string_eq, Bool-cases, inl, inr,
}
use forestfire.Prelude.Exec.{Result, ok, err, value_error}
use forestfire.Prelude.Dict.{Dict, get, put, remove, get-put, get-remove, ==_refl}
use forestfire.Message.{Message}
use forestfire.Signal.Requests.{
  Command, waiting, done, Requests, Response, text, Options, submit, send_text, send_message,
  check_valid_recipient, collect, settle, take_sent, is_rate_limited, params_of,
}

pub put_same : {V : Type 0} (d : Dict String V) (k : String) (v : V) → get (put d k v) k ≡ some v
put_same d k v = get-put d k k v ∙ ap (λ b. if b then some v else get d k) (==_refl k)

remove_same : {V : Type 0} (d : Dict String V) (k : String) → get (remove d k) k ≡ none
remove_same d k = get-remove d k k ∙ ap (λ b. if b then none else get d k) (==_refl k)

collect_waiting :
    (k : String) (s : Requests) → get s.pending_requests k ≡ some waiting → collect k s ≡ none
unfolding collect
collect_waiting k s h = rw (collect, h) refl

pub collect_done :
    (k : String) (s : Requests) (m : Message)
    → get s.pending_requests k ≡ some (done m)
    → collect k s ≡ some (ok m, record s { pending_requests = remove s.pending_requests k })
unfolding collect
collect_done k s m h = rw (collect, h) refl

pub take_sent_quiet :
    (m : Message) (s : Requests) → is_rate_limited m ≡ false → take_sent m s ≡ (none, s)
unfolding take_sent
take_sent_quiet m s h = ground arith

pub settle_waiting :
    (m : Message) (s : Requests)
    → truthy m.id ≡ true
    → get s.pending_requests m.id ≡ some waiting
    → is_rate_limited m ≡ false
    → settle m s ≡ (ok none, record s { pending_requests = put s.pending_requests m.id (done m) })
unfolding settle
settle_waiting m s t h quiet =
    rw
      (
        settle,
        t,
        h,
        take_sent_quiet m (record s { pending_requests = put s.pending_requests m.id (done m) })
            quiet,
      )
      refl

module _ (uid : ℕ → String) (canonical_uuid : String → Option String) where
  send_text_pending :
      (recipient msg group : String) (o : Options) (s : Requests) (id : String) (s' : Requests)
      → send_text uid canonical_uuid recipient msg group o s ≡ (ok id, s')
      → truthy id ≡ true
      → get s'.pending_requests id ≡ some waiting
  unfolding send_text
  send_text_pending recipient msg group o s id s' h t =
      elim (Bool-cases
        (truthy recipient && not (check_valid_recipient uid canonical_uuid recipient))) [
          | inl refused ↦ absurd (no_id (rw refused at h))
          | inr sent ↦ sent_pending (rw sent at h)
        ]
    where
      no_id : Path (Result String × Requests) (ok "", s) (ok id, s') → ⊥
      no_id e = cc

      c : Command
      c = record {
        id = "send-" & uid s.next_uid;
        method = "send";
        params = params_of recipient msg group o;
      }

      sent_pending :
          Path (Result String × Requests) (ok ("send-" & uid s.next_uid), submit c s) (ok id, s')
          → get s'.pending_requests id ≡ some waiting
      sent_pending e =
          let id_eq : "send-" & uid s.next_uid ≡ id = cc in
          let s_eq : submit c s ≡ s' = cc in
          subst (λ (x : Requests). get x.pending_requests id ≡ some waiting) s_eq
            (subst
              (λ x.
                get (put s.pending_requests ("send-" & uid s.next_uid) waiting) x ≡ some waiting)
              id_eq (put_same s.pending_requests ("send-" & uid s.next_uid) waiting))

  -- With both a recipient and a group, or with neither, sending raises a ValueError and sends
  -- nothing, whatever the message is.
  pub send_message_ambiguous :
      (recipient group : String) (msg : Response) (o : Options) (s : Requests)
      → truthy recipient ≡ truthy group
      → send_message uid canonical_uuid recipient msg group o s ≡ (err value_error, s)
  unfolding send_message
  send_message_ambiguous recipient group msg o s same = elim (Bool-cases (truthy recipient)) [
    | inl e ↦ rw (e, sym same ∙ e) refl
    | inr e ↦ rw (e, sym same ∙ e) refl
  ]

  send_message_one :
      (recipient msg group : String) (o : Options) (s : Requests)
      → truthy recipient ≡ not (truthy group)
      → send_message uid canonical_uuid recipient (text msg) group o s
        ≡ send_text uid canonical_uuid recipient msg group o s
  unfolding send_message
  send_message_one recipient msg group o s one = elim (Bool-cases (truthy group)) [
    | inl g ↦ let r : truthy recipient ≡ false = rw g at one in rw (r, g) refl
    | inr g ↦ let r : truthy recipient ≡ true = rw g at one in rw (r, g) refl
  ]

  send_message_text :
      (recipient msg group : String) (o : Options) (s : Requests) (id : String) (s' : Requests)
      → send_message uid canonical_uuid recipient (text msg) group o s ≡ (ok id, s')
      → send_text uid canonical_uuid recipient msg group o s ≡ (ok id, s')
  send_message_text recipient msg group o s id s' h =
      elim (same_or_not (truthy recipient) (truthy group)) [
        | inl same ↦
            absurd (refused (sym (send_message_ambiguous recipient group (text msg) o s same) ∙ h))
        | inr one ↦ sym (send_message_one recipient msg group o s one) ∙ h
      ]
    where
      refused : Path (Result String × Requests) (err value_error, s) (ok id, s') → ⊥
      refused e = cc

      same_or_not : (a b : Bool) → (a ≡ b) ⊎ (a ≡ not b)
      same_or_not true true = inl refl
      same_or_not true false = inr refl
      same_or_not false true = inr refl
      same_or_not false false = inl refl

  -- A text that is sent, and given an id, is answered: until the answer comes, the call that waits
  -- for it does not return; after an answer that is no rate limit it returns that answer, no
  -- message is sent again, and nothing waits under the id any more.
  pub send_message-collect :
      (recipient msg group : String) (o : Options) (s s' : Requests) (answer : Message)
      → send_message uid canonical_uuid recipient (text msg) group o s ≡ (ok answer.id, s')
      → truthy answer.id ≡ true
      → is_rate_limited answer ≡ false
      → (collect answer.id s' ≡ none)
        × ((settle answer s').0 ≡ ok none)
        × (s'' : Requests) × (collect answer.id (settle answer s').1 ≡ some (ok answer, s''))
        × (get s''.pending_requests answer.id ≡ none)
  send_message-collect recipient msg group o s s' answer sent t quiet =
      let text_sent = send_message_text recipient msg group o s answer.id s' sent in
      let pending = send_text_pending recipient msg group o s answer.id s' text_sent t in
      let settled = record s' {
        pending_requests = put s'.pending_requests answer.id (done answer);
      } in
      let e = settle_waiting answer s' t pending quiet in
      let collected =
        collect_done answer.id settled answer
          (put_same s'.pending_requests answer.id (done answer)) in
      (
        collect_waiting answer.id s' pending,
        ap (λ (r : Result (Option Command) × Requests). r.0) e,
        record settled { pending_requests = remove settled.pending_requests answer.id },
        ap (λ (r : Result (Option Command) × Requests). collect answer.id r.1) e ∙ collected,
        remove_same settled.pending_requests answer.id,
      )

  -- With a recipient that is no uuid in its usual form, sending a text returns no id and
  -- sends nothing.
  pub send_message_invalid :
      (recipient : String) (m : String) (o : Options) (s : Requests)
      → truthy recipient ≡ true
      → check_valid_recipient uid canonical_uuid recipient ≡ false
      → send_message uid canonical_uuid recipient (text m) "" o s ≡ (ok "", s)
  unfolding send_message send_text
  send_message_invalid recipient m o s r invalid = rw (r, invalid) refl
