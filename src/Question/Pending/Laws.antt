-- ===== src/Question/Pending/Laws.antt =====
-- Questions that are answered, and two questions in one place.
use forestfire.Prelude.{
  ◌∙◌, ℕ, suc, String, Bool, true, false, not, ◌&&◌, none, some, ◌==◌, string_eq, nat_eq, HasEq,
  if◌then◌else◌, truthy, ◌≡◌, refl, arith, ap,
}
use forestfire.Prelude.Exec.{Result, ok}
use forestfire.Prelude.Dict.{Dict, get, put, remove, get-put, get-remove, ==_refl}
use forestfire.Message.{Message}
use forestfire.Signal.Requests.{waiting, done}
use forestfire.Bot.{Reply}
use forestfire.Question.Pending.{
  Place, place_eq, Questions, ask, resume, is_first_device, is_required, set_result, handle_message,
}

get_put_same :
    {K V : Type 0} ⦃e : HasEq K⦄ (d : Dict K V) (k : K) (v : V) → get (put d k v) k ≡ some v
get_put_same d k v = get-put d k k v ∙ ap (λ b. if b then some v else get d k) (==_refl k)

get_remove_same : {K V : Type 0} ⦃e : HasEq K⦄ (d : Dict K V) (k : K) → get (remove d k) k ≡ none
get_remove_same d k = get-remove d k k ∙ ap (λ b. if b then none else get d k) (==_refl k)

set_result_waiting :
    (future : ℕ) (msg : Message) (s : Questions)
    → get s.futures future ≡ some waiting
    → set_result future msg s ≡ (ok none, record s { futures = put s.futures future (done msg) })
unfolding set_result
set_result_waiting future msg s h = rw (set_result, h) refl

module _ (super : Message → Questions → Result Reply × Questions) (msg : Message)
    (s : Questions) where
  abbrev settled : ℕ → Questions
  settled future = record s {
    futures = put s.futures future (done msg);
    requires_first_device =
        if truthy msg.uuid
        then remove s.requires_first_device msg.uuid
        else s.requires_first_device;
  }

  handle_answer :
      (future : ℕ)
      → get s.pending_answers (msg.uuid, msg.group) ≡ some future
      → get s.futures future ≡ some waiting
      → truthy msg.full_text ≡ true
      → is_first_device msg ≡ true
      → handle_message super msg s ≡ (ok none, settled future)
  unfolding handle_message
  handle_answer future opened future_waits has_text device =
      let asked = record s {
        requires_first_device =
            if truthy msg.uuid
            then remove s.requires_first_device msg.uuid
            else s.requires_first_device;
      } in
      let free : is_required (get s.requires_first_device msg.uuid) && not (is_first_device msg)
          ≡ false =
        ground arith in
      rw (handle_message, opened, has_text, free) (set_result_waiting future msg asked future_waits)

  -- While a question waits that has to be answered from the first device, a text from another device
  -- is answered by asking for that, and changes nothing.
  pub handle_message_wrong_device :
      (future : ℕ)
      → get s.pending_answers (msg.uuid, msg.group) ≡ some future
      → get s.requires_first_device msg.uuid ≡ some true
      → truthy msg.full_text ≡ true
      → is_first_device msg ≡ false
      → handle_message super msg s
        ≡ (ok (some "Please answer from your phone or primary device!"), s)
  unfolding handle_message
  handle_message_wrong_device future opened required has_text device =
      rw (handle_message, opened, has_text, required, device) refl

resume_waiting :
    (recipient group : String) (future : ℕ) (s : Questions)
    → get s.futures future ≡ some waiting
    → resume recipient group future s ≡ none
unfolding resume
resume_waiting recipient group future s h = rw (resume, h) refl

resume_done :
    (recipient group : String) (future other : ℕ) (answer : Message) (s : Questions)
    → get s.futures future ≡ some (done answer)
    → get s.pending_answers (recipient, group) ≡ some other
    → resume recipient group future s
      ≡ some (
        ok answer.full_text,
        record s { pending_answers = remove s.pending_answers (recipient, group) },
      )
unfolding resume
resume_done recipient group future other answer s h k = rw (resume, h, k) refl

-- A question is answered by the next text that its user sends from the first device in its group, or
-- directly: until then the asker waits; that text is no command, and the bot says nothing to it; the
-- asker is given the text, and the question is open no more.
pub ask-resume :
    (super : Message → Questions → Result Reply × Questions) (msg : Message)
    (require_first_device : Bool) (s : Questions)
    → truthy msg.full_text ≡ true
    → is_first_device msg ≡ true
    → let (future, s1) = ask msg.uuid msg.group require_first_device s in
      let (reply, s2) = handle_message super msg s1 in
      (resume msg.uuid msg.group future s1 ≡ none)
      × (reply ≡ ok none)
      × (s3 : Questions) × (resume msg.uuid msg.group future s2 ≡ some (ok msg.full_text, s3))
      × (get s3.pending_answers (msg.uuid, msg.group) ≡ none)
unfolding ask
ask-resume super msg require_first_device s has_text device =
    let s1 = (ask msg.uuid msg.group require_first_device s).1 in
    let place : Place = (msg.uuid, msg.group) in
    let opened : get s1.pending_answers place ≡ some s.next_future =
      unfold ask in get_put_same s.pending_answers place s.next_future in
    let asked : get s1.futures s.next_future ≡ some waiting =
      unfold ask in get_put_same s.futures s.next_future waiting in
    let e = handle_answer super msg s1 s.next_future opened asked has_text device in
    let s2 = settled super msg s1 s.next_future in
    let there : get s2.futures s.next_future ≡ some (done msg) =
      get_put_same s1.futures s.next_future (done msg) in
    (
      resume_waiting msg.uuid msg.group s.next_future s1 asked,
      ap (λ (p : Result Reply × Questions). p.0) e,
      record s2 { pending_answers = remove s2.pending_answers place },
      ap (λ (p : Result Reply × Questions). resume msg.uuid msg.group s.next_future p.1) e
          ∙ resume_done msg.uuid msg.group s.next_future s.next_future msg s2 there opened,
      get_remove_same s2.pending_answers place,
    )

get_put_other :
    {V : Type 0} (d : Dict ℕ V) (j k : ℕ) (v : V) → (j == k) ≡ false → get (put d j v) k ≡ get d k
get_put_other d j k v h = get-put d j k v ∙ ap (λ b. if b then some v else get d k) h

-- A second question to a user in the same place takes the answer of the first: after the next text of
-- the user from the first device, the second asker is given it, and the first one still waits.
pub ask_twice :
    (super : Message → Questions → Result Reply × Questions) (msg : Message) (s : Questions)
    → truthy msg.full_text ≡ true
    → is_first_device msg ≡ true
    → let (first, s1) = ask msg.uuid msg.group false s in
      let (second, s2) = ask msg.uuid msg.group false s1 in
      let s3 = (handle_message super msg s2).1 in
      (resume msg.uuid msg.group first s3 ≡ none)
      × (s4 : Questions) × (resume msg.uuid msg.group second s3 ≡ some (ok msg.full_text, s4))
unfolding ask
ask_twice super msg s has_text device =
    let s1 = (ask msg.uuid msg.group false s).1 in
    let s2 = (ask msg.uuid msg.group false s1).1 in
    let first = s.next_future in
    let second = suc s.next_future in
    let apart : (second == first) ≡ false = ground arith in
    let answered = ask-resume super msg false s1 has_text device in
    let opened : get s2.pending_answers (msg.uuid, msg.group) ≡ some second =
      get_put_same s1.pending_answers (msg.uuid, msg.group) second in
    let asked : get s2.futures second ≡ some waiting = get_put_same s1.futures second waiting in
    let e = handle_answer super msg s2 second opened asked has_text device in
    let old : get (settled super msg s2 second).futures first ≡ some waiting =
      get_put_other s2.futures second first (done msg) apart
      ∙ get_put_other s1.futures second first waiting apart
      ∙ get_put_same s.futures first waiting in
    (
      ap (λ (p : Result Reply × Questions). resume msg.uuid msg.group first p.1) e
          ∙ resume_waiting msg.uuid msg.group first (settled super msg s2 second) old,
      answered.2,
      answered.3,
    )
