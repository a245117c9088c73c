-- ===== src/Signal/Requests/Steps.antt =====
-- The steps of the requests, of their answers and of the commands that are sent again, and the
-- invariant that they keep.
use forestfire.Prelude.{
  ap, if◌then◌else◌, eq_iff, sym, ◌∙◌, subst, Bool-cases, ℕ, String, true, false, Option, none,
  some, List, [], ◌∷◌, ◌++◌, startswith, truthy, ◌≡◌, ◌≢◌, refl, arith, ◌⊎◌, inl, inr, ◌==◌,
  string_eq,
}
use forestfire.Prelude.Exec.{Result, ok, err}
use forestfire.Prelude.Dict.{Dict, get, put, remove, get-put, get-remove}
use forestfire.Distance.Closest.{All}
use forestfire.Message.{Message}
use forestfire.Signal.Requests.{
  Command, Future, waiting, done, Requests, Options, send_text, send_request, retry, collect,
  settle,
}

abbrev pub IsRetry : String → Type 0
IsRetry id = startswith id "retry-send-" ≡ true

-- The ids that signal-cli may answer with: those of the commands that were written to it.
abbrev pub Answers : String → List Command → Type 0
Answers id [] = ⊥
Answers id (c ∷ cs) = (id ≡ c.id) ⊎ Answers id cs

-- The requests, and the command that `handle_messages` will send again after its pause.
abbrev pub Loop : Type 0
Loop = Requests × Option Command

pub data Step (uid : ℕ → String) (canonical_uuid : String → Option String)
    : Loop → Loop → Type 0 where
  sent :
      (recipient msg group id : String) (o : Options) (s s' : Requests) (again : Option Command)
      → send_text uid canonical_uuid recipient msg group o s ≡ (ok id, s')
      → Step uid canonical_uuid (s, again) (s', again)
  -- of a method whose name is not like the id of a command that is sent again
  requested :
      (req : Command) (s : Requests) (again : Option Command)
      → startswith (send_request uid canonical_uuid req s).0 "retry-send-" ≡ false
      → Step uid canonical_uuid (s, again) ((send_request uid canonical_uuid req s).1, again)
  -- a message of somebody, without an id, or an answer to a command that was written
  answered :
      (m : Message) (s s' : Requests) (again : Option Command)
      → (truthy m.id ≡ false) ⊎ Answers m.id s.outbox
      → settle m s ≡ (ok again, s')
      → Step uid canonical_uuid (s, none) (s', again)
  retried :
      (c : Command) (s : Requests)
      → Step uid canonical_uuid (s, some c) (retry uid canonical_uuid c s, none)
  collected :
      (rpc_id : String) (r : Result Message) (s s' : Requests) (again : Option Command)
      → collect rpc_id s ≡ some (r, s')
      → Step uid canonical_uuid (s, again) (s', again)

abbrev pub empty : Loop
empty = (
  record {
    pending_requests = [];
    pending_messages_sent = [];
    outbox = [];
    backoff = false;
    next_uid = 0;
    responding = [];
  },
  none,
)

pub data Reached (uid : ℕ → String) (canonical_uuid : String → Option String) : Loop → Type 0 where
  start : Reached uid canonical_uuid empty
  next :
      {x y : Loop}
      → Reached uid canonical_uuid x
      → Step uid canonical_uuid x y
      → Reached uid canonical_uuid y

abbrev pub NotRetry : Command → Type 0
NotRetry c = startswith c.id "retry-send-" ≡ false

abbrev pub Unanswered : Dict String Future → Type 0
Unanswered d = (k : String) (m : Message) → IsRetry k → get d k ≢ some (done m)

abbrev pub SentNotRetry : Dict String Command → Type 0
SentNotRetry d = (k : String) (c : Command) → get d k ≡ some c → NotRetry c

abbrev pub AgainNotRetry : Option Command → Type 0
AgainNotRetry none = Unit
AgainNotRetry (some c) = NotRetry c

abbrev pub Inv : Loop → Type 0
Inv (s, again) =
    Unanswered s.pending_requests
    × SentNotRetry s.pending_messages_sent
    × All NotRetry s.outbox
    × AgainNotRetry again

abbrev pub InvOf : Result (Option Command) × Requests → Type 0
InvOf (ok again, s) = Inv (s, again)
InvOf (err e, s) = Unit

pub Answers-NotRetry :
    (id : String) (cs : List Command)
    → Answers id cs
    → All NotRetry cs
    → startswith id "retry-send-" ≡ false
Answers-NotRetry id [] a all = absurd a
Answers-NotRetry id (c ∷ cs) (inl e) all = rw e all.0
Answers-NotRetry id (c ∷ cs) (inr a) all = Answers-NotRetry id cs a all.1

pub no_id-NotRetry : (id : String) → truthy id ≡ false → startswith id "retry-send-" ≡ false
no_id-NotRetry String.[] h = unfold startswith in refl
no_id-NotRetry (String.◌∷◌ c id) h = cc

pub known-NotRetry :
    (id : String) (cs : List Command)
    → (truthy id ≡ false) ⊎ Answers id cs
    → All NotRetry cs
    → startswith id "retry-send-" ≡ false
known-NotRetry id cs (inl h) all = no_id-NotRetry id h
known-NotRetry id cs (inr a) all = Answers-NotRetry id cs a all

pub All-append :
    (cs : List Command) (c : Command) → All NotRetry cs → NotRetry c → All NotRetry (cs ++ (c ∷ []))
All-append [] c all h = (h, tt)
All-append (d ∷ cs) c all h = (all.0, All-append cs c all.1 h)

pub put_hit :
    {V : Type 0} (d : Dict String V) (id k : String) (v : V)
    → (id == k) ≡ true
    → get (put d id v) k ≡ some v
put_hit d id k v h = get-put d id k v ∙ ap (λ b. if b then some v else get d k) h

pub put_miss :
    {V : Type 0} (d : Dict String V) (id k : String) (v : V)
    → (id == k) ≡ false
    → get (put d id v) k ≡ get d k
put_miss d id k v h = get-put d id k v ∙ ap (λ b. if b then some v else get d k) h

pub put_waiting-Unanswered :
    (d : Dict String Future) (id : String) → Unanswered d → Unanswered (put d id waiting)
put_waiting-Unanswered d id h k m r =
    let e = get-put d id k waiting in let old = h k m r in ground arith

pub put_done-Unanswered :
    (d : Dict String Future) (id : String) (answer : Message)
    → startswith id "retry-send-" ≡ false
    → Unanswered d
    → Unanswered (put d id (done answer))
put_done-Unanswered d id answer n h k m r = λ got. elim (Bool-cases (id == k)) [
  | inl same ↦
      let ids : id ≡ k = (eq_iff id k).0 same in
      let retried : startswith id "retry-send-" ≡ true = rw ids r in cc
  | inr other ↦ h k m r (sym (put_miss d id k (done answer) other) ∙ got)
]

pub remove-Unanswered :
    (d : Dict String Future) (id : String) → Unanswered d → Unanswered (remove d id)
remove-Unanswered d id h k m r = let e = get-remove d id k in let old = h k m r in ground arith

pub put-SentNotRetry :
    (d : Dict String Command) (id : String) (c : Command)
    → NotRetry c
    → SentNotRetry d
    → SentNotRetry (put d id c)
put-SentNotRetry d id c n h k c' e = elim (Bool-cases (id == k)) [
  | inl same ↦
      let here : Path (Option Command) (some c) (some c') = sym (put_hit d id k c same) ∙ e in
      let c_eq : c ≡ c' = cc in subst NotRetry c_eq n
  | inr other ↦ h k c' (sym (put_miss d id k c other) ∙ e)
]

pub remove-SentNotRetry :
    (d : Dict String Command) (id : String) → SentNotRetry d → SentNotRetry (remove d id)
remove-SentNotRetry d id h k c' e = let p = get-remove d id k in let old = h k c' in ground arith
