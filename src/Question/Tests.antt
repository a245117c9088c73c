-- ===== src/Question/Tests.antt =====
-- The theorems on questions at concrete questions and answers.
use forestfire.Prelude.{
  string_eq, ℕ, String, Bool, true, false, Option, none, some, List, [], ◌∷◌, ◌≡◌, refl,
}
use forestfire.Prelude.Exec.{Result, ok}
use forestfire.Prelude.Dict.{get}
use forestfire.Message.{Message}
use forestfire.Message.Tests.{blank}
use forestfire.Bot.{Reply}
use forestfire.Question.Loops
use forestfire.Question.Loops.{ask_yesno_question, clarified, repeated, first_clear, Outcome}
use forestfire.Question.Pending.Laws
use forestfire.Question.Pending.{is_first_device, Questions, ask, resume, handle_message, place_eq}

abbrev lower : String → String
lower text = text

abbrev replies : List String
replies = "what?" ∷ "perhaps" ∷ "yes!" ∷ []

ask_yesno_question_lem_example : ask_yesno_question lower "Are you sure?" replies ≡ (
  "Are you sure?" ∷ repeated lower (clarified "Are you sure?") replies,
  first_clear lower replies,
)
ask_yesno_question_lem_example = Loops.ask_yesno_question_lem lower "Are you sure?" replies

yes_at_last : (ask_yesno_question lower "Are you sure?" replies).1 ≡ Outcome.answered (some true)
unfolding ask_yesno_question
yes_at_last = refl

abbrev idle : Questions
idle = record { pending_answers = []; futures = []; next_future = 0; requires_first_device = [] }

abbrev alice : Message
alice = record blank { uuid = "alice"; full_text = "blue"; device_id = 1 }

abbrev super : Message → Questions → Result Reply × Questions
super m s = (ok (some "no question"), s)

ask-resume_example :
    let (future, s1) = ask "alice" "" true idle in
    let (reply, s2) = handle_message super alice s1 in
    (resume "alice" "" future s1 ≡ none)
    × (reply ≡ ok none)
    × (s3 : Questions) × (resume "alice" "" future s2 ≡ some (ok "blue", s3))
    × (get s3.pending_answers ("alice", "") ≡ none)
unfolding is_first_device
ask-resume_example = Laws.ask-resume super alice true idle refl refl

abbrev tablet : Message
tablet = record alice { device_id = 2 }

abbrev open_question : Questions
open_question = (ask "alice" "" true idle).1

open_pending : get open_question.pending_answers ("alice", "") ≡ some 0
unfolding ask get forestfire.Prelude.Dict.put
open_pending = refl

open_requires : get open_question.requires_first_device "alice" ≡ some true
unfolding ask get forestfire.Prelude.Dict.put
open_requires = refl

ask_twice_example :
    let (first, s1) = ask "alice" "" false idle in
    let (second, s2) = ask "alice" "" false s1 in
    let s3 = (handle_message super alice s2).1 in
    (resume "alice" "" first s3 ≡ none)
    × (s4 : Questions) × (resume "alice" "" second s3 ≡ some (ok "blue", s4))
unfolding is_first_device
ask_twice_example = Laws.ask_twice super alice idle refl refl
