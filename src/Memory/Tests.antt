-- ===== src/Memory/Tests.antt =====
-- Quotes in a memory of two messages, over a backend in memory.
use forestfire.Prelude.{ℕ, false, [], ◌∷◌, ◌≡◌, refl, string_eq}
use forestfire.Prelude.Int.{pos}
use forestfire.Prelude.Exec.{ok, err, recursion_error}
use forestfire.Prelude.Dict
use forestfire.Value.{null, Value, int, str, list, dict, cons, nil, field, end}
use forestfire.Persist.{PersistDict}
use forestfire.Persist.Memory.{Memory, memory}
use forestfire.Memory.{quote_chain}
use forestfire.Memory.Content.{get_message_content}

abbrev first : Value
first = dict (field "timestamp" (int (pos 3)) (field "uuid" (str "someone") end))

abbrev quoting : ℕ → Value
quoting n = dict (
    field "timestamp" (int (pos 5))
      (field "uuid" (str "someone") (field "quote" (dict (field "ts" (int (pos n)) end)) end)))

abbrev with_history : Value → PersistDict Memory
with_history history = record {
  tag = "msgs";
  writer_id = "me";
  dict_ = ("someone", history) ∷ [];
  claim_lost = false;
  init_task = ok tt;
  backend = record { values = []; raws = [] };
}

abbrev two : PersistDict Memory
two = with_history (list (cons first (cons (quoting 3) nil)))

both : quote_chain memory 9 (quoting 3) two ≡ (ok (quoting 3 ∷ first ∷ []), two)
unfolding quote_chain Dict.get
both = refl

-- A message that quotes its own time.
endless :
    (quote_chain memory 9 (quoting 5) (with_history (list (cons (quoting 5) nil)))).0
    ≡ err recursion_error
unfolding quote_chain Dict.get
endless = refl

-- The message has a reaction, and the content has none.
without_reactions :
    get_message_content
      (dict (field "message" (str "hi") (field "reactions" (list (cons (str "!") nil)) end)))
    ≡ ok (("text", str "hi") ∷ ("uuid", null) ∷ [])
unfolding get_message_content
without_reactions = refl
