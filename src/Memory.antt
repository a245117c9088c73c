-- ===== src/Memory.antt =====
-- forest/memorybot.py: class `MemoryBot`, which keeps the messages of each user or group. A message
-- in memory is the dictionary of its attributes.
pub mod Chain
pub mod Content
pub mod Laws
pub mod Search
mod Tests
use forestfire.Prelude.{
  ℕ, String, Bool, true, false, not, ◌&&◌, Option, none, some, List, [], ◌∷◌, ◌==◌, string_eq,
  if◌then◌else◌, truthy, ◌&◌, join,
}
use forestfire.Prelude.Int.{pos}
use forestfire.Prelude.Exec.{
  Result, ok, err, bind, Exec, pure, raise, lift, gets, modify, ◌>>=◌, ◌>>◌, type_error, key_error,
  attribute_error, assertion_error, recursion_error,
}
use forestfire.Prelude.Dict
use forestfire.Prelude.Dict.{Dict}
use forestfire.Value.{
  Value, null, int, str, list, dict, Items, nil, cons, Fields, end, field, is_true, same, to_dict,
  of_dict,
}
use forestfire.Value.Access.{item, get_item, elements, key_in}
use forestfire.Message.{Message}
use forestfire.Message.Stdio.{Reaction, text_of}
use forestfire.Persist.{KvClient, PersistDict, get, set, remove}
use forestfire.Persist.Lists.{extend, append}

-- A message with its reaction, and what its `to_dict` returns.
pub record Seen : Type 0 where
  pub message : Message
  pub reaction : Option Reaction
  pub to_dict : Dict String Value

-- `get_user_id` of a `Message`, and of a message in memory
unfoldable pub message_user : Message → String
message_user msg = if truthy msg.group then msg.group else msg.uuid

unfoldable pub get_user_id : Value → Result String
unfolding get_item
get_user_id msg = bind (get_item msg "group-id" null) λ group.
    bind (get_item msg "uuid" null)
      λ uuid. ok (text_of (if is_true group then group else if is_true uuid then uuid else str ""))

-- `next((o for o in user_history if o["timestamp"] == timestamp), None)`
unfoldable pub find_message : Value → Items → Result (Option Value)
unfolding item same
find_message timestamp nil = ok none
find_message timestamp (cons o more) =
    bind (item o "timestamp")
      λ ts. if same ts timestamp then ok (some o) else find_message timestamp more

-- `blob["reactions"].append(emoji)`
unfoldable pub add_reaction : Value → Value → Result Value
unfolding append item
add_reaction emoji (dict fs) = bind (item (dict fs) "reactions") λ reactions. elim reactions [
  | list vs ↦ ok (dict (of_dict (Dict.put (to_dict fs) "reactions" (list (append vs emoji)))))
  | _ ↦ err attribute_error
]
add_reaction emoji other = err type_error

-- The history with the reaction on the message of that time, which is the first one that equals it.
unfoldable pub react_in : Value → Value → Items → Result Items
unfolding item same add_reaction
react_in timestamp emoji nil = ok nil
react_in timestamp emoji (cons o more) = bind (item o "timestamp") λ ts.
    if same ts timestamp
    then bind (add_reaction emoji o) (λ o'. ok (cons o' more))
    else bind (react_in timestamp emoji more) (λ more'. ok (cons o more'))

-- `msg.get("quote", {}).get("ts")`
unfoldable pub quote_ts : Value → Result Value
unfolding get_item
quote_ts msg = bind (get_item msg "quote" (dict end)) λ quote. get_item quote "ts" null

module _ (kv : KvClient) where
  abbrev pub Object : Type 0
  Object = PersistDict kv.Backend

  abbrev true_or_none : Option Value → Option Value
  true_or_none none = none
  true_or_none (some v) = if is_true v then some v else none

  unfoldable pub get_user_history : String → Exec Object (Option Value)
  unfolding get
  get_user_history user = do history ← get kv user none; pure (true_or_none history)

  message_in : Value → Option Value → Result (Option Value)
  unfolding find_message elements
  message_in timestamp none = ok none
  message_in timestamp (some history) =
      bind (elements history)
        λ items. bind (find_message timestamp items) λ blob. ok (true_or_none blob)

  abbrev message_of_user : String → Value → Exec Object (Option Value)
  message_of_user user timestamp = do
    history ← get_user_history user
    lift (message_in timestamp history)

  unfoldable pub get_user_message : Value → Value → Exec Object (Option Value)
  unfolding get_user_id get_user_history message_in
  get_user_message msg timestamp = do user ← lift (get_user_id msg); message_of_user user timestamp

  -- The messages are changed where they are, and only then written.
  react : String → Reaction → Option Value → Exec Object (Unit {0})
  unfolding react_in set elements
  react user reaction none = pure tt
  react user reaction (some history) = do
    items ← lift (elements history)
    items' ← lift (react_in reaction.ts reaction.emoji items)
    modify (λ s. record s { dict_ = Dict.put s.dict_ user (list items') })
    set kv user (list items')
    pure tt

  react_if : String → Reaction → Option Value → Exec Object (Unit {0})
  unfolding react get_user_history
  react_if user reaction none = pure tt
  react_if user reaction (some blob) = do
    history ← get_user_history user
    react user reaction history

  unfoldable pub handle_reaction : Seen → Exec Object (Unit {0})
  unfolding message_user react_if get_user_history message_in
  handle_reaction msg = elim msg.reaction [
    | none ↦ raise assertion_error
    | some reaction ↦ do
      blob ← message_of_user (message_user msg.message) reaction.ts
      react_if (message_user msg.message) reaction blob
  ]

  -- `handle_message`, before the message goes to `Bot.handle_message`, if it does.
  unfoldable pub remember : Seen → Exec Object Bool
  unfolding handle_reaction extend message_user
  remember msg = elim msg.reaction [
    | some reaction ↦ do handle_reaction msg; pure false
    | none ↦
        if truthy msg.message.full_text
        then (do
          extend kv (message_user msg.message)
              (dict (of_dict (Dict.put msg.to_dict "reactions" (list nil))))
          pure true)
        else pure true
  ]

  -- `save_sent_message`, when the answer has come, with its timestamp
  unfoldable pub save_sent_message : String → Dict String Value → Value → Exec Object (Unit {0})
  unfolding get_item extend
  save_sent_message bot_uuid params timestamp = do
    let params' =
        Dict.put (Dict.put (Dict.put params "reactions" (list nil)) "timestamp" timestamp) "uuid"
          (str bot_uuid)
    group ← lift (get_item (dict (of_dict params)) "group-id" null)
    recipient ← lift (get_item (dict (of_dict params)) "recipient" null)
    extend kv (text_of (if is_true group then group else recipient)) (dict (of_dict params'))
    pure tt

  abbrev pub chain_onto :
      Value → (Value → Exec Object (List Value)) → Option Value → Exec Object (List Value)
  chain_onto msg chain none = pure (msg ∷ [])
  chain_onto msg chain (some quoted) = do rest ← chain quoted; pure (msg ∷ rest)

  -- `fuel` calls may stand inside each other before Python raises a `RecursionError`.
  unfoldable pub quote_chain : ℕ → Value → Exec Object (List Value)
  unfolding quote_ts get_user_message
  quote_chain ℕ.zero msg = raise recursion_error
  quote_chain (ℕ.suc fuel) msg = do
    timestamp ← lift (quote_ts msg)
    quoted ← (if is_true timestamp then get_user_message msg timestamp else pure none)
    chain_onto msg (quote_chain fuel) quoted

  unfoldable pub do_clear_history : Message → Exec Object String
  unfolding message_user remove
  do_clear_history msg = do
    remove kv (message_user msg)
    pure ("Deleted message history for user ID " & message_user msg)
