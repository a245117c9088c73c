-- ===== src/Memory/Content.antt =====
-- forest/memorybot.py, `get_message_content` and `do_history`.
use forestfire.Prelude.{String, Option, none, some, List, [], ◌∷◌, if◌then◌else◌, string_eq, ◌&◌}
use forestfire.Prelude.Exec.{Result, ok, err, bind, type_error, Exec, lift, ◌>>=◌}
use forestfire.Prelude.Dict
use forestfire.Prelude.Dict.{Dict}
use forestfire.Value.{Value, null, str, Items, nil, cons}
use forestfire.Value.Access.{item, get_item, key_in, elements}
use forestfire.Message.{Message}
use forestfire.Persist.{KvClient, PersistDict}
use forestfire.Memory.{message_user, get_user_history}

abbrev Content : Type 0
Content = Dict String Value

-- `" ".join([a, b])`
joined : Value → Value → Result Value
joined (str a) (str b) = ok (str (a & " " & b))
joined _ _ = err type_error

text_of_message : Value → Result Value
unfolding item key_in joined
text_of_message msg = bind (key_in "message" msg) λ sent. bind (key_in "arg0" msg) λ parsed.
    if sent
    then item msg "message"
    else if parsed
    then bind (key_in "text" msg) (λ has_text.
      if has_text
      then bind (item msg "arg0") (λ arg0. bind (item msg "text") (λ text. joined arg0 text))
      else item msg "arg0")
    else ok (str "None")

-- `content[key] = msg[source]`, if `msg` has the key `test`
copied : String → String → String → Value → Content → Result Content
unfolding item key_in
copied test key source msg content =
    bind (key_in test msg) λ found.
      if found then bind (item msg source) (λ v. ok (Dict.put content key v)) else ok content

-- The reactions are never copied, since it is the new dictionary that is asked for them.
unfoldable pub get_message_content : Value → Result Content
unfolding text_of_message copied get_item
get_message_content msg = bind (text_of_message msg) λ text. bind (get_item msg "uuid" null) λ uuid.
    bind (copied "name" "name" "name" msg (("text", text) ∷ ("uuid", uuid) ∷ []))
      λ content. copied "quote" "quote" "quoted_text" msg content

contents : Items → Result (List Content)
unfolding get_message_content
contents nil = ok []
contents (cons blob more) =
    bind (get_message_content blob) λ content. bind (contents more) λ rest. ok (content ∷ rest)

contents_of : Option Value → Result (Option (List Content))
unfolding contents elements
contents_of none = ok none
contents_of (some history) =
    bind (elements history) λ items. bind (contents items) λ all. ok (some all)

module _ (kv : KvClient) where
  unfoldable pub do_history : Message → Exec (PersistDict kv.Backend) (Option (List Content))
  unfolding message_user get_user_history contents_of
  do_history msg = do history ← get_user_history kv (message_user msg); lift (contents_of history)
