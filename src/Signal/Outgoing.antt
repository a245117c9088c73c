-- ===== src/Signal/Outgoing.antt =====
-- forest/core.py: the commands that `Signal` puts into its outbox without waiting for an answer, and
-- the replies to a message and to the admins.
pub mod Laws
use Prim.Native.Nat.{suc}
use forestfire.Prelude.{
  nat_eq, ◌==◌, ℕ, suc, String, Bool, true, false, not, ◌&&◌, Option, none, some, List, [], ◌∷◌,
  ◌++◌, if◌then◌else◌, truthy, ◌&◌, string_eq,
}
use forestfire.Prelude.Int.{ℤ, pos}
use forestfire.Prelude.Exec.{Result, ok, err, Exec, bind}
use forestfire.Prelude.Dict.{Dict, put, update}
use forestfire.Value.{Value, null, bool, int, str, list, is_true, of_list, Fields}
use forestfire.Message.{Message}
use forestfire.Signal.Requests.{Command, Requests, Response, text, Options, send_message, put_if}
use Prim.Native.Char.{code}
use Prim.Native.String

-- `rpc(method, param_dict, _id, **params)`
unfoldable pub rpc : String → Dict String Value → String → Dict String Value → Command
rpc method param_dict rpc_id params = record {
  id = rpc_id;
  method = method;
  params = update param_dict params;
}

-- `self.outbox.put(command)`
unfoldable pub enqueue : Command → Requests → Requests
enqueue c s = record s { outbox = s.outbox ++ (c ∷ []) }

-- The options of a message that are not given.
abbrev pub plain : Options
plain = record { endsession = false; attachments = []; content = Fields.end; other_params = [] }

module _ (uid : ℕ → String) (canonical_uuid : String → Option String) where
  -- `respond`
  unfoldable pub respond : Message → Response → Options → Exec Requests String
  respond target_msg msg o s =
      if truthy target_msg.group
      then send_message uid canonical_uuid "" msg target_msg.group o s
      else send_message uid canonical_uuid target_msg.uuid msg "" o s

  -- `admin`, which returns nothing
  unfoldable pub admin : (String → String) → Response → Options → Exec Requests String
  admin secret msg o s =
      if truthy (secret "ADMIN_GROUP")
      then send_message uid canonical_uuid "" msg (secret "ADMIN_GROUP") o s
      else send_message uid canonical_uuid (secret "ADMIN") msg "" o s

  -- `send_sticker`
  unfoldable pub send_sticker : Message → String → Exec Requests String
  unfolding respond
  send_sticker msg sticker s =
      respond msg (text "") (record plain { other_params = ("sticker", str sticker) ∷ [] }) s

-- `send_reaction`
unfoldable pub send_reaction : Message → String → Requests → Requests
unfolding rpc enqueue
send_reaction target_msg emoji s =
    let react =
      ("target-author", str target_msg.uuid)
      ∷ ("target-timestamp", int (pos target_msg.timestamp))
      ∷ [] in
    let react = put_if (truthy target_msg.group) "group" (str target_msg.group) react in
    let recipient = if truthy target_msg.group then null else str target_msg.uuid in
    enqueue (rpc "sendReaction" react "1" (("emoji", str emoji) ∷ ("recipient", recipient) ∷ [])) s

abbrev one_text : String → Value
one_text s = list (of_list (str s ∷ []))

abbrev place_of : Option Message → String → String → String × String
place_of none recipient group = (recipient, group)
place_of (some msg) recipient group = (msg.uuid, msg.group)

-- `send_typing`, to the place of a message if one is given
unfoldable pub send_typing : Option Message → Bool → String → String → Requests → Requests
unfolding rpc enqueue
send_typing msg stop recipient group s =
    let (recipient, group) = place_of msg recipient group in
    if truthy group
    then enqueue (rpc "sendTyping" [] "1" (("group", one_text group) ∷ ("stop", bool stop) ∷ [])) s
    else enqueue
        (rpc "sendTyping" [] "1" (("recipient", one_text recipient) ∷ ("stop", bool stop) ∷ [])) s

-- `payment_address[0] != "C"`, of a text that is not empty
abbrev is_base58 : String → Bool
is_base58 String.[] = false
is_base58 (String.◌∷◌ c s) = not ((code c == 67))

abbrev or_null : Option String → Value
or_null none = null
or_null (some s) = str s

-- The address in the form that signal-cli wants; `to_b64` is `b58_wrapper_to_b64_public_address`.
unfoldable pub payment_param :
    (String → Result (Option String)) → String → Dict String Value → Result (Dict String Value)
payment_param to_b64 payment_address params =
    if not (truthy payment_address)
    then ok params
    else if is_base58 payment_address
    then bind (to_b64 payment_address) (λ b64. ok (put params "mobileCoinAddress" (or_null b64)))
    else ok (put params "mobileCoinAddress" (str payment_address))

-- for parameter, value in kwargs.items(): …
unfoldable pub keyword_params : Dict String Value → Dict String Value → Dict String Value
keyword_params [] params = params
keyword_params ((parameter, value) ∷ kwargs) params =
    keyword_params kwargs (put_if (is_true value) parameter value params)

-- `set_profile`
unfoldable pub set_profile :
    (ℕ → String)
    → (String → Result (Option String))
    → Value
    → Value
    → String
    → String
    → Dict String Value
    → Exec Requests String
unfolding rpc enqueue payment_param keyword_params
set_profile uid to_b64 given_name family_name payment_address profile_path kwargs s =
    let params = ("givenName", given_name) ∷ [] in
    let params =
      put_if (is_true given_name && is_true family_name) "familyName" family_name params in
    elim (payment_param to_b64 payment_address params) [
      | err e ↦ (err e, s)
      | ok params ↦
          let params = put_if (truthy profile_path) "avatar" (str profile_path) params in
          let rpc_id = "setProfile-" & uid s.next_uid in
          let s' = enqueue (rpc "updateProfile" (keyword_params kwargs params) rpc_id []) s in
          (ok rpc_id, record s' { next_uid = suc s'.next_uid })
    ]
