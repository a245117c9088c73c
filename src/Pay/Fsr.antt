-- ===== src/Pay/Fsr.antt =====
-- forest/core.py, `FsrPayBot.do_fsr`: a request to the wallet that an admin spells out.
mod Tests
use forestfire.Prelude.{
  String, Bool, true, false, not, ◌||◌, Option, none, some, List, [], ◌∷◌, if◌then◌else◌, ◌==◌,
  string_eq, nat_eq, ◌%◌, length,
}
use forestfire.Prelude.Exec.{type_error}
use forestfire.Value.{Value, str, Fields, end, field}
use forestfire.Message.{Message}
use forestfire.Bot.{is_admin}
use forestfire.Pay.{Calls, pure, raise, ◌>>=◌, Outside}
use forestfire.Pay.Mobster.{req, req_}
use forestfire.Pay.Payment.{put_field}

-- `dict(zip(words[::2], words[1::2]))`, onto what is there
unfoldable pub zipped : List String → Fields → Fields
zipped (key ∷ value ∷ words) params = zipped words (put_field key (str value) params)
zipped _ params = params

-- A keyword that the method has as a parameter already.
clashes : Fields → Bool
clashes end = false
clashes (field k v fs) = k == "method" || (k == "self" || clashes fs)

module _ (out : Outside) where
  request : List String → Calls Value
  unfolding req req_ zipped clashes
  request [] = pure (str "/fsr [command] ([arg1] [val1]( [arg2] [val2]))")
  request (command ∷ []) = req out command none
  request (command ∷ words) =
      if length words % 2 == 0
      then if clashes (zipped words end)
        then raise type_error
        else (req_ out command (zipped words end) >>= (λ answer. pure (str (out.str_of answer))))
      else pure (str "/fsr [command] ([arg1] [val1]( [arg2] [val2])...)")

  unfoldable pub do_fsr : Message → Calls Value
  unfolding request is_admin
  do_fsr msg =
      if is_admin out.secret msg
      then request msg.tokens
      else pure (str "you must be an admin to use this command")
