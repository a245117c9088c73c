-- ===== src/Question/Users.antt =====
-- forest/core.py, `get_uuid_from_dict`: what is kept for the sender of a message. `dict_.get` is a
-- function of either kind of key.
use forestfire.Prelude.{String, Bool, true, false, Option, none, some, if◌then◌else◌}
use forestfire.Message.{Message}

module _ {V : Type 0} (truth : V → Bool) (get_pair : String → String → Option V)
    (get : String → Option V) where
  abbrev true_value : Option V → Option V
  true_value none = none
  true_value (some v) = if truth v then some v else none

  unfoldable pub get_uuid_from_dict : Message → Bool × Option V
  get_uuid_from_dict msg = elim (true_value (get_pair msg.uuid msg.group)) [
    | some value ↦ (true, some value)
    | none ↦ elim (true_value (get msg.uuid)) [
      | some value ↦ (true, some value)
      | none ↦ (false, none)
    ]
  ]
