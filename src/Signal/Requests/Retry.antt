-- ===== src/Signal/Requests/Retry.antt =====
-- What becomes of the future that is made for a command which is sent again after a rate limit.
use Prim.Native.Char.{Char}
use forestfire.Prelude.{Option, string_eq}
use forestfire.Message.{Message}
use forestfire.Signal.Requests.{Requests}
