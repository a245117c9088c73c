-- ===== src/Question/Numbers/Laws.antt =====
-- What a question for a number comes to, over the answers in turn.
use Prim.Native.Char.{Char}
