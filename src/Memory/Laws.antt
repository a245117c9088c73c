-- ===== src/Memory/Laws.antt =====
-- Chains of quotes.
use forestfire.Prelude.{ℕ, List, nat_eq, string_eq, ◌≡◌}
use forestfire.Prelude.Exec.{ok}
use forestfire.Prelude.Dict
use forestfire.Value.{Value}
use forestfire.Persist.{KvClient, PersistDict}
use forestfire.Memory.Chain.{IsChain}
use forestfire.Memory.{quote_chain}

module _ (kv : KvClient) where
  abbrev Object : Type 0
  Object = PersistDict kv.Backend

  -- The chain of a message was returned, and nothing was changed.
  abbrev Chained : ℕ → Value → Object → Type 0
  Chained fuel msg s =
      (chain : List Value) × (quote_chain kv fuel msg s ≡ (ok chain, s)) × IsChain s.dict_ msg chain
