-- ===== src/Persist/Memory.antt =====
-- A key-value client in memory, as the tests of the repository use one (tests/conftest.py): it meets
-- what the dictionary asks of its client.
use forestfire.Prelude.{string_eq, String, refl, eq_refl}
use forestfire.Prelude.Exec.{ok}
use forestfire.Prelude.Dict
use forestfire.Prelude.Dict.{Dict, get-put}
use forestfire.Value.{Json}
use forestfire.Persist.{KvClient, KvLaws}

abbrev pub Memory : Type 0
Memory = record { values : Dict String Json; raws : Dict String Json }

abbrev pub memory : KvClient
memory = record {
  Backend = Memory;
  get = λ b k. ok (Dict.get b.values k);
  get_raw = λ b k. ok (Dict.get b.raws k);
  post = λ b k text. (ok "posted", record { values = Dict.put b.values k text; raws = b.raws });
  post_raw = λ b k text. (ok "posted", record { values = b.values; raws = Dict.put b.raws k text });
}

pub memory_laws : KvLaws memory
memory_laws = record {
  get-post = λ b k v h. simp (get-put, eq_refl);
  get_raw-post_raw = λ b k v h. simp (get-put, eq_refl);
  get-post_raw = λ b k j text ne. refl;
  get_raw-post = λ b k j text ne. refl;
}
