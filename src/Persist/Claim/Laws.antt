-- ===== src/Persist/Claim/Laws.antt =====
-- One writer after another: the claim of another writer, while it is fresh and once it is old, and
-- the heartbeat of a writer that was displaced.
use forestfire.Prelude.{
  ℕ, ◌+◌, ◌<◌, ◌≤◌, String, true, not, ◌&&◌, some, ◌≡◌, ◌≢◌, arith, eq_iff, eq_refl, ltb, ◌==◌,
  string_eq, if◌then◌else◌,
}
use forestfire.Prelude.Int.{◌-ℤ◌}
use forestfire.Prelude.Exec.{is_ok, ok, err, runtime_error}
use forestfire.Value.{Value, find, dumped, loads}
use forestfire.Persist.{KvClient, KvLaws, PersistDict, set, set_locked}
use forestfire.Persist.Claim.{
  claim_key, parse_claim, claim_is_foreign_and_fresh, claim_of, read_claim, post_claim,
  refuse_if_claimed, verify_claim, acquire_namespace_claim, check_claim,
}

-- The claim that `_post_claim` writes is refused to another writer for `ttl` after its time, and
-- never to its own writer.
pub foreign_and_fresh_of_claim :
    (ttl now ts : ℕ) (me writer : String)
    → claim_is_foreign_and_fresh ttl now me (parse_claim (some (dumped (claim_of writer ts))))
      ≡ ok (ltb now (ts + ttl) && not (writer == me))
unfolding parse_claim claim_is_foreign_and_fresh find loads ◌-ℤ◌
foreign_and_fresh_of_claim ttl now ts me writer = ground arith

module _ (kv : KvClient) (ttl : ℕ) where
  abbrev Object : Type 0
  Object = PersistDict kv.Backend

  -- What the backend holds under the claim's key.
  abbrev pub Claimed : kv.Backend → String → ℕ → Type 0
  Claimed b writer ts = kv.get_raw b claim_key ≡ ok (some (dumped (claim_of writer ts)))

  pub refuse_if_claimed_lem :
      (now ts : ℕ) (writer : String) (s : Object)
      → Claimed s.backend writer ts
      → refuse_if_claimed kv ttl now s ≡ (
          if ltb now (ts + ttl) && not (writer == s.writer_id)
          then (err runtime_error, s)
          else (ok tt, s))
  unfolding refuse_if_claimed read_claim
  refuse_if_claimed_lem now ts writer s c =
      ground (arith, foreign_and_fresh_of_claim ttl now ts s.writer_id writer)

  -- An acquirer that finds the fresh claim of another writer raises, and has written nothing.
  pub acquire_refused :
      (now ts t : ℕ) (writer : String) (s : Object)
      → Claimed s.backend writer ts
      → now < ts + ttl
      → writer ≢ s.writer_id
      → acquire_namespace_claim kv ttl now t s ≡ (err runtime_error, s)
  unfolding acquire_namespace_claim
  acquire_refused now ts t writer s c fresh ne =
      ground (arith, refuse_if_claimed_lem now ts writer s c, eq_iff writer s.writer_id)

  pub post_claim-Claimed :
      KvLaws kv
      → (ts : ℕ) (s s' : Object) → post_claim kv ttl ts s ≡ (ok tt, s')
      → Claimed s'.backend s.writer_id ts
  unfolding post_claim
  post_claim-Claimed laws ts s s' h =
      ground (arith, laws.get_raw-post_raw s.backend claim_key (claim_of s.writer_id ts))

  pub post_ok :
      (ts : ℕ) (s : Object)
      → is_ok (post_claim kv ttl ts s).0 ≡ true
      → post_claim kv ttl ts s ≡ (ok tt, (post_claim kv ttl ts s).1)
  post_ok ts s h = ground arith

  pub post_claim-kept :
      (ts : ℕ) (s : Object)
      → let s' = (post_claim kv ttl ts s).1 in
        (s'.tag ≡ s.tag)
        × (s'.writer_id ≡ s.writer_id)
        × (s'.dict_ ≡ s.dict_)
        × (s'.claim_lost ≡ s.claim_lost)
  unfolding post_claim
  post_claim-kept ts s = (ground arith, ground arith, ground arith, ground arith)

  pub verify_claim_own :
      (ts : ℕ) (s : Object) → Claimed s.backend s.writer_id ts → verify_claim kv ttl s ≡ (ok tt, s)
  unfolding verify_claim read_claim parse_claim find loads
  verify_claim_own ts s c = ground (arith, eq_refl s.writer_id)

  -- An acquirer that is not refused and whose write returns holds the claim, and its dictionary is
  -- as it was.
  pub acquire_free :
      KvLaws kv
      → (now t : ℕ) (s s' : Object) → refuse_if_claimed kv ttl now s ≡ (ok tt, s)
      → post_claim kv ttl t s ≡ (ok tt, s')
      → (acquire_namespace_claim kv ttl now t s ≡ (ok tt, s')) × Claimed s'.backend s.writer_id t
  unfolding acquire_namespace_claim
  acquire_free laws now t s s' free posted =
      let c = post_claim-Claimed laws t s s' posted in
      let own : s'.writer_id ≡ s.writer_id = ground (arith, (post_claim-kept t s).1) in
      (ground (arith, verify_claim_own t s' (rw own c)), c)

  -- Once a claim has run out, the next acquirer takes the namespace, whoever held it.
  pub acquire_after_expiry :
      KvLaws kv
      → (now ts t : ℕ) (writer : String) (s s' : Object) → Claimed s.backend writer ts
      → ts + ttl ≤ now
      → post_claim kv ttl t s ≡ (ok tt, s')
      → (acquire_namespace_claim kv ttl now t s ≡ (ok tt, s')) × Claimed s'.backend s.writer_id t
  acquire_after_expiry laws now ts t writer s s' c old posted =
      acquire_free laws now t s s' (ground (arith, refuse_if_claimed_lem now ts writer s c)) posted

  pub check_claim_foreign :
      (now ts t : ℕ) (writer : String) (s : Object)
      → Claimed s.backend writer ts
      → now < ts + ttl
      → writer ≢ s.writer_id
      → check_claim kv ttl now t s ≡ (ok tt, record s { claim_lost = true })
  unfolding check_claim read_claim
  check_claim_foreign now ts t writer s c fresh ne =
      ground
        (arith, foreign_and_fresh_of_claim ttl now ts s.writer_id writer, eq_iff writer s.writer_id)

  -- The heartbeat of a writer whose namespace another one has freshly claimed marks the claim as
  -- lost and writes nothing; from then on every `set` raises, and changes nothing.
  pub check_claim_displaced :
      (now ts t : ℕ) (writer key : String) (value : Value) (s : Object)
      → Claimed s.backend writer ts
      → now < ts + ttl
      → writer ≢ s.writer_id
      → s.init_task ≡ ok tt
      → let lost : Object = record s { claim_lost = true } in
        (check_claim kv ttl now t s ≡ (ok tt, lost))
        × (set kv key value lost ≡ (err runtime_error, lost))
  unfolding set set_locked
  check_claim_displaced now ts t writer key value s c fresh ne i =
      (check_claim_foreign now ts t writer s c fresh ne, ground arith)

  -- A heartbeat that finds its own claim renews it.
  pub check_claim_renews :
      KvLaws kv
      → (now ts t : ℕ) (s s' : Object) → Claimed s.backend s.writer_id ts
      → post_claim kv ttl t s ≡ (ok tt, s')
      → (check_claim kv ttl now t s ≡ (ok tt, s')) × Claimed s'.backend s.writer_id t
  unfolding check_claim read_claim
  check_claim_renews laws now ts t s s' c posted = (
    ground
        (arith, foreign_and_fresh_of_claim ttl now ts s.writer_id s.writer_id, eq_refl s.writer_id),
    post_claim-Claimed laws t s s' posted,
  )
