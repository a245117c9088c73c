-- ===== src/Persist/Claim/Race.antt =====
-- Two writers that acquire one namespace at the same time. Each runs the three parts of
-- `_acquire_namespace_claim`, its read, its write and its read back, and the parts interleave.
use forestfire.Prelude.{subst, ℕ, ◌+◌, ◌<◌, String, true, ◌≡◌, ◌≢◌, ◌⊎◌, inl, inr, refl, sym, arith}
use forestfire.Prelude.Exec.{is_ok}
use forestfire.Persist.{KvClient, KvLaws, PersistDict}
use forestfire.Persist.Claim.{post_claim, refuse_if_claimed, verify_claim, check_claim}
use forestfire.Persist.Claim.Laws.{
  post_ok, check_claim_foreign, Claimed, post_claim-Claimed, verify_claim_own,
}

pub data Phase : Type 0 where
  start cleared posted holds : Phase

module _ (kv : KvClient) (ttl now : ℕ) where
  abbrev Object : Type 0
  Object = PersistDict kv.Backend

  -- The two objects see one backend; `left` and `right` are how far their acquisitions have come,
  -- and the times are those of their claims.
  pub record Race : Type 0 where
    pub first : Object
    pub second : Object
    pub first_ts : ℕ
    pub second_ts : ℕ
    pub left : Phase
    pub right : Phase
    pub backend : kv.Backend

  abbrev pub left_of : Race → Object
  left_of w = record w.first { backend = w.backend }

  abbrev pub right_of : Race → Object
  right_of w = record w.second { backend = w.backend }

  pub data Step : Race → Race → Type 0 where
    left_reads :
        (w : Race)
        → w.left ≡ start
        → is_ok (refuse_if_claimed kv ttl now (left_of w)).0 ≡ true
        → Step w (record w { left = cleared })
    right_reads :
        (w : Race)
        → w.right ≡ start
        → is_ok (refuse_if_claimed kv ttl now (right_of w)).0 ≡ true
        → Step w (record w { right = cleared })
    left_posts :
        (w : Race)
        → w.left ≡ cleared
        → is_ok (post_claim kv ttl w.first_ts (left_of w)).0 ≡ true
        → Step w (record w {
          left = posted;
          backend = (post_claim kv ttl w.first_ts (left_of w)).1.backend;
        })
    right_posts :
        (w : Race)
        → w.right ≡ cleared
        → is_ok (post_claim kv ttl w.second_ts (right_of w)).0 ≡ true
        → Step w (record w {
          right = posted;
          backend = (post_claim kv ttl w.second_ts (right_of w)).1.backend;
        })
    left_verifies :
        (w : Race)
        → w.left ≡ posted
        → is_ok (verify_claim kv ttl (left_of w)).0 ≡ true
        → Step w (record w { left = holds })
    right_verifies :
        (w : Race)
        → w.right ≡ posted
        → is_ok (verify_claim kv ttl (right_of w)).0 ≡ true
        → Step w (record w { right = holds })

  pub data Reach (w : Race) : Race → Type 0 where
    here : Reach w w
    next : {u v : Race} → Reach w u → Step u v → Reach w v

  posted_Claimed :
      KvLaws kv
      → (ts : ℕ) (s : Object) → is_ok (post_claim kv ttl ts s).0 ≡ true
      → Claimed kv ttl (post_claim kv ttl ts s).1.backend s.writer_id ts
  posted_Claimed laws ts s h = post_claim-Claimed kv ttl laws ts s _ (post_ok kv ttl ts s h)

  -- Who has come as far as `posted` has left a claim that is its own or the other's.
  abbrev Marked : Race → Type 0
  Marked w =
      Claimed kv ttl w.backend w.first.writer_id w.first_ts
      ⊎ Claimed kv ttl w.backend w.second.writer_id w.second_ts

  abbrev Untouched : Phase → Type 0
  Untouched start = Unit
  Untouched cleared = Unit
  Untouched posted = ⊥
  Untouched holds = ⊥

  abbrev Inv : Race → Type 0
  Inv w = (Untouched w.left × Untouched w.right) ⊎ Marked w

  Step-Inv : KvLaws kv → {u v : Race} → Step u v → Inv u → Inv v
  Step-Inv laws (left_reads w p h) (inl (a, b)) = inl (tt, b)
  Step-Inv laws (right_reads w p h) (inl (a, b)) = inl (a, tt)
  Step-Inv laws (left_posts w p h) i = inr (inl (posted_Claimed laws w.first_ts (left_of w) h))
  Step-Inv laws (right_posts w p h) i = inr (inr (posted_Claimed laws w.second_ts (right_of w) h))
  Step-Inv laws (left_verifies w p h) (inl (a, b)) = absurd (subst Untouched p a)
  Step-Inv laws (right_verifies w p h) (inl (a, b)) = absurd (subst Untouched p b)
  Step-Inv laws (left_reads w p h) (inr m) = inr m
  Step-Inv laws (right_reads w p h) (inr m) = inr m
  Step-Inv laws (left_verifies w p h) (inr m) = inr m
  Step-Inv laws (right_verifies w p h) (inr m) = inr m

  Reach-Inv : KvLaws kv → {u v : Race} → Inv u → Reach u v → Inv v
  Reach-Inv laws i here = i
  Reach-Inv laws i (next r st) = Step-Inv laws st (Reach-Inv laws i r)

  -- Where the schedule leads in which both read, then the first writer posts and verifies, and then
  -- the second does.
  abbrev pub overlapped : Race → Race
  overlapped w =
      let b = (post_claim kv ttl w.first_ts (left_of w)).1.backend in
      record w {
        left = holds;
        right = holds;
        backend = (post_claim kv ttl w.second_ts (record w.second { backend = b })).1.backend;
      }

  -- Both writers can come to hold the namespace: if both find it free, and their writes return,
  -- the state in which both acquisitions have ended without an exception is reachable, by the
  -- schedule in which the second writer posts after the first one has verified.
  pub both_hold :
      KvLaws kv
      → (w : Race) → w.left ≡ start
      → w.right ≡ start
      → is_ok (refuse_if_claimed kv ttl now (left_of w)).0 ≡ true
      → is_ok (refuse_if_claimed kv ttl now (right_of w)).0 ≡ true
      → ((b : kv.Backend)
          → is_ok (post_claim kv ttl w.first_ts (record w.first { backend = b })).0 ≡ true)
      → ((b : kv.Backend)
          → is_ok (post_claim kv ttl w.second_ts (record w.second { backend = b })).0 ≡ true)
      → Reach w (overlapped w)
  both_hold laws w l r free₁ free₂ posts₁ posts₂ =
      let w₁ : Race = record w { left = cleared } in
      let w₂ : Race = record w₁ { right = cleared } in
      let b₃ = (post_claim kv ttl w.first_ts (left_of w)).1.backend in
      let w₃ : Race = record w₂ { left = posted; backend = b₃ } in
      let c₃ : Claimed kv ttl b₃ w.first.writer_id w.first_ts =
        posted_Claimed laws w.first_ts (left_of w) (posts₁ w.backend) in
      let w₄ : Race = record w₃ { left = holds } in
      let b₅ = (post_claim kv ttl w.second_ts (right_of w₄)).1.backend in
      let w₅ : Race = record w₄ { right = posted; backend = b₅ } in
      let c₅ : Claimed kv ttl b₅ w.second.writer_id w.second_ts =
        posted_Claimed laws w.second_ts (right_of w₄) (posts₂ b₃) in
      let w₆ : Race = record w₅ { right = holds } in
      let r₂ : Reach w w₂ = next (next here (left_reads w l free₁)) (right_reads w₁ r free₂) in
      let r₄ : Reach w w₄ = next (next r₂ (left_posts w₂ refl (posts₁ w.backend))) (
        left_verifies w₃ refl
          (ground (arith, verify_claim_own kv ttl w.first_ts (left_of w₃) c₃))) in
      let r₆ : Reach w w₆ = next (next r₄ (right_posts w₄ refl (posts₂ b₃))) (
        right_verifies w₅ refl
          (ground (arith, verify_claim_own kv ttl w.second_ts (right_of w₅) c₅))) in
      r₆

  displaced :
      (ts t : ℕ) (writer : String) (s : Object)
      → Claimed kv ttl s.backend writer ts
      → now < ts + ttl
      → writer ≢ s.writer_id
      → (check_claim kv ttl now t s).1.claim_lost ≡ true
  displaced ts t writer s c fresh ne = rw (check_claim_foreign kv ttl now ts t writer s c fresh ne)

  -- However the two acquisitions interleave, where both have come to hold the namespace and both
  -- claims are still fresh, the next heartbeat of one of them marks its claim as lost.
  pub race_resolved :
      KvLaws kv
      → (t : ℕ) (w v : Race) → w.left ≡ start
      → w.right ≡ start
      → Reach w v
      → v.left ≡ holds
      → v.first.writer_id ≢ v.second.writer_id
      → now < v.first_ts + ttl
      → now < v.second_ts + ttl
      → ((check_claim kv ttl now t (left_of v)).1.claim_lost ≡ true)
        ⊎ ((check_claim kv ttl now t (right_of v)).1.claim_lost ≡ true)
  race_resolved laws t w v l r reach h ne f₁ f₂ =
      elim (Reach-Inv laws (inl (subst Untouched (sym l) tt, subst Untouched (sym r) tt)) reach) [
        | inl (a, b) ↦ absurd (subst Untouched h a)
        | inr (inl mine) ↦ inr (displaced v.first_ts t v.first.writer_id (right_of v) mine f₁ ne)
        | inr (inr theirs) ↦
            inl (displaced v.second_ts t v.second.writer_id (left_of v) theirs f₂ (λ e. ne (sym e)))
      ]
