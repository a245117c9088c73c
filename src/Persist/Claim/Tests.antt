-- ===== src/Persist/Claim/Tests.antt =====
-- The theorems on the namespace's claim at concrete inputs.
use forestfire.Prelude.{true, [], ◌∷◌, ◌≡◌, ◌⊎◌, refl, arith, eq_iff, string_eq}
use forestfire.Prelude.Int.{pos}
use forestfire.Prelude.Exec.{ok, err, is_ok, runtime_error}
use forestfire.Prelude.Dict
use forestfire.Prelude.Dict.{Dict, update}
use forestfire.Value.{int, dumped, dumps, serializable}
use forestfire.Value.Laws.{jsonify_dict}
use forestfire.Persist.{PersistDict, set}
use forestfire.Persist.Memory.{Memory, memory, memory_laws}
use forestfire.Persist.Claim.{
  claim_key, claim_of, post_claim, refuse_if_claimed, acquire_namespace_claim, check_claim, create,
  blank,
}
use forestfire.Persist.Claim.Laws
use forestfire.Persist.Claim.Laws.{Claimed}
use forestfire.Persist.Claim.Race
use forestfire.Persist.Claim.Race.{Race, Reach, start, holds}
use forestfire.Persist.Claim.Restart

abbrev nothing : Memory
nothing = record { values = []; raws = [] }

abbrev yours : Memory
yours = record { values = []; raws = (claim_key, dumped (claim_of "you" 100)) ∷ [] }

abbrev me : Memory → PersistDict Memory
me b = blank memory 60 "tag" "me" b

acquire_refused_example :
    acquire_namespace_claim memory 60 120 121 (me yours) ≡ (err runtime_error, me yours)
unfolding Dict.get
acquire_refused_example =
    Laws.acquire_refused memory 60 120 100 121 "you" (me yours) refl (omega arith)
      (ground (arith, eq_iff "you" "me"))

abbrev mine : PersistDict Memory
mine = (post_claim memory 60 201 (me yours)).1

acquire_after_expiry_example :
    (acquire_namespace_claim memory 60 200 201 (me yours) ≡ (ok tt, mine))
    × Claimed memory 60 mine.backend "me" 201
unfolding Dict.get post_claim
acquire_after_expiry_example =
    Laws.acquire_after_expiry memory 60 memory_laws 200 100 201 "you" (me yours) mine refl
      (omega arith) refl

check_claim_displaced_example :
    let lost : PersistDict Memory = record (me yours) { claim_lost = true } in
    (check_claim memory 60 120 121 (me yours) ≡ (ok tt, lost))
    × (set memory "k" (int (pos 1)) lost ≡ (err runtime_error, lost))
unfolding Dict.get
check_claim_displaced_example =
    Laws.check_claim_displaced memory 60 120 100 121 "you" "k" (int (pos 1)) (me yours) refl
      (omega arith) (ground (arith, eq_iff "you" "me")) refl

abbrev race : Race memory 60 120
race = record {
  first = me nothing;
  second = blank memory 60 "tag" "you" nothing;
  first_ts = 121;
  second_ts = 122;
  left = start;
  right = start;
  backend = nothing;
}

race_free : is_ok (refuse_if_claimed memory 60 120 (me nothing)).0 ≡ true
unfolding refuse_if_claimed Dict.get
race_free = refl

abbrev ended : Race memory 60 120
ended = Race.overlapped memory 60 120 race

both_hold_example : Reach memory 60 120 race ended
unfolding refuse_if_claimed post_claim Dict.get
both_hold_example =
    Race.both_hold memory 60 120 memory_laws race refl refl refl refl (λ b. refl) (λ b. refl)

Reach-ended : Reach memory 60 120 race ended
unfolding refuse_if_claimed post_claim Dict.get
Reach-ended =
    Race.both_hold memory 60 120 memory_laws race refl refl refl refl (λ b. refl) (λ b. refl)

race_resolved_example :
    ((check_claim memory 60 120 130 (Race.left_of memory 60 120 ended)).1.claim_lost ≡ true)
    ⊎ ((check_claim memory 60 120 130 (Race.right_of memory 60 120 ended)).1.claim_lost ≡ true)
race_resolved_example =
    Race.race_resolved memory 60 120 memory_laws 130 race ended refl refl Reach-ended refl
      (ground (arith, eq_iff "me" "you")) (omega arith) (omega arith)

abbrev written : PersistDict Memory
written = (set memory "k" (int (pos 5)) (me yours)).1

set_returns : set memory "k" (int (pos 5)) (me yours) ≡ (ok "posted", written)
unfolding set dumps serializable Dict.put
set_returns = refl

create-set_example :
    let new = create memory 60 "tag" "later" (("j", int (pos 1)) ∷ []) 200 201 written.backend in
    (new.init_task ≡ ok tt)
    × (new.dict_ ≡ update (jsonify_dict written.dict_) (("j", int (pos 1)) ∷ []))
unfolding set refuse_if_claimed post_claim Dict.get serializable dumps Dict.put
create-set_example =
    Restart.create-set memory 60 memory_laws "k" (int (pos 5)) (me yours) "later"
      (("j", int (pos 1)) ∷ []) 200 201 set_returns refl refl
