-- ===== src/Persist/Lists/Laws.antt =====
-- Lists under a key: what `extend` and `remove_from` leave there, and what a refused `extend` does.
use forestfire.Prelude.{
  [], ◌∷◌, ap, eq_iff, inr, inl, if◌then◌else◌, ap, ◌∙◌, string_eq, String, some, ◌≡◌, arith,
  eq_refl, true, false, ◌≢◌, ◌⊎◌,
}
use forestfire.Prelude.Exec.{ok, err, type_error, runtime_error}
use forestfire.Prelude.Dict
use forestfire.Prelude.Dict.{Dict, Dict, get-put}
use forestfire.Value.{
  of_dict, dumps, fields_serializable, all_serializable, Value, list, Items, nil, cons, same,
  serializable,
}
use forestfire.Persist.{none, upload, KvClient, PersistDict, set_locked, assign, set}
use forestfire.Persist.Sync.{set_locked-dict, get-assign}
use forestfire.Persist.Lists.{append, without, extend, extend_found, remove_from, remove_found}

-- No element of the list equals `x`.
abbrev pub Lacks : Value → Items → Type 0
Lacks x nil = Unit
Lacks x (cons v vs) = (same x v ≡ false) × Lacks x vs

pub without-Lacks : (x : Value) (vs : Items) → Lacks x (without x vs)
unfolding without
without-Lacks x nil = tt
without-Lacks x (cons v vs) = ground (arith, without-Lacks x vs)

pub without-append :
    (x : Value) (vs : Items) → same x x ≡ true → Lacks x vs → without x (append vs x) ≡ vs
unfolding without append
without-append x nil e l = ground arith
without-append x (cons v vs) e l = ground (arith, without-append x vs)

all_serializable-append :
    (vs : Items) (value : Value)
    → serializable value ≡ false
    → all_serializable (append vs value) ≡ false
unfolding append all_serializable
all_serializable-append nil value bad = ground arith
all_serializable-append (cons v vs) value bad = ground (arith, all_serializable-append vs value bad)

serializable-append :
    (vs : Items) (value : Value)
    → serializable value ≡ false
    → serializable (list (append vs value)) ≡ false
unfolding serializable
serializable-append vs value bad = all_serializable-append vs value bad

fields_serializable_of_get :
    (d : Dict String Value) (key : String) (w : Value)
    → Dict.get d key ≡ some w
    → serializable w ≡ false
    → fields_serializable (of_dict d) ≡ false
unfolding Dict.get fields_serializable
fields_serializable_of_get [] key w e bad = cc
fields_serializable_of_get ((k, v) ∷ d) key w e bad =
    ground (arith, fields_serializable_of_get d key w)

abbrev pub IsList : Value → Type 0
IsList (list vs) = Unit
IsList _ = ⊥

module _ (kv : KvClient) where
  abbrev Object : Type 0
  Object = PersistDict kv.Backend

  pub extend_missing-dict :
      (key : String) (value : Value) (s : Object) {r : String} {s' : Object}
      → Dict.get s.dict_ key ≡ none
      → extend kv key value s ≡ (ok r, s')
      → s'.dict_ ≡ assign s.dict_ key (list (cons value nil))
  unfolding extend extend_found
  extend_missing-dict key value s {r} {s'} e h =
      let h' : set_locked kv key (list (cons value nil)) s ≡ (ok r, s') = ground arith in
      set_locked-dict kv key (list (cons value nil)) s h'

  pub extend-dict :
      (key : String) (value : Value) (vs : Items) (s : Object) {r : String} {s' : Object}
      → Dict.get s.dict_ key ≡ some (list vs)
      → extend kv key value s ≡ (ok r, s')
      → s'.dict_
        ≡ assign (Dict.put s.dict_ key (list (append vs value))) key (list (append vs value))
  unfolding extend extend_found
  extend-dict key value vs s {r} {s'} e h =
      let t : Object = record s { dict_ = Dict.put s.dict_ key (list (append vs value)) } in
      let h' : set_locked kv key (list (append vs value)) t ≡ (ok r, s') = ground arith in
      set_locked-dict kv key (list (append vs value)) t h'

  -- Only a list is extended.
  pub extend-IsList :
      (key : String) (value w : Value) (s : Object) {r : String} {s' : Object}
      → Dict.get s.dict_ key ≡ some w
      → extend kv key value s ≡ (ok r, s')
      → IsList w
  unfolding extend extend_found
  extend-IsList key value (list vs) s e h = tt
  extend-IsList key value other s e h = ground arith

  -- An `extend` that returns leaves the old list with the value at its end; a missing key counts as
  -- the empty list.
  pub get-extend :
      (key : String) (value : Value) (vs : Items) (s : Object) {r : String} {s' : Object}
      → Dict.get s.dict_ key ≡ some (list vs)
      → extend kv key value s ≡ (ok r, s')
      → Dict.get s'.dict_ key ≡ some (list (append vs value))
  unfolding extend extend_found
  get-extend key value vs s {r} {s'} e h =
      let t : Object = record s { dict_ = Dict.put s.dict_ key (list (append vs value)) } in
      let h' : set_locked kv key (list (append vs value)) t ≡ (ok r, s') = ground arith in
      ground (
        arith,
        set_locked-dict kv key (list (append vs value)) t h',
        get-assign t.dict_ key key (list (append vs value)),
        eq_refl key,
      )

  pub get-remove_from :
      (key : String) (value : Value) (vs : Items) (s : Object) {r : String} {s' : Object}
      → Dict.get s.dict_ key ≡ some (list vs)
      → remove_from kv key value s ≡ (ok r, s')
      → Dict.get s'.dict_ key ≡ some (list (without value vs))
  unfolding remove_from remove_found
  get-remove_from key value vs s {r} {s'} e h =
      let h' : set_locked kv key (list (without value vs)) s ≡ (ok r, s') = ground arith in
      ground (
        arith,
        set_locked-dict kv key (list (without value vs)) s h',
        get-assign s.dict_ key key (list (without value vs)),
        eq_refl key,
      )

  -- Taking out what was just put in restores the list, if the value equals itself and nothing in
  -- the list before.
  pub remove_from-extend :
      (key : String) (value : Value) (vs : Items) (s : Object) {r r' : String} {s' s'' : Object}
      → same value value ≡ true
      → Lacks value vs
      → Dict.get s.dict_ key ≡ some (list vs)
      → extend kv key value s ≡ (ok r, s')
      → remove_from kv key value s' ≡ (ok r', s'')
      → Dict.get s''.dict_ key ≡ some (list vs)
  remove_from-extend key value vs s {s'} same_self new e h h' =
      get-remove_from key value (append vs value) s' (get-extend key value vs s e h) h'
      ∙ ap (λ l. some (list l)) (without-append value vs same_self new)

  -- An `extend` of an existing list that is refused, since the claim is lost or the value is no
  -- JSON, raises and leaves the backend alone, but the list in memory has grown all the same.
  pub extend_refused :
      (key : String) (value : Value) (vs : Items) (s : Object)
      → s.init_task ≡ ok tt
      → (s.claim_lost ≡ true) ⊎ (serializable value ≡ false)
      → Dict.get s.dict_ key ≡ some (list vs)
      → extend kv key value s ≡ (
        err (if s.claim_lost then runtime_error else type_error),
        record s { dict_ = Dict.put s.dict_ key (list (append vs value)) },
      )
  unfolding extend extend_found set_locked
  extend_refused key value vs s i (inl lost) e = ground arith
  extend_refused key value vs s i (inr bad) e = ground (arith, serializable-append vs value bad)

  upload_refused :
      (s : Object)
      → fields_serializable (of_dict s.dict_) ≡ false
      → upload kv s ≡ (err type_error, s)
  unfolding upload dumps serializable
  upload_refused s bad = ground arith

  -- A value in memory that is no JSON blocks every assignment of another key.
  set_blocked :
      (key j : String) (w v : Value) (t : Object)
      → t.init_task ≡ ok tt
      → t.claim_lost ≡ false
      → serializable w ≡ false
      → Dict.get t.dict_ key ≡ some w
      → j ≢ key
      → ((set kv j v t).0 ≡ err type_error) × ((set kv j v t).1.backend ≡ t.backend)
  unfolding set set_locked
  set_blocked key j w v t i claim bad there ne =
      let still : Dict.get (assign t.dict_ j v) key ≡ some w =
        ground (arith, get-assign t.dict_ j key v, eq_iff j key) in
      let up =
        upload_refused (record t { dict_ = assign t.dict_ j v })
          (fields_serializable_of_get (assign t.dict_ j v) key w still bad) in
      (ground (arith, up), ground (arith, up))

  -- A list that took in a value which is no JSON blocks the object: after the refused `extend`,
  -- every `set` of another key raises a `TypeError` and leaves the backend as it was.
  pub set-extend_refused :
      (key j : String) (value v : Value) (vs : Items) (s : Object)
      → s.init_task ≡ ok tt
      → s.claim_lost ≡ false
      → serializable value ≡ false
      → Dict.get s.dict_ key ≡ some (list vs)
      → j ≢ key
      → let t = (extend kv key value s).1 in
        ((set kv j v t).0 ≡ err type_error) × ((set kv j v t).1.backend ≡ s.backend)
  set-extend_refused key j value v vs s i claim bad e ne =
      rw (extend_refused key value vs s i (inr bad) e) (
        set_blocked key j (list (append vs value)) v
          (record s { dict_ = Dict.put s.dict_ key (list (append vs value)) }) i claim
          (serializable-append vs value bad) (simp (get-put, eq_refl)) ne)
