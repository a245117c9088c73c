-- ===== src/Datastore/Periodic.antt =====
-- What the loop of the backups leaves in the service, over any sequence of sleeps.
use forestfire.Prelude.{
  string_eq, String, Bool, true, false, Option, none, some, List, [], ◌∷◌, nat_eq, ◌&◌, ◌≡◌, refl,
  sym, ap, ◌∙◌, subst, inl, inr, Bool-cases, arith, if◌then◌else◌,
}
use forestfire.Prelude.Exec.{Exec, Result, ok, err, ◌>>=◌, ◌>>◌, pure}
use forestfire.Prelude.Dict
use forestfire.Prelude.Dict.{Dict}
use forestfire.Value.{Value, null, str}
use forestfire.Value.Access.{get_item}
use forestfire.Datastore.{
  TextClient, TextLaws, SignalDatastore, async_ensure_backup, read_file, periodic_backup, asleep,
  cancel_if, Sleep,
}
use forestfire.Datastore.Laws.{ensure_backup-stored, ensure_backup-kept}

-- A sequence that returned: its first part did, and the rest from where that ended.
>>=-ok :
    {S A B : Type 0} (m : Exec S A) (f : A → Exec S B) (s : S) {b : B} {s' : S}
    → (m >>= f) s ≡ (ok b, s')
    → (a : A) × (t : S) × (m s ≡ (ok a, t)) × (f a t ≡ (ok b, s'))
>>=-ok {S} {A} {B} m f s {b} {s'} h = go (m s) refl h
  where
    go :
        (p : Result A × S)
        → m s ≡ p
        → (elim p.0 as (λ x. Result B × S) [ ok a ↦ f a p.1 | err e ↦ (err e, p.1) ]) ≡ (ok b, s')
        → (a : A) × (t : S) × (m s ≡ (ok a, t)) × (f a t ≡ (ok b, s'))
    go (ok a, t) e h = (a, t, e, h)
    go (err x, t) e h = absurd (raised h)
      where
        raised : Path (Result B × S) (err x, t) (ok b, s') → ⊥
        raised h = ground arith

module _ (client : TextClient) (laws : TextLaws client) (fmt : Value → String) where
  abbrev Object : Type 0
  Object = SignalDatastore client.Backend

  -- The account's path and key.
  abbrev Names : Value → Value → Value → Type 0
  Names account p u =
      (get_item account "path" (str "") ≡ ok p) × (get_item account "uuid" null ≡ ok u)

  -- The service has the text of the file.
  abbrev pub BackedUp : Value → Value → Object → Type 0
  BackedUp p u s =
      (text : String) × (Dict.get s.files ("state/data/" & fmt p) ≡ some text)
      × (client.get s.backend (fmt u) ≡ ok (some text))

  missing-err :
      (s : Object) (p : Value) {r : Option String} {s' : Object}
      → get_item s.account "path" (str "") ≡ ok p
      → Dict.get s.files ("state/data/" & fmt p) ≡ none
      → async_ensure_backup client fmt s ≡ (ok r, s')
      → ⊥
  unfolding async_ensure_backup read_file
  missing-err s p path file h = ground arith

  -- A backup that returned had the file.
  ensure_backup-BackedUp :
      (s : Object) (p u : Value) {r : Option String} {s' : Object}
      → Names s.account p u
      → async_ensure_backup client fmt s ≡ (ok r, s')
      → BackedUp p u s' × Names s'.account p u
  ensure_backup-BackedUp s p u {r} {s'} (path, uuid) h =
      go (Dict.get s.files ("state/data/" & fmt p)) refl
    where
      go :
          (file : Option String)
          → Dict.get s.files ("state/data/" & fmt p) ≡ file
          → BackedUp p u s' × Names s'.account p u
      go none file = absurd (missing-err s p path file h)
      go (some text) file =
          let (account, files, _) =
            ensure_backup-kept client laws fmt s p u text path uuid file h in
          (
            (
              text,
              ap (λ f. Dict.get f ("state/data/" & fmt p)) files ∙ file,
              ensure_backup-stored client laws fmt s p u text path uuid file h,
            ),
            (
              ap (λ a. get_item a "path" (str "")) account ∙ path,
              ap (λ a. get_item a "uuid" null) account ∙ uuid,
            ),
          )

  asleep-account :
      (files : Dict String String) (backend : client.Backend) (stopped : Bool) (s : Object)
      → (asleep client fmt (files, (backend, stopped)) s).1.account ≡ s.account
  unfolding asleep cancel_if
  asleep-account files backend true s = ground arith
  asleep-account files backend false s = refl

  ended :
      (s : Object) (p u : Value) (b c : Bool) {s' : Object}
      → Names s.account p u
      → (async_ensure_backup client fmt >> pure b) s ≡ (ok c, s')
      → BackedUp p u s'
  ended s p u b c {s'} names h =
      let (r, t, backup, last) = >>=-ok (async_ensure_backup client fmt) (λ _. pure b) s h in
      let same : t ≡ s' = ap (λ (x : Result Bool × Object). x.1) last in
      subst (BackedUp p u) same (ensure_backup-BackedUp s p u names backup).0

  -- The two branches of a turn of the loop.
  abbrev turn : Bool → Sleep client fmt → List (Sleep client fmt) → Exec Object Bool
  turn stop sleep sleeps =
      if stop
      then (async_ensure_backup client fmt >> pure true)
      else (async_ensure_backup client fmt
          >> (asleep client fmt sleep >> periodic_backup client fmt sleeps))

  -- Whatever the files and the service become in its sleeps, when the loop has returned, or
  -- has made its backup and sleeps once more, the service has the text that is in the file.
  pub periodic_backup-BackedUp :
      (s : Object) (p u : Value) (sleeps : List (Sleep client fmt)) (b : Bool) {s' : Object}
      → get_item s.account "path" (str "") ≡ ok p
      → get_item s.account "uuid" null ≡ ok u
      → periodic_backup client fmt sleeps s ≡ (ok b, s')
      → BackedUp p u s'
  unfolding periodic_backup
  periodic_backup-BackedUp s p u [] b path uuid h = ended s p u s.shutting_down b (path, uuid) h
  periodic_backup-BackedUp s p u ((files, (backend, stopped)) ∷ sleeps) b {s'} path uuid h =
      elim (Bool-cases s.shutting_down) [
        | inl stop ↦
            ended s p u true b (path, uuid)
              (subst (λ f. turn f (files, (backend, stopped)) sleeps s ≡ (ok b, s')) stop h)
        | inr running ↦
            let (r, t, backup, later) =
              >>=-ok (async_ensure_backup client fmt)
                (λ _.
                  asleep client fmt (files, (backend, stopped))
                  >> periodic_backup client fmt sleeps)
                s
                (subst (λ f. turn f (files, (backend, stopped)) sleeps s ≡ (ok b, s')) running h) in
            let (x, t', slept, rest) =
              >>=-ok (asleep client fmt (files, (backend, stopped)))
                (λ _. periodic_backup client fmt sleeps) t later in
            let (path', uuid') = (ensure_backup-BackedUp s p u (path, uuid) backup).1 in
            let kept : t'.account ≡ t.account =
              sym (ap (λ (x : Result (Unit {0}) × Object). x.1.account) slept)
              ∙ asleep-account files backend stopped t in
            periodic_backup-BackedUp t' p u sleeps b
              (ap (λ a. get_item a "path" (str "")) kept ∙ path')
              (ap (λ a. get_item a "uuid" null) kept ∙ uuid') rest
      ]
