-- ===== src/Datastore/Laws.antt =====
-- Backups of the key state, and the start on another machine.
use forestfire.Prelude.{
  String, Bool, true, false, Option, none, some, ◌==◌, string_eq, truthy, ◌&◌, ◌≡◌, refl, sym, ap,
  ◌∙◌, inl, inr, Bool-cases, eq_iff, eq_refl, arith,
}
use forestfire.Prelude.Exec.{Exc, Result, ok, err, ◌>>◌}
use forestfire.Prelude.Dict
use forestfire.Prelude.Dict.{Dict, get-put}
use forestfire.Value.{Value, null, str}
use forestfire.Value.Access.{item, get_item}
use forestfire.Datastore.{
  run_command, TextClient, TextLaws, SignalDatastore, async_ensure_backup, async_startup,
  write_keystate, restored, differs, store_backup, read_file,
}

module _ (client : TextClient) (laws : TextLaws client) (fmt : Value → String) where
  abbrev Object : Type 0
  Object = SignalDatastore client.Backend

  abbrev path_of : Value → String
  path_of p = "state/data/" & fmt p

  -- What `async_ensure_backup` comes to once the file has been read and the service was asked.
  ensure_backup-eq :
      (s : Object) (p u : Value) (text : String)
      → get_item s.account "path" (str "") ≡ ok p
      → get_item s.account "uuid" null ≡ ok u
      → Dict.get s.files (path_of p) ≡ some text
      → (stored : Option String) → client.get s.backend (fmt u) ≡ ok stored
      → async_ensure_backup client fmt s
        ≡ store_backup client fmt
            (fmt u)
            text
            (differs client fmt stored text)
            (record s { keystate = some text })
  unfolding async_ensure_backup read_file Dict.get
  ensure_backup-eq s p u text path uuid file stored found = simp (path, uuid, file, found)

  ensure_backup-err :
      (s : Object) (p u : Value) (text : String)
      → get_item s.account "path" (str "") ≡ ok p
      → get_item s.account "uuid" null ≡ ok u
      → Dict.get s.files (path_of p) ≡ some text
      → (e : Exc) → client.get s.backend (fmt u) ≡ err e
      → async_ensure_backup client fmt s ≡ (err e, record s { keystate = some text })
  unfolding async_ensure_backup read_file Dict.get
  ensure_backup-err s p u text path uuid file e found = simp (path, uuid, file, found)

  posted :
      (key text : String) (t : Object) {r : Option String} {s' : Object}
      → store_backup client fmt key text true t ≡ (ok r, s')
      → client.get s'.backend key ≡ ok (some text)
  unfolding store_backup
  posted key text t h = ground (arith, laws.get-post t.backend key text)

  unchanged :
      (key text : String) (t : Object) {r : Option String} {s' : Object}
      → store_backup client fmt key text false t ≡ (ok r, s')
      → s'.backend ≡ t.backend
  unfolding store_backup
  unchanged key text t h = ground arith

  -- What `store` leaves in the service.
  store_backup-stored :
      (key text : String) (stored : Option String) (t : Object) {r : Option String} {s' : Object}
      → client.get t.backend key ≡ ok stored
      → store_backup client fmt key text (differs client fmt stored text) t ≡ (ok r, s')
      → client.get s'.backend key ≡ ok (some text)
  unfolding differs
  store_backup-stored key text none t g h = posted key text t h
  store_backup-stored key text (some old) t g h = elim (Bool-cases (old == text)) [
    | inl alike ↦
        ap (λ b. client.get b key) (unchanged key text t (rw alike at h))
        ∙ (g ∙ ap (λ x. ok (some x)) ((eq_iff old text).0 alike))
    | inr differ ↦ posted key text t (rw differ at h)
  ]

  -- A backup that returned has the text of the file in the service.
  pub ensure_backup-stored :
      (s : Object) (p u : Value) (text : String) {r : Option String} {s' : Object}
      → get_item s.account "path" (str "") ≡ ok p
      → get_item s.account "uuid" null ≡ ok u
      → Dict.get s.files (path_of p) ≡ some text
      → async_ensure_backup client fmt s ≡ (ok r, s')
      → client.get s'.backend (fmt u) ≡ ok (some text)
  ensure_backup-stored s p u text {r} {s'} path uuid file h = go (client.get s.backend (fmt u)) refl
    where
      go :
          (stored : Result (Option String))
          → client.get s.backend (fmt u) ≡ stored
          → client.get s'.backend (fmt u) ≡ ok (some text)
      go (ok stored) found =
          store_backup-stored (fmt u) text stored (record s { keystate = some text }) found
            (sym (ensure_backup-eq s p u text path uuid file stored found) ∙ h)
      go (err e) found =
          let refused = ensure_backup-err s p u text path uuid file e found in ground arith

  -- The second backup of a text that the service has is none.
  ensure_backup-stored_already :
      (s : Object) (p u : Value) (text : String)
      → get_item s.account "path" (str "") ≡ ok p
      → get_item s.account "uuid" null ≡ ok u
      → Dict.get s.files (path_of p) ≡ some text
      → client.get s.backend (fmt u) ≡ ok (some text)
      → async_ensure_backup client fmt s ≡ (ok none, record s { keystate = some text })
  unfolding store_backup differs
  ensure_backup-stored_already s p u text path uuid file found =
      ensure_backup-eq s p u text path uuid file (some text) found ∙ simp (eq_refl text)

  restored-files :
      (path text : String) (s : Object) (found : Option String)
      → Dict.get s.files path ≡ found
      → let (r, s') = restored client fmt path text found s in
        (r ≡ ok tt) × (Dict.get s'.files path ≡ some text)
  unfolding restored
  restored-files path text s none e = (refl, simp (get-put, eq_refl))
  restored-files path text s (some old) e = elim (Bool-cases (text == old)) [
    | inl alike ↦ rw alike (refl, e ∙ ap some (sym ((eq_iff text old).0 alike)))
    | inr differ ↦ rw differ (refl, simp (get-put, eq_refl))
  ]

  write_keystate-eq :
      (path text : String) (s : Object)
      → truthy text ≡ true
      → write_keystate client fmt path (some text) s
        ≡ restored client fmt path text (Dict.get s.files path) s
  unfolding write_keystate
  write_keystate-eq path text s full = rw full refl

  startup-eq :
      (t : Object) (p u : Value) (text : String)
      → item t.account "path" ≡ ok p
      → get_item t.account "uuid" null ≡ ok u
      → client.get t.backend (fmt u) ≡ ok (some text)
      → async_startup client fmt t
        ≡ (write_keystate client fmt (path_of p) (some text)
              >> (run_command client fmt "restore" >> run_command client fmt "replicate"))
            (record t { keystate = some text })
  unfolding async_startup
  startup-eq t p u text path uuid found = ground arith

  then_commands :
      (w : Result (Unit {0}) × Object) (path text : String)
      → (w.0 ≡ ok tt) × (Dict.get w.1.files path ≡ some text)
      → let (r, t') =
          ((λ _. w) >> (run_command client fmt "restore" >> run_command client fmt "replicate"))
            w.1 in
        (r ≡ ok tt) × (Dict.get t'.files path ≡ some text)
  then_commands (ok x, t) path text h = (refl, h.1)
  then_commands (err e, t) path text h = absurd (no_ok h.0)
    where
      no_ok : Path (Result (Unit {0})) (err e) (ok tt) → ⊥
      no_ok h = cc

  -- After a start the key state that the service has is in the file.
  startup-files :
      (t : Object) (p u : Value) (text : String)
      → item t.account "path" ≡ ok p
      → get_item t.account "uuid" null ≡ ok u
      → client.get t.backend (fmt u) ≡ ok (some text)
      → truthy text ≡ true
      → let (r, t') = async_startup client fmt t in
        (r ≡ ok tt) × (Dict.get t'.files (path_of p) ≡ some text)
  unfolding async_startup
  startup-files t p u text path uuid found full =
      let kept : Object = record t { keystate = some text } in
      let written = restored-files (path_of p) text kept (Dict.get t.files (path_of p)) refl in
      rw (startup-eq t p u text path uuid found) (
        then_commands (write_keystate client fmt (path_of p) (some text) kept) (path_of p) text
          (rw (write_keystate-eq (path_of p) text kept full) written))

  -- The key state that was backed up on one machine is in the file after a start on another one,
  -- where the service is as the backup left it and the account is the same, if the text is not
  -- empty; the start returns.
  pub async_startup-async_ensure_backup :
      (s t : Object) (p u : Value) (text : String) {r : Option String} {s' : Object}
      → get_item s.account "path" (str "") ≡ ok p
      → get_item s.account "uuid" null ≡ ok u
      → Dict.get s.files (path_of p) ≡ some text
      → truthy text ≡ true
      → async_ensure_backup client fmt s ≡ (ok r, s')
      → item t.account "path" ≡ ok p
      → get_item t.account "uuid" null ≡ ok u
      → t.backend ≡ s'.backend
      → let (done, t') = async_startup client fmt t in
        (done ≡ ok tt) × (Dict.get t'.files (path_of p) ≡ some text)
  async_startup-async_ensure_backup s t p u text {s'} path uuid file full h path' uuid' shared =
      let found = ensure_backup-stored s p u text path uuid file h in
      startup-files t p u text path' uuid' (ap (λ b. client.get b (fmt u)) shared ∙ found) full

  store_backup-kept :
      (key text : String) (b : Bool) (t : Object) {r : Option String} {s' : Object}
      → store_backup client fmt key text b t ≡ (ok r, s')
      → (s'.account ≡ t.account) × (s'.files ≡ t.files) × (s'.keystate ≡ t.keystate)
  unfolding store_backup
  store_backup-kept key text false t h = (ground arith, ground arith, ground arith)
  store_backup-kept key text true t h = (ground arith, ground arith, ground arith)

  pub ensure_backup-kept :
      (s : Object) (p u : Value) (text : String) {r : Option String} {s' : Object}
      → get_item s.account "path" (str "") ≡ ok p
      → get_item s.account "uuid" null ≡ ok u
      → Dict.get s.files (path_of p) ≡ some text
      → async_ensure_backup client fmt s ≡ (ok r, s')
      → (s'.account ≡ s.account) × (s'.files ≡ s.files) × (s'.keystate ≡ some text)
  ensure_backup-kept s p u text {r} {s'} path uuid file h = go (client.get s.backend (fmt u)) refl
    where
      go :
          (stored : Result (Option String))
          → client.get s.backend (fmt u) ≡ stored
          → (s'.account ≡ s.account) × (s'.files ≡ s.files) × (s'.keystate ≡ some text)
      go (ok stored) found =
          store_backup-kept (fmt u) text (differs client fmt stored text)
            (record s { keystate = some text })
            (sym (ensure_backup-eq s p u text path uuid file stored found) ∙ h)
      go (err e) found =
          absurd (raised (sym (ensure_backup-err s p u text path uuid file e found) ∙ h))
        where
          raised :
              Path
                (Result (Option String) × Object)
                (err e, record s { keystate = some text })
                (ok r, s')
              → ⊥
          raised h = ground arith

  -- A backup that returned is not made again while the file stays as it is: the next one posts
  -- nothing, returns None and changes nothing.
  pub async_ensure_backup_again :
      (s : Object) (p u : Value) (text : String) {r : Option String} {s' : Object}
      → get_item s.account "path" (str "") ≡ ok p
      → get_item s.account "uuid" null ≡ ok u
      → Dict.get s.files (path_of p) ≡ some text
      → async_ensure_backup client fmt s ≡ (ok r, s')
      → async_ensure_backup client fmt s' ≡ (ok none, s')
  async_ensure_backup_again s p u text {s'} path uuid file h =
      let (account, files, keystate) = ensure_backup-kept s p u text path uuid file h in
      ensure_backup-stored_already s' p u text (ap (λ a. get_item a "path" (str "")) account ∙ path)
        (ap (λ a. get_item a "uuid" null) account ∙ uuid)
        (ap (λ f. Dict.get f (path_of p)) files ∙ file)
        (ensure_backup-stored s p u text path uuid file h)
      ∙ ap (λ k. (ok none, record s' { keystate = k })) (sym keystate)
