-- ===== src/Registry/TrustFile/Replacement.antt =====
-- What `FilePeerTrustStore::save` leaves on the disk.
use agent_send.Base.{
  ◌⊎◌, ℕ, Text, Bytes, List, [], Option, none, some, ◌≡◌, ◌≢◌, refl, ◌∙◌, ap, sym, arith, is_empty,
  inl, inr, Bool-cases,
}
use agent_send.Base.Result.{Result, ok, err, Result-cases, map_err}
use agent_send.Base.Exec.{Exec, ◌>>=◌, ◌>>◌}
use agent_send.Core.Os.{FileSystem, IoError}
use agent_send.Core.Paths.{components, parent}
use agent_send.Registry.Types.{StoredPeerTrust, PeerTrustStoreError, io}
use agent_send.Registry.Persistence.{Stores}
use agent_send.Registry.TrustFile.{
  TrustSystem, TrustJson, Backing, load_trust, temporary_path, write_and_rename, discard_if_failed,
  save_below, save_trust, create_above, file_store, private_mode,
}

-- Paths of different files, on a disk that has no links among them.
abbrev pub Apart : Text → Text → Type 0
Apart p q = components p ≢ components q

-- What is relied on of the system: a call on one path leaves the files at others as they are, what
-- is written to a new file is read back, a rename replaces the target at once or leaves it, and its
-- owner can read a file of the mode 0o600.
pub record Replaces (fs : FileSystem) (sys : TrustSystem fs) (json : TrustJson) : Type 0 where
  pub opened : fs.Handle → Text
  pub folder_apart :
      (p q : Text) (d : fs.Disk)
      → parent q ≡ some p
      → sys.read_to_string (fs.create_dir_all p d).1 q ≡ sys.read_to_string d q
  pub create_apart :
      (p q : Text) (mode : ℕ) (d : fs.Disk)
      → Apart p q
      → sys.read_to_string (sys.create_new_mode p mode d).1 q ≡ sys.read_to_string d q
  pub created :
      (p : Text) (mode : ℕ) (d : fs.Disk) (h : fs.Handle)
      → (sys.create_new_mode p mode d).0 ≡ ok h
      → (opened h ≡ p) × (sys.read_to_string (sys.create_new_mode p mode d).1 p ≡ ok [])
  pub write_apart :
      (h : fs.Handle) (b : Bytes) (q : Text) (d : fs.Disk)
      → Apart (opened h) q
      → sys.read_to_string (fs.write_all h b d).1 q ≡ sys.read_to_string d q
  pub written :
      (h : fs.Handle) (peers : List StoredPeerTrust) (d : fs.Disk)
      → sys.read_to_string d (opened h) ≡ ok []
      → (fs.write_all h (json.to_vec_pretty peers) d).0 ≡ ok tt
      → sys.read_to_string (fs.write_all h (json.to_vec_pretty peers) d).1 (opened h)
        ≡ ok (json.to_vec_pretty peers)
  pub synced :
      (h : fs.Handle) (q : Text) (d : fs.Disk)
      → sys.read_to_string (fs.sync_all h d).1 q ≡ sys.read_to_string d q
  pub renamed :
      (p q : Text) (d : fs.Disk) (b : Text)
      → sys.read_to_string d p ≡ ok b
      → (fs.rename p q d).0 ≡ ok tt
      → sys.read_to_string (fs.rename p q d).1 q ≡ ok b
  pub not_renamed :
      (p q : Text) (d : fs.Disk) (e : IoError)
      → (fs.rename p q d).0 ≡ err e
      → sys.read_to_string (fs.rename p q d).1 q ≡ sys.read_to_string d q
  pub permitted :
      (q : Text) (d : fs.Disk) (b : Text)
      → sys.read_to_string d q ≡ ok b
      → sys.read_to_string (sys.set_permissions q private_mode d).1 q ≡ ok b
  pub remove_apart :
      (p q : Text) (d : fs.Disk)
      → Apart p q
      → sys.read_to_string (fs.remove_file p d).1 q ≡ sys.read_to_string d q
  pub parses :
      (peers : List StoredPeerTrust) → json.from_str (json.to_vec_pretty peers) ≡ some peers

module _ (fs : FileSystem) (sys : TrustSystem fs) (json : TrustJson) (laws : Replaces fs sys json)
    (path : Text) (peers : List StoredPeerTrust) where
  open fs use {Disk, Handle}
  open sys use {read_to_string}

  abbrev contents : Bytes
  contents = json.to_vec_pretty peers

  -- How a try to put the new file in the place of the old one ends, with what is then read at the
  -- path of the store.
  data Tried (before : Disk) (r : Result IoError (Unit {0}) × Disk) : Type 0 where
    new_file : r.0 ≡ ok tt → read_to_string r.1 path ≡ ok contents → Tried before r
    old_file :
        (e : IoError)
        → r.0 ≡ err e
        → read_to_string r.1 path ≡ read_to_string before path
        → Tried before r
    new_file_open :
        (e : IoError) (renamed : Disk)
        → (sys.set_permissions path private_mode renamed).0 ≡ err e
        → r.0 ≡ err e
        → read_to_string r.1 path ≡ ok contents
        → Tried before r

  -- A step of the try fails with the old file in place, or the try goes on.
  after_step :
      {A : Type 0} (m : Exec Disk IoError A) (next : A → Exec Disk IoError (Unit {0}))
      (before d : Disk)
      → ((e : IoError) → (m d).0 ≡ err e → read_to_string (m d).1 path ≡ read_to_string before path)
      → ((a : A) → (m d).0 ≡ ok a → Tried before (next a (m d).1))
      → Tried before ((m >>= next) d)
  after_step m next before d fails goes = elim (Result-cases (m d).0) [
    | inl (a, h) ↦ rw h (goes a h)
    | inr (e, h) ↦ rw h (old_file e refl (fails e h))
  ]

  after_permissions :
      (before d : Disk)
      → read_to_string d path ≡ ok contents
      → Tried before (sys.set_permissions path private_mode d)
  after_permissions before d new = elim (Result-cases (sys.set_permissions path private_mode d).0) [
    | inl (u, h) ↦ new_file h (laws.permitted path d _ new)
    | inr (e, h) ↦ new_file_open e d h h (laws.permitted path d _ new)
  ]

  module _ (temporary : Text) (apart : Apart temporary path) where
    after_sync :
        (before d : Disk)
        → read_to_string d path ≡ read_to_string before path
        → read_to_string d temporary ≡ ok contents
        → Tried before ((fs.rename temporary path >> sys.set_permissions path private_mode) d)
    after_sync before d old new =
        after_step (fs.rename temporary path) (λ _. sys.set_permissions path private_mode) before d
          (λ e h. laws.not_renamed temporary path d e h ∙ old)
          (λ u h. after_permissions before _ (laws.renamed temporary path d _ new h))

    -- The try puts the new contents in the place of the old ones in one step, the rename.
    write_and_rename-Tried :
        (d : Disk) → Tried d (write_and_rename fs sys json path temporary contents d)
    unfolding write_and_rename
    write_and_rename-Tried d =
        let opened_at = laws.create_apart temporary path private_mode d apart in
        after_step (sys.create_new_mode temporary private_mode) _ d d (λ e h. opened_at)
          (λ file h.
            let (at, fresh) = laws.created temporary private_mode d file h in
            let d1 = (sys.create_new_mode temporary private_mode d).1 in
            let d2 = (fs.write_all file contents d1).1 in
            let kept : read_to_string d2 path ≡ read_to_string d path =
              laws.write_apart file contents path d1 (rw at apart) ∙ opened_at in
            after_step (fs.write_all file contents) _ d d1 (λ e h'. kept)
              (λ u h'.
                let full = laws.written file peers d1 (rw at fresh) h' in
                after_step (fs.sync_all file) _ d d2 (λ e s. laws.synced file path d2 ∙ kept)
                  (λ v s.
                    after_sync d _ (laws.synced file path d2 ∙ kept)
                      (laws.synced file temporary d2 ∙ (ap (read_to_string d2) (sym at) ∙ full)))))

    discard-Tried :
        (before : Disk) (r : Result IoError (Unit {0}) × Disk)
        → Tried before r
        → Tried before (discard_if_failed fs sys json path temporary r)
    discard-Tried before (ok u, d) (new_file h new) = new_file h new
    discard-Tried before (err e, d) (new_file h new) = absurd (ground (arith, h))
    discard-Tried before (ok u, d) (old_file e h old) = absurd (ground (arith, h))
    discard-Tried before (err e', d) (old_file e h old) =
        old_file e h (laws.remove_apart temporary path d apart ∙ old)
    discard-Tried before (ok u, d) (new_file_open e renamed refused h new) =
        absurd (ground (arith, h))
    discard-Tried before (err e', d) (new_file_open e renamed refused h new) =
        new_file_open e renamed refused h (laws.remove_apart temporary path d apart ∙ new)

  -- How a `save` of the peers ends.
  pub data Saved (before : Backing fs sys json path)
      (r : Result PeerTrustStoreError (Unit {0}) × Backing fs sys json path) : Type 0 where
    stored : r.0 ≡ ok tt → load_trust fs sys json path r.1 ≡ ok peers → Saved before r
    unchanged :
        (e : IoError)
        → r.0 ≡ err (io e)
        → load_trust fs sys json path r.1 ≡ load_trust fs sys json path before
        → Saved before r
    stored_open :
        (e : IoError) (renamed : Disk)
        → (sys.set_permissions path private_mode renamed).0 ≡ err e
        → r.0 ≡ err (io e)
        → load_trust fs sys json path r.1 ≡ ok peers
        → Saved before r

  load-new :
      (b : Backing fs sys json path)
      → read_to_string b.0 path ≡ ok contents
      → load_trust fs sys json path b ≡ ok peers
  unfolding load_trust
  load-new b new = rw (new, laws.parses peers) refl

  load-same :
      (b c : Backing fs sys json path)
      → read_to_string b.0 path ≡ read_to_string c.0 path
      → load_trust fs sys json path b ≡ load_trust fs sys json path c
  unfolding load_trust
  load-same b c same = rw same refl

  create_above-reads :
      (o : Option Text) (d : Disk)
      → o ≡ parent path
      → read_to_string (create_above fs sys json path o d).1 path ≡ read_to_string d path
  create_above-reads none d h = refl
  create_above-reads (some above) d h = elim (Bool-cases (is_empty above)) [
    | inl e ↦ rw e refl
    | inr e ↦ rw e (laws.folder_apart above path d (sym h))
  ]

  module _ (before : Backing fs sys json path)
      (apart : Apart (temporary_path fs sys json path before.1) path) where
    from_try :
        (above : Disk) (next : ℕ) (r : Result IoError (Unit {0}) × Disk)
        → read_to_string above path ≡ read_to_string before.0 path
        → Tried above r
        → Saved before (map_err io r.0, (r.1, next))
    from_try above next r same (new_file h new) = stored (ap (map_err io) h) (load-new _ new)
    from_try above next r same (old_file e h old) =
        unchanged e (ap (map_err io) h) (load-same _ before (old ∙ same))
    from_try above next r same (new_file_open e renamed refused h new) =
        stored_open e renamed refused (ap (map_err io) h) (load-new _ new)

    below-Saved :
        (r : Result IoError (Unit {0}) × Disk)
        → read_to_string r.1 path ≡ read_to_string before.0 path
        → Saved before (save_below fs sys json path contents before.1 r)
    unfolding save_below
    below-Saved (err e, d) same = unchanged e refl (load-same _ before same)
    below-Saved (ok u, d) same =
        let temporary = temporary_path fs sys json path before.1 in
        from_try d _ _ same
          (discard-Tried temporary apart d _ (write_and_rename-Tried temporary apart d))

    -- On a system that keeps `Replaces`, with a temporary file apart from the file of the store: a
    -- `save` that succeeds leaves the peers it was given to be loaded. One that fails leaves what was
    -- loaded before it to be loaded, with one exception: if the permissions cannot be set after the
    -- rename, `save` fails and the new peers are loaded.
    pub save_trust-Saved : Saved before (save_trust fs sys json path peers before)
    unfolding save_trust save_below
    save_trust-Saved =
        below-Saved (create_above fs sys json path (parent path) before.0)
          (create_above-reads (parent path) before.0 refl)

module _ (fs : FileSystem) (sys : TrustSystem fs) (json : TrustJson) (laws : Replaces fs sys json)
    (path : Text) where
  abbrev or_nobody : Result PeerTrustStoreError (List StoredPeerTrust) → List StoredPeerTrust
  or_nobody (ok peers) = peers
  or_nobody (err e) = []

  Saved-ok :
      (peers : List StoredPeerTrust) (before : Backing fs sys json path)
      (r : Result PeerTrustStoreError (Unit {0}) × Backing fs sys json path)
      → Saved fs sys json laws path peers before r
      → r.0 ≡ ok tt
      → load_trust fs sys json path r.1 ≡ ok peers
  Saved-ok peers before r (stored h new) ends = new
  Saved-ok peers before r (unchanged e h same) ends = absurd (ground (arith, h, ends))
  Saved-ok peers before r (stored_open e renamed refused h new) ends = new

  Saved-err :
      (peers : List StoredPeerTrust) (before : Backing fs sys json path)
      (r : Result PeerTrustStoreError (Unit {0}) × Backing fs sys json path)
      (x : PeerTrustStoreError)
      → Saved fs sys json laws path peers before r
      → r.0 ≡ err x
      → (load_trust fs sys json path r.1 ≡ load_trust fs sys json path before)
        ⊎ (load_trust fs sys json path r.1 ≡ ok peers)
  Saved-err peers before r x (stored h new) fails = inr new
  Saved-err peers before r x (unchanged e h same) fails = inl same
  Saved-err peers before r x (stored_open e renamed refused h new) fails = inr new

  -- The file is a store of trust, as the daemon relies on it.
  pub file_store-Stores :
      ((next : ℕ) → Apart (temporary_path fs sys json path next) path)
      → Stores (file_store fs sys json path)
  unfolding file_store
  file_store-Stores apart = record {
    contents = λ b. or_nobody (load_trust fs sys json path b);
    saves = λ peers b ends.
        ap or_nobody
          (Saved-ok peers b _ (save_trust-Saved fs sys json laws path peers b (apart b.1)) ends);
    fails = λ peers b e ends.
        elim (Saved-err peers b _ e (save_trust-Saved fs sys json laws path peers b (apart b.1))
          ends) [ inl same ↦ inl (ap or_nobody same) | inr new ↦ inr (ap or_nobody new) ];
  }
