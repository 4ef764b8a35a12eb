-- ===== src/Daemon/Identity/Stable.antt =====
-- The identity of a device is the same after a restart.
use agent_send.Base.{Text, Bytes, [], Option, some, ◌≡◌, refl, ap, ◌∙◌, sym, subst, arith, inl, inr}
use agent_send.Base.Result.{Result, ok, err, Result-cases}
use agent_send.Base.Exec.{Exec, >>-runs}
use agent_send.Core.Os.{
  FileSystem, IoError, os, not_found, invalid_data, invalid_input, unexpected_eof,
}
use agent_send.Core.Paths.{parent}
use agent_send.Registry.TrustFile.{TrustSystem}
use agent_send.Daemon.Types.{DaemonError}
use agent_send.Daemon.Identity.{
  LocalIdentity, IdentityJson, on_disk, create_folder_above, new_identity, create_file,
  create_identity, from_file, load_or_create_identity,
}

-- What is relied on of the system: what is written to a new file is read back.
pub record ReadsBack (fs : FileSystem) (sys : TrustSystem fs) (json : IdentityJson) : Type 0 where
  pub opened : fs.Handle → Text
  pub created :
      (p : Text) (d : fs.Disk) (h : fs.Handle)
      → (fs.create_new p d).0 ≡ ok h
      → (opened h ≡ p) × (sys.read_to_string (fs.create_new p d).1 p ≡ ok [])
  pub written :
      (h : fs.Handle) (i : LocalIdentity) (d : fs.Disk)
      → sys.read_to_string d (opened h) ≡ ok []
      → (fs.write_all h (json.to_vec_pretty i) d).0 ≡ ok tt
      → sys.read_to_string (fs.write_all h (json.to_vec_pretty i) d).1 (opened h)
        ≡ ok (json.to_vec_pretty i)
  pub parses : (i : LocalIdentity) → json.from_str (json.to_vec_pretty i) ≡ some i

module _ (fs : FileSystem) (sys : TrustSystem fs) (json : IdentityJson)
    (laws : ReadsBack fs sys json) (path : Text) (random : Option Bytes) where
  open fs use {Disk}
  open sys use {read_to_string}

  -- The identity stands in the file.
  abbrev Holds : LocalIdentity → Disk → Type 0
  Holds i d =
      (contents : Text) × (read_to_string d path ≡ ok contents) × (json.from_str contents ≡ some i)

  create_file-Holds :
      (i j : LocalIdentity) (d : Disk)
      → (create_file fs sys json path random i d).0 ≡ ok j
      → Holds j (create_file fs sys json path random i d).1
  unfolding create_file
  create_file-Holds i j d h = elim (Result-cases (fs.create_new path d).0) [
    | inr (e, failed) ↦ absurd (ground (arith, failed, h))
    | inl (file, opens) ↦
        let d1 = (fs.create_new path d).1 in
        elim (Result-cases (fs.write_all file (json.to_vec_pretty i) d1).0) [
          | inr (e, failed) ↦ absurd (ground (arith, opens, failed, h))
          | inl (u, writes) ↦
              let (at, fresh) = laws.created path d file opens in
              let full = laws.written file i d1 (rw at fresh) writes in
              let same : i ≡ j = ground (arith, opens, writes, h) in
              let after : (create_file fs sys json path random i d).1
                  ≡ (fs.write_all file (json.to_vec_pretty i) d1).1 =
                ground (arith, opens, writes) in
              (
                json.to_vec_pretty i,
                ap (λ d'. read_to_string d' path) after
                    ∙ (ap (read_to_string (fs.write_all file (json.to_vec_pretty i) d1).1) (sym at)
                        ∙ full),
                laws.parses i ∙ ap some same,
              )
        ]
  ]

  create_identity-Holds :
      (j : LocalIdentity) (d : Disk)
      → (create_identity fs sys json path random d).0 ≡ ok j
      → Holds j (create_identity fs sys json path random d).1
  unfolding create_identity
  create_identity-Holds j d h =
      let above =
        on_disk fs sys json path random
          (create_folder_above fs sys json path random (parent path)) in
      let rest : Exec Disk DaemonError LocalIdentity =
        λ e. create_file fs sys json path random (new_identity random (fs.nanos e)) e in
      let (u, runs, eq) = >>-runs above rest d h in
      subst (λ e. Holds j e) (sym (ap (λ x. x.1) eq))
        (create_file-Holds _ j (above d).1 (sym (ap (λ x. x.0) eq) ∙ h))

  from_file-Holds :
      (r : Result IoError Text) (j : LocalIdentity) (d : Disk)
      → read_to_string d path ≡ r
      → (from_file fs sys json path random r d).0 ≡ ok j
      → Holds j (from_file fs sys json path random r d).1
  unfolding from_file
  from_file-Holds (ok contents) j d e h = (contents, e, ground (arith, h))
  from_file-Holds (err not_found) j d e h = create_identity-Holds j d h
  from_file-Holds (err (os code)) j d e h = absurd (ground (arith, h))
  from_file-Holds (err invalid_data) j d e h = absurd (ground (arith, h))
  from_file-Holds (err invalid_input) j d e h = absurd (ground (arith, h))
  from_file-Holds (err unexpected_eof) j d e h = absurd (ground (arith, h))

  Holds-loads :
      (later : Option Bytes) (j : LocalIdentity) (d : Disk)
      → Holds j d
      → load_or_create_identity fs sys json path later d ≡ (ok j, d)
  unfolding load_or_create_identity from_file
  Holds-loads later j d (contents, read, parsed) = rw (read, parsed) refl

  -- On a system that keeps `ReadsBack`: once a start of the daemon has its identity, be it read or
  -- created, every later start that finds the disk as this one left it has the same identity,
  -- whatever the random bytes then are, and leaves the disk as it is.
  pub load_or_create_identity-again :
      (d : Disk) (j : LocalIdentity) (later : Option Bytes)
      → (load_or_create_identity fs sys json path random d).0 ≡ ok j
      → load_or_create_identity fs sys json path later
          (load_or_create_identity fs sys json path random d).1
        ≡ (ok j, (load_or_create_identity fs sys json path random d).1)
  unfolding load_or_create_identity
  load_or_create_identity-again d j later h =
      Holds-loads later j _ (from_file-Holds (read_to_string d path) j d refl h)
