-- ===== src/Examples/Disk.antt =====
-- A disk in memory, whose folders are left out.
use agent_send.Base.{
  Text, Bytes, [], ◌∷◌, ◌++◌, Bool, false, Option, none, some, ◌≡◌, ◌≢◌, refl, ap, ◌∙◌, arith,
  if◌then◌else◌, ◌==◌, Text_eq, text_eq, text_eq_iff, is_some, inl, inr, Bool-cases,
}
use agent_send.Base.Result.{Result, ok, err}
use agent_send.Core.Os.{FileSystem, IoError, os, not_found}
use agent_send.Registry.TrustFile.{TrustSystem}

-- A disk holds a text at some paths. There are no folders and no links.
abbrev pub Holding : Type 0
Holding = Text → Option Text

abbrev pub put : Text → Option Text → Holding → Holding
put p b d q = if p == q then b else d q

pub put-other : (p q : Text) (b : Option Text) (d : Holding) → p ≢ q → put p b d q ≡ d q
put-other p q b d apart = elim (Bool-cases (text_eq p q)) [
  | inl e ↦ absurd (apart ((text_eq_iff p q).0 e))
  | inr e ↦ rw e refl
]

pub put-same : (p : Text) (b : Option Text) (d : Holding) → put p b d p ≡ b
put-same p b d = rw ((text_eq_iff p p).1 refl) refl

abbrev pub create : Text → Holding → Option Text → Result IoError Text × Holding
create p d none = (ok p, put p (some []) d)
create p d (some b) = (err (os 17), d)

abbrev pub append_to : Text → Bytes → Holding → Option Text → Result IoError (Unit {0}) × Holding
append_to p b d none = (err (os 9), d)
append_to p b d (some old) = (ok tt, put p (some (old ++ b)) d)

abbrev pub move : Text → Text → Holding → Option Text → Result IoError (Unit {0}) × Holding
move p q d none = (err (os 2), d)
move p q d (some b) = (ok tt, put q (some b) (put p none d))

abbrev pub memory : FileSystem
memory = record {
  Disk = Holding;
  Handle = Text;
  canonicalize = λ d p. some p;
  exists = λ d p. is_some (d p);
  is_dir = λ d p. false;
  is_file = λ d p. is_some (d p);
  create_dir_all = λ p d. (ok tt, d);
  create_new = λ p d. create p d (d p);
  write_all = λ p b d. append_to p b d (d p);
  sync_all = λ p d. (ok tt, d);
  rename = λ p q d. move p q d (d p);
  remove_file = λ p d. (ok tt, put p none d);
  nanos = λ d. 7;
  process_id = 41;
}

abbrev pub read_of : Option Text → Result IoError Text
read_of none = err not_found
read_of (some b) = ok b

-- A system that lets the permissions be set, or refuses it.
abbrev pub system : Bool → TrustSystem memory
system allows = record {
  read_to_string = λ d p. read_of (d p);
  create_new_mode = λ p mode d. create p d (d p);
  set_permissions = λ p mode d. (if allows then ok tt else err (os 1), d);
}

abbrev pub empty_disk : Holding
empty_disk p = none

pub create_other :
    (p q : Text) (d : Holding) (o : Option Text)
    → p ≢ q
    → read_of ((create p d o).1 q) ≡ read_of (d q)
create_other p q d none apart = ap read_of (put-other p q (some []) d apart)
create_other p q d (some b) apart = refl

pub create_new_file :
    (p : Text) (d : Holding) (o : Option Text) (h : Text)
    → (create p d o).0 ≡ ok h
    → (h ≡ p) × (read_of ((create p d o).1 p) ≡ ok [])
create_new_file p d none h e = (ground (arith, e), ap read_of (put-same p (some []) d))
create_new_file p d (some b) h e = absurd (ground (arith, e))

pub append_other :
    (p q : Text) (b : Bytes) (d : Holding) (o : Option Text)
    → p ≢ q
    → read_of ((append_to p b d o).1 q) ≡ read_of (d q)
append_other p q b d none apart = refl
append_other p q b d (some old) apart = ap read_of (put-other p q (some (old ++ b)) d apart)

pub append_here :
    (p : Text) (b : Bytes) (d : Holding) (o : Option Text)
    → read_of o ≡ ok []
    → (append_to p b d o).0 ≡ ok tt
    → read_of ((append_to p b d o).1 p) ≡ ok b
append_here p b d none e h = absurd (ground (arith, e))
append_here p b d (some []) e h = ap read_of (put-same p (some b) d)
append_here p b d (some (c ∷ cs)) e h = absurd (ground (arith, e))

pub move_here :
    (p q b : Text) (d : Holding) (o : Option Text)
    → read_of o ≡ ok b
    → (move p q d o).0 ≡ ok tt
    → read_of ((move p q d o).1 q) ≡ ok b
move_here p q b d none e h = absurd (ground (arith, e))
move_here p q b d (some c) e h = ap read_of (put-same q (some c) (put p none d)) ∙ e

pub move_fails :
    (p q : Text) (d : Holding) (o : Option Text) (e : IoError)
    → (move p q d o).0 ≡ err e
    → read_of ((move p q d o).1 q) ≡ read_of (d q)
move_fails p q d none e h = refl
move_fails p q d (some c) e h = absurd (ground (arith, h))
