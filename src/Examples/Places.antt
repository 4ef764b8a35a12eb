-- ===== src/Examples/Places.antt =====
-- The laws of the disk in memory: a path stands for its normal form.
use agent_send.Base.{
  Text, Bytes, Bool, true, false, Option, none, some, [], ◌++◌, ◌≡◌, refl, arith, is_some, Text_eq,
  text_eq, text_eq_iff, if◌then◌else◌, Bool-cases, inl, inr,
}
use agent_send.Base.Result.{ok, err}
use agent_send.Base.Map.{get, remove, get-insert, get-remove}
use agent_send.Core.Os.{IoError}
use agent_send.Core.Paths.{components, render}
use agent_send.Transfer.Incoming.Files.{Places}
use agent_send.Examples.World.{memory, Files, move, write_to, exists_of, is_dir_of}

abbrev pub holds : Files → Text → Bool
holds d l = is_some (get d.contents l)

abbrev pub place : Text → Text
place p = render (components p)

pub write_to-holds :
    (h b l : Text) (d : Files) (o : Option Bytes)
    → get d.contents h ≡ o
    → holds (write_to h b o d).1 l ≡ holds d l
write_to-holds h b l d none e = refl
write_to-holds h b l d (some old) e =
    ground (arith, get-insert d.contents h l (old ++ b), text_eq_iff h l, e)

move-holds :
    (p q l : Text) (d : Files) (o : Option Bytes)
    → (move p q o d).0 ≡ ok tt
    → holds (move p q o d).1 l
      ≡ (if text_eq q l then true else if text_eq p l then false else holds d l)
move-holds p q l d none e = absurd (ground (arith, e))
move-holds p q l d (some b) e =
    ground (arith, get-insert (remove d.contents p) q l b, get-remove d.contents p l)

move-fails :
    (p q l : Text) (d : Files) (o : Option Bytes) {x : IoError}
    → (move p q o d).0 ≡ err x
    → holds (move p q o d).1 l ≡ holds d l
move-fails p q l d none e = refl
move-fails p q l d (some b) e = absurd (ground (arith, e))

pub renamed :
    (p q l : Text) (d : Files)
    → (memory.rename p q d).0 ≡ ok tt
    → holds (memory.rename p q d).1 l
      ≡ (if text_eq (place q) l then true else if text_eq (place p) l then false else holds d l)
renamed p q l d e = elim (Bool-cases (is_dir_of d (place q))) [
  | inl dir ↦ absurd (ground (arith, dir, e))
  | inr other ↦
      rw other (move-holds (place p) (place q) l d (get d.contents (place p)) (rw other at e))
]

pub not_renamed :
    (p q l : Text) (d : Files) {x : IoError}
    → (memory.rename p q d).0 ≡ err x
    → holds (memory.rename p q d).1 l ≡ holds d l
not_renamed p q l d e = elim (Bool-cases (is_dir_of d (place q))) [
  | inl dir ↦ rw dir refl
  | inr other ↦
      rw other (move-fails (place p) (place q) l d (get d.contents (place p)) (rw other at e))
]

pub created :
    (p l : Text) (d : Files) {h : Text}
    → (memory.create_new p d).0 ≡ ok h
    → (holds (memory.create_new p d).1 l ≡ (if text_eq (place p) l then true else holds d l))
      × (holds d (place p) ≡ false)
created p l d e = elim (Bool-cases (exists_of d (place p))) [
  | inl there ↦ absurd (ground (arith, there, e))
  | inr new ↦ (ground (arith, new, get-insert d.contents (place p) l []), ground (arith, new))
]

pub not_created :
    (p l : Text) (d : Files) {x : IoError}
    → (memory.create_new p d).0 ≡ err x
    → holds (memory.create_new p d).1 l ≡ holds d l
not_created p l d e = elim (Bool-cases (exists_of d (place p))) [
  | inl there ↦ rw there refl
  | inr new ↦ absurd (ground (arith, new, e))
]

abbrev pub memory-Places : Places memory
memory-Places = record {
  Place = Text;
  eq = Text_eq;
  at = place;
  holds = holds;
  create_dir_all = λ p l d. refl;
  write_all = λ h b l d. write_to-holds h b l d (get d.contents h) refl;
  sync_all = λ h l d. refl;
  created = λ p l d e. created p l d e;
  not_created = λ p l d e. not_created p l d e;
  renamed = λ p q l d there e. renamed p q l d e;
  not_renamed = λ p q l d e. not_renamed p q l d e;
  removed = λ p l d. ground (arith, get-remove d.contents (place p) l);
}
