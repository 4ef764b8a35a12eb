-- ===== src/Transfer/Incoming/Files.antt =====
-- Which files are on the disk while a connection lasts, and whose they are.
use agent_send.Base.{
  Text, List, [], ◌∷◌, ◌++◌, Bool, true, false, ◌||◌, Option, none, some, ◌≡◌, refl, sym, ap, ◌∙◌,
  arith, All, any, HasEq, if◌then◌else◌, Bool-cases, inl, inr,
}
use agent_send.Base.Result.{ok, err}
use agent_send.Core.Os.{FileSystem, Sha256, IoError}
use agent_send.Transfer.Types.{IncomingTransfer, IncomingFile}
use agent_send.Transfer.Incoming.{Session, drop, remove_each, remove_temp}
use mathlib.Core.List.{reverse, reverse-append}

-- What is relied on of the system, on a disk on which nobody else works meanwhile: every path stands
-- for a place, and a place has a file or not. A new file stands where there was none; a rename takes
-- the file from the one place to the other, or fails and does nothing; a file can be removed; and no
-- other call makes a file appear or disappear.
pub record Places (fs : FileSystem) : Type 1 where
  pub Place : Type 0
  pub eq : HasEq Place
  pub at : Text → Place
  pub holds : fs.Disk → Place → Bool
  pub create_dir_all :
      (p : Text) (l : Place) (d : fs.Disk) → holds (fs.create_dir_all p d).1 l ≡ holds d l
  pub write_all :
      (h : fs.Handle) (b : Text) (l : Place) (d : fs.Disk)
      → holds (fs.write_all h b d).1 l ≡ holds d l
  pub sync_all : (h : fs.Handle) (l : Place) (d : fs.Disk) → holds (fs.sync_all h d).1 l ≡ holds d l
  pub created :
      (p : Text) (l : Place) (d : fs.Disk) {h : fs.Handle}
      → (fs.create_new p d).0 ≡ ok h
      → (holds (fs.create_new p d).1 l ≡ (if eq.same (at p) l then true else holds d l))
        × (holds d (at p) ≡ false)
  pub not_created :
      (p : Text) (l : Place) (d : fs.Disk) {e : IoError}
      → (fs.create_new p d).0 ≡ err e
      → holds (fs.create_new p d).1 l ≡ holds d l
  pub renamed :
      (p q : Text) (l : Place) (d : fs.Disk)
      → holds d (at p) ≡ true
      → (fs.rename p q d).0 ≡ ok tt
      → holds (fs.rename p q d).1 l
        ≡ (if eq.same (at q) l then true else if eq.same (at p) l then false else holds d l)
  pub not_renamed :
      (p q : Text) (l : Place) (d : fs.Disk) {e : IoError}
      → (fs.rename p q d).0 ≡ err e
      → holds (fs.rename p q d).1 l ≡ holds d l
  pub removed :
      (p : Text) (l : Place) (d : fs.Disk)
      → holds (fs.remove_file p d).1 l ≡ (if eq.same (at p) l then false else holds d l)

module _ (fs : FileSystem) (places : Places fs) (sha : Sha256) where
  open places use {Place, at, holds}

  abbrev pub is_at : Text → Place → Bool
  is_at p l = places.eq.same (at p) l

  -- One of the paths stands for the place.
  abbrev pub among : List Text → Place → Bool
  among ps l = any (λ p. is_at p l) ps

  abbrev pub temp_of : Option (IncomingFile fs) → List Text
  temp_of none = []
  temp_of (some f) = f.temp ∷ []

  -- The files of a transfer: every file that was not there at the start is its temporary file, one
  -- that it has committed, or one of the `lost`; what it has committed is there; and so is its
  -- temporary file, which is none of the committed ones.
  pub record Tracks (start : fs.Disk) (lost : List Text) (d : fs.Disk) (temp committed : List Text)
      : Type 0 where
    pub origin :
        (l : Place)
        → holds d l ≡ true
        → (holds start l || (among lost l || (among temp l || among committed l))) ≡ true
    pub placed : All (λ p. holds d (at p) ≡ true) committed
    pub opened : All (λ p. (holds d (at p) ≡ true) × (among committed (at p) ≡ false)) temp

  -- The files of the transfer of a session, of which none is lost.
  pub record Tracked (start : fs.Disk) (s : Session fs sha) : Type 0 where
    pub files : Tracks start [] s.disk (temp_of s.transfer.active_file) s.transfer.committed_targets

  All-holds :
      (d d' : fs.Disk) (ps : List Text)
      → ((l : Place) → holds d' l ≡ holds d l)
      → All (λ p. holds d (at p) ≡ true) ps
      → All (λ p. holds d' (at p) ≡ true) ps
  All-holds d d' [] same h = tt
  All-holds d d' (p ∷ ps) same h = (same (at p) ∙ h.0, All-holds d d' ps same h.1)

  All-opened :
      (d d' : fs.Disk) (ps cs : List Text)
      → ((l : Place) → holds d' l ≡ holds d l)
      → All (λ p. (holds d (at p) ≡ true) × (among cs (at p) ≡ false)) ps
      → All (λ p. (holds d' (at p) ≡ true) × (among cs (at p) ≡ false)) ps
  All-opened d d' [] cs same h = tt
  All-opened d d' (p ∷ ps) cs same h =
      ((same (at p) ∙ h.0.0, h.0.1), All-opened d d' ps cs same h.1)

  -- A call that makes no file appear or disappear.
  pub Tracks-same :
      (start d d' : fs.Disk) (lost temp committed : List Text)
      → ((l : Place) → holds d' l ≡ holds d l)
      → Tracks start lost d temp committed
      → Tracks start lost d' temp committed
  Tracks-same start d d' lost temp committed same t = record {
    origin = λ l h. t.origin l (sym (same l) ∙ h);
    placed = All-holds d d' committed same t.placed;
    opened = All-opened d d' temp committed same t.opened;
  }

  -- A file at another place than those listed does not become absent.
  All-created :
      (d : fs.Disk) (p : Text) {h : fs.Handle} (cs : List Text)
      → (fs.create_new p d).0 ≡ ok h
      → All (λ c. holds d (at c) ≡ true) cs
      → All (λ c. holds (fs.create_new p d).1 (at c) ≡ true) cs
  All-created d p [] e h = tt
  All-created d p (c ∷ cs) e h =
      (ground (arith, (places.created p (at c) d e).0, h.0), All-created d p cs e h.1)

  apart : (c p : Text) → is_at c (at p) ≡ false → is_at p (at c) ≡ false
  apart c p h =
      ground (arith, h, places.eq.same_iff (at c) (at p), places.eq.same_iff (at p) (at c))

  -- An open file is at none of the places that have a file.
  not_among :
      (d : fs.Disk) (p : Text) (cs : List Text)
      → holds d (at p) ≡ false
      → All (λ c. holds d (at c) ≡ true) cs
      → among cs (at p) ≡ false
  not_among d p [] absent h = refl
  not_among d p (c ∷ cs) absent h = elim (Bool-cases (is_at c (at p))) [
    | inr other ↦ rw other (not_among d p cs absent h.1)
    | inl same ↦
        let one : at c ≡ at p = (places.eq.same_iff (at c) (at p)).0 same in
        let both : true ≡ false = sym h.0 ∙ ap (holds d) one ∙ absent in
        absurd (ground (arith, both))
  ]

  pub created-Tracks :
      (start d : fs.Disk) (p : Text) (h : fs.Handle) (committed : List Text)
      → (fs.create_new p d).0 ≡ ok h
      → Tracks start [] d [] committed
      → Tracks start [] (fs.create_new p d).1 (p ∷ []) committed
  created-Tracks start d p h committed e t =
      let absent = (places.created p (at p) d e).1 in
      let self = (places.eq.same_iff (at p) (at p)).1 refl in
      record {
        origin = λ l k. ground (arith, (places.created p l d e).0, k, t.origin l);
        placed = All-created d p committed e t.placed;
        opened = (
          (
            ground (arith, (places.created p (at p) d e).0, self),
            not_among d p committed absent t.placed,
          ),
          tt,
        );
      }

  pub removed-Tracks :
      (start d : fs.Disk) (p : Text) (committed : List Text)
      → Tracks start [] d (p ∷ []) committed
      → Tracks start [] (fs.remove_file p d).1 [] committed
  removed-Tracks start d p committed t = record {
    origin = λ l k. ground (arith, places.removed p l d, k, t.origin l);
    placed = kept committed t.opened.0.1 t.placed;
    opened = tt;
  }
    where
      kept :
          (cs : List Text)
          → among cs (at p) ≡ false
          → All (λ c. holds d (at c) ≡ true) cs
          → All (λ c. holds (fs.remove_file p d).1 (at c) ≡ true) cs
      kept [] out h = tt
      kept (c ∷ cs) out h =
          let other = apart c p (ground (arith, out)) in
          (ground (arith, places.removed p (at c) d, other, h.0), kept cs (ground (arith, out)) h.1)

  among-append : (ps qs : List Text) (l : Place) → among (ps ++ qs) l ≡ (among ps l || among qs l)
  among-append [] qs l = refl
  among-append (p ∷ ps) qs l = ground (arith, among-append ps qs l)

  pub among-reverse : (ps : List Text) (l : Place) → among (reverse ps) l ≡ among ps l
  among-reverse [] l = refl
  among-reverse (p ∷ ps) l =
      ap (λ qs. among qs l) (reverse-append (p ∷ []) ps)
      ∙ among-append (reverse ps) (p ∷ []) l
      ∙ ground (arith, among-reverse ps l)

  pub renamed-Tracks :
      (start d : fs.Disk) (p q : Text) (committed : List Text)
      → (fs.rename p q d).0 ≡ ok tt
      → Tracks start [] d (p ∷ []) committed
      → Tracks start [] (fs.rename p q d).1 [] (committed ++ (q ∷ []))
  renamed-Tracks start d p q committed e t =
      let self = (places.eq.same_iff (at q) (at q)).1 refl in
      let there = t.opened.0.0 in
      record {
        origin = λ l k. ground (
          arith,
          places.renamed p q l d there e,
          k,
          t.origin l,
          among-append committed (q ∷ []) l,
        );
        placed = kept committed t.opened.0.1 t.placed;
        opened = tt;
      }
    where
      kept :
          (cs : List Text)
          → among cs (at p) ≡ false
          → All (λ c. holds d (at c) ≡ true) cs
          → All (λ c. holds (fs.rename p q d).1 (at c) ≡ true) (cs ++ (q ∷ []))
      kept [] out h =
          let self = (places.eq.same_iff (at q) (at q)).1 refl in
          (ground (arith, places.renamed p q (at q) d t.opened.0.0 e, self), tt)
      kept (c ∷ cs) out h =
          let other = apart c p (ground (arith, out)) in
          (
            ground (arith, places.renamed p q (at c) d t.opened.0.0 e, other, h.0),
            kept cs (ground (arith, out)) h.1,
          )

  -- The temporary file is given up where it is.
  pub lost-Tracks :
      (start d : fs.Disk) (p : Text) (committed : List Text)
      → Tracks start [] d (p ∷ []) committed
      → Tracks start (p ∷ []) d [] committed
  lost-Tracks start d p committed t = record {
    origin = λ l k. ground (arith, k, t.origin l);
    placed = t.placed;
    opened = tt;
  }

  pub remove_each-holds :
      (ps : List Text) (d : fs.Disk) (l : Place)
      → holds (remove_each fs ps d) l ≡ (if among ps l then false else holds d l)
  unfolding remove_each
  remove_each-holds [] d l = refl
  remove_each-holds (p ∷ ps) d l =
      let later = remove_each-holds ps (fs.remove_file p d).1 l in
      ground (arith, places.removed p l d, later)

  pub remove_temp-holds :
      (o : Option (IncomingFile fs)) (d : fs.Disk) (l : Place)
      → holds (remove_temp fs o d) l ≡ (if among (temp_of o) l then false else holds d l)
  unfolding remove_temp
  remove_temp-holds none d l = refl
  remove_temp-holds (some f) d l = ground (arith, places.removed f.temp l d)

  -- What an abandoned transfer leaves.
  pub drop-holds :
      (t : IncomingTransfer fs sha) (d : fs.Disk) (l : Place)
      → t.completed ≡ false
      → holds (drop fs sha t d) l ≡ (
          if among (temp_of t.active_file) l || among t.committed_targets l
          then false
          else holds d l)
  unfolding drop
  drop-holds t d l open_transfer =
      let last =
        remove_each-holds (reverse t.committed_targets) (remove_temp fs t.active_file d) l in
      ground (
        arith,
        open_transfer,
        last,
        among-reverse t.committed_targets l,
        remove_temp-holds t.active_file d l,
      )
