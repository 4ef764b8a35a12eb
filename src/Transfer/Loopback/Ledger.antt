-- ===== src/Transfer/Loopback/Ledger.antt =====
-- What a transfer between two engines of one process records.
use agent_send.Base.{
  ℕ, suc, Text, Bytes, List, [], ◌∷◌, Bool, Option, none, some, ◌≡◌, ◌⊎◌, inl, inr, refl, ap, arith,
  Option-cases,
}
use agent_send.Base.Result.{Result, ok, err, Result-cases}
use agent_send.Base.Exec.{continue}
use agent_send.Base.Map.{Map, get, insert}
use agent_send.Core.Os.{FileSystem, Reading, Sha256, IoError}
use agent_send.Core.Policy.{PathPolicy, write, resolve}
use agent_send.Core.Request.{TransferRequest, validate}
use agent_send.Transfer.Engine.{folder}
use agent_send.Transfer.Outbound.{measure}
use agent_send.Transfer.Collect.{collect_paths}
use agent_send.Hex.{hex}
use agent_send.Transfer.Types.{TransferEngine, TransferOutcome, FileItem, TransferError}
use agent_send.Transfer.Loopback.{
  Copying, copy_blocks, copy_file, remove_if_failed, create_parent, copy_or_remove, receive_file,
  receive_directory, receive_item, receive_items, enter_outcome, receive_new, receive,
}

module _ (fs : FileSystem) (disk : Reading fs) (sha : Sha256) (is_cancelled : ℕ → Bool) where
  abbrev State : Type 0
  State = Copying fs disk sha is_cancelled

  copy_blocks-keeps :
      (output : fs.Handle) (total : ℕ) (input : List (Result IoError Bytes)) (s : State)
      → (copy_blocks fs disk sha is_cancelled output total input s).1.done ≡ s.done
  unfolding copy_blocks
  copy_blocks-keeps output total [] s = ground arith
  copy_blocks-keeps output total (err e ∷ rest) s = ground arith
  copy_blocks-keeps output total (ok bytes ∷ rest) s =
      grind (arith, copy_blocks-keeps output total rest)

  copy_file-keeps :
      (source temp : Text) (total : ℕ) (s : State)
      → (copy_file fs disk sha is_cancelled source temp total s).1.done ≡ s.done
  unfolding copy_file
  copy_file-keeps source temp total s = grind (arith, copy_blocks-keeps)

  copy_or_remove-keeps :
      (source temp : Text) (total : ℕ) (s : State)
      → (copy_or_remove fs disk sha is_cancelled source temp total s).1.done ≡ s.done
  unfolding copy_or_remove remove_if_failed
  copy_or_remove-keeps source temp total s = ground (arith, copy_file-keeps source temp total s)

  create_parent-keeps :
      (above : Option Text) (s : State)
      → (create_parent fs disk sha is_cancelled above s).1.done ≡ s.done
  unfolding create_parent
  create_parent-keeps none s = refl
  create_parent-keeps (some above) s = refl

  receive_file-keeps :
      (source target : Text) (total : ℕ) (s : State)
      → (receive_file fs disk sha is_cancelled source target total s).1.done ≡ s.done
  unfolding receive_file
  receive_file-keeps source target total s =
      grind (arith, create_parent-keeps, copy_or_remove-keeps)

  receive_directory-keeps :
      (target : Text) (s : State)
      → (receive_directory fs disk sha is_cancelled target s).1.done ≡ s.done
  unfolding receive_directory
  receive_directory-keeps target s = ground arith

  receive_item-keeps :
      (destination : PathPolicy) (total : ℕ) (item : FileItem) (s : State)
      → (receive_item fs disk sha is_cancelled destination total item s).1.done ≡ s.done
  unfolding receive_item
  receive_item-keeps destination total item s =
      let t : State = record s { polls = suc s.polls } in
      elim (Result-cases (resolve fs s.disk_now destination item.relative write)) [
        | inr (x, e) ↦ ground (arith, e)
        | inl (target, e) ↦ ground (
          arith,
          e,
          receive_directory-keeps target t,
          receive_file-keeps item.source target total t,
        )
      ]

  receive_items-keeps :
      (destination : PathPolicy) (total : ℕ) (items : List FileItem) (s : State)
      → (receive_items fs disk sha is_cancelled destination total items s).1.done ≡ s.done
  unfolding receive_items
  receive_items-keeps destination total [] s = refl
  receive_items-keeps destination total (item ∷ rest) s =
      grind (
        arith,
        receive_item-keeps destination total item,
        receive_items-keeps destination total rest,
      )

  -- What a call of `receive` may have done to the map.
  abbrev pub Recorded :
      Text
      → Result (Option TransferError) TransferOutcome
      → (before after : Map TransferOutcome) → Type 0
  Recorded key (ok o) before after =
      ((get before key ≡ some o) × (after ≡ before)) ⊎ (after ≡ insert before key o)
  Recorded key (err e) before after = after ≡ before

  entered-Recorded :
      (key : Text) (s : State) (r : Result (Option TransferError) (Unit {0})) (t : State)
      → t.done ≡ s.done
      → Recorded key
          (continue {B = TransferOutcome} r (λ _. enter_outcome fs disk sha is_cancelled key) t).0
          s.done
          (continue {B = TransferOutcome} r
            (λ _. enter_outcome fs disk sha is_cancelled key)
            t).1.done
  unfolding enter_outcome
  entered-Recorded key s (ok u) t h = inr (
      ap
        (λ m.
          insert m key
            (record { bytes = t.bytes; files = t.files; sha256 = hex (sha.finalize t.hash) }))
        h)
  entered-Recorded key s (err e) t h = h

  receive_new-Recorded :
      (n : ℕ) (receiver : TransferEngine) (r : TransferRequest) (source : PathPolicy) (s : State)
      → Recorded r.idempotency_key
          (receive_new fs disk sha is_cancelled n receiver r source s).0
          s.done
          (receive_new fs disk sha is_cancelled n receiver r source s).1.done
  unfolding receive_new
  receive_new-Recorded n receiver r source s =
      elim (Result-cases (folder receiver r.destination_folder_id)) [
        | inr (x, e) ↦ rw e refl
        | inl (destination, e) ↦
            elim (Result-cases (collect_paths fs disk s.disk_now source n r.source_paths [])) [
              | inr (x, e') ↦ rw e (rw e' refl)
              | inl (items, e') ↦ elim (Result-cases (measure fs s.disk_now items)) [
                | inr (x, e2) ↦ rw e (rw e' (rw e2 refl))
                | inl (total, e2) ↦ rw e (
                    rw e' (
                      rw e2 (
                        entered-Recorded r.idempotency_key s _ _
                          (receive_items-keeps destination total items s))))
              ]
            ]
      ]

  -- A transfer between two engines that fails, at whatever step, leaves the map of completed
  -- transfers as it was. One that succeeds returns the outcome that was recorded under its key before
  -- and changes nothing, or records its own outcome under its key.
  pub receive-Recorded :
      (n : ℕ) (receiver : TransferEngine) (r : TransferRequest) (source : PathPolicy) (s : State)
      → Recorded r.idempotency_key
          (receive fs disk sha is_cancelled n receiver r source s).0
          s.done
          (receive fs disk sha is_cancelled n receiver r source s).1.done
  unfolding receive
  receive-Recorded n receiver r source s = elim (Result-cases (validate r)) [
    | inr (x, e) ↦ rw e refl
    | inl (u, e) ↦ elim (Option-cases (get s.done r.idempotency_key)) [
      | inr (o, found) ↦ rw e (rw found (inl (found, refl)))
      | inl new ↦ rw e (rw new (receive_new-Recorded n receiver r source s))
    ]
  ]
