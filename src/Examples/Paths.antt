-- ===== src/Examples/Paths.antt =====
-- Requests and paths.
use agent_send.Base.{Text, text, [], ◌∷◌, ◌≡◌, refl, is_blank, text_eq}
use agent_send.Base.Map.{get}
use agent_send.Base.Result.{ok}
use agent_send.Core.Request.{
  TransferRequest, IsWellFormed, validate-iff-IsWellFormed, FolderDirection,
}
use agent_send.Core.Request
use agent_send.Core.Paths.{components, join, render, starts_with}
use agent_send.Core.Policy.{
  PathPolicy, read, write, resolve, locate, nearest_existing, ensure_beneath, validate_relative,
  check_direction,
}
use agent_send.Core.Policy.Relative.{IsConfined, validate_relative-iff-IsConfined}
use agent_send.Core.Policy.Confinement.{
  IsReadable, IsWritable, resolve-IsReadable, resolve-IsWritable,
}
use agent_send.Examples.World.{memory, disk}

abbrev order : TransferRequest
order = record {
  peer_id = text "desk";
  source_folder_id = text "notes";
  source_paths = text "note.txt" ∷ [];
  destination_folder_id = text "inbox";
  idempotency_key = text "k1";
}

order_accepted : Request.validate order ≡ ok tt
unfolding Request.validate is_blank
order_accepted = refl

abbrev policy : PathPolicy
policy = record { root = text "/in"; direction = FolderDirection.read_write }

accepted_path : validate_relative (text "note.txt") ≡ ok tt
unfolding validate_relative components
accepted_path = refl

validate_relative-iff-IsConfined_example : IsConfined (text "note.txt")
validate_relative-iff-IsConfined_example =
    (validate_relative-iff-IsConfined (text "note.txt")).0 accepted_path

abbrev note : Text
note = text "/in/note.txt"

found : resolve memory disk policy (text "note.txt") read ≡ ok note
unfolding resolve locate ensure_beneath validate_relative components starts_with join
    check_direction get text_eq render
found = refl

resolve-IsReadable_example : IsReadable memory disk policy (text "note.txt") note
resolve-IsReadable_example = resolve-IsReadable memory disk policy (text "note.txt") found

writable : resolve memory disk policy (text "a/new.txt") write ≡ ok (text "/in/a/new.txt")
unfolding resolve locate ensure_beneath validate_relative components starts_with join
    check_direction get text_eq nearest_existing render
writable = refl

resolve-IsWritable_example : IsWritable memory disk policy (text "a/new.txt") (text "/in/a/new.txt")
resolve-IsWritable_example = resolve-IsWritable memory disk policy (text "a/new.txt") writable
