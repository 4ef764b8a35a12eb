-- ===== src/Core/Request.antt =====
-- crates/agent-send-core/src/lib.rs: folder directions, transfer requests and their validation.
use agent_send.Base.{Text, List, [], false, ◌≡◌, ◌≢◌, ◌↔◌, arith, is_blank, is_empty}
use agent_send.Base.Result.{Result, ok, reject_if, ◌>>◌}

pub data FolderDirection : Type 0 where
  read write read_write : FolderDirection

pub record TransferRequest : Type 0 where
  pub peer_id : Text
  pub source_folder_id : Text
  pub source_paths : List Text
  pub destination_folder_id : Text
  pub idempotency_key : Text

pub data PolicyError : Type 0 where
  empty_sources missing_destination missing_idempotency_key : PolicyError

-- `TransferRequest::validate`
unfoldable pub validate : TransferRequest → Result PolicyError (Unit {0})
validate r = do
  reject_if (is_empty r.source_paths) empty_sources
  reject_if (is_blank r.destination_folder_id) missing_destination
  reject_if (is_blank r.idempotency_key) missing_idempotency_key
  ok tt

-- What a request must have before any file or socket is touched.
pub record IsWellFormed (r : TransferRequest) : Type 0 where
  pub sources : r.source_paths ≢ []
  pub destination : is_blank r.destination_folder_id ≡ false
  pub key : is_blank r.idempotency_key ≡ false

-- A request is accepted exactly when it is well formed.
pub validate-iff-IsWellFormed : (r : TransferRequest) → (validate r ≡ ok tt) ↔ IsWellFormed r
unfolding validate
validate-iff-IsWellFormed r = (
  λ h. record { sources = ground arith; destination = ground arith; key = ground arith },
  λ h. ground (arith, h.sources, h.destination, h.key),
)
