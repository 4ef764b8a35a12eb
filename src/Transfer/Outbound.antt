-- ===== src/Transfer/Outbound.antt =====
-- The limits and the manifest of an outgoing transfer: `transfer_total_bytes`,
-- `enforce_transfer_limits` and `PreparedTransfer` of crates/agent-send-daemon/src/transfer.rs.
use agent_send.Base.{
  ℕ, suc, ◌+◌, ◌≤◌, ◌<◌, Text, List, [], ◌∷◌, Option, none, some, ◌≡◌, ◌↔◌, ◌∙◌, ap, arith, ltb,
  length, ◌||◌, if◌then◌else◌,
}
use agent_send.Base.Result.{Result, ok, ok_or, ◌>>=◌, ◌>>◌, reject_if, >>=-eq-ok}
use agent_send.Limits.{u64_mod, max_transfer_bytes, max_transfer_files}
use agent_send.Core.Os.{FileSystem}
use agent_send.Peer.Message.{PeerMessage, transfer_manifest}
use agent_send.Transfer.Types.{
  FileItem, TransferError, size_limit_exceeded, file_count_limit_exceeded,
}

-- `u64::checked_add`
abbrev pub checked_add : ℕ → ℕ → Option ℕ
checked_add a b = if ltb (a + b) u64_mod then some (a + b) else none

-- The `try_fold` of `transfer_total_bytes`
unfoldable pub add_sizes : ℕ → List FileItem → Result TransferError ℕ
add_sizes total [] = ok total
add_sizes total (item ∷ rest) = do
  next ← ok_or (checked_add total item.size) size_limit_exceeded
  add_sizes next rest

-- `transfer_total_bytes`
unfoldable pub transfer_total_bytes : List FileItem → Result TransferError ℕ
unfolding add_sizes
transfer_total_bytes items = add_sizes 0 items

module _ (fs : FileSystem) (d : fs.Disk) where
  -- `items.iter().filter(|item| item.source.is_file()).count()`
  unfoldable pub count_files : List FileItem → ℕ
  count_files [] = 0
  count_files (item ∷ rest) =
      let n = count_files rest in if fs.is_file d item.source then suc n else n

  -- `enforce_transfer_limits`
  unfoldable pub enforce_transfer_limits : List FileItem → ℕ → Result TransferError (Unit {0})
  enforce_transfer_limits items total_bytes = do
    reject_if (ltb max_transfer_bytes total_bytes) size_limit_exceeded
    reject_if (ltb max_transfer_files (length items) || ltb max_transfer_files (count_files items))
        file_count_limit_exceeded
    ok tt

  -- The two checks of `prepare_outbound`, one after the other.
  unfoldable pub measure : List FileItem → Result TransferError ℕ
  unfolding enforce_transfer_limits
  measure items = do
    total ← transfer_total_bytes items
    enforce_transfer_limits items total
    ok total

pub record PreparedTransfer : Type 0 where
  pub transfer_id : Text
  pub destination_folder_id : Text
  pub idempotency_key : Text
  pub total_bytes : ℕ
  pub sha256 : Text
  pub items : List FileItem

-- `PreparedTransfer::manifest`
unfoldable pub manifest : PreparedTransfer → PeerMessage
manifest p =
    transfer_manifest p.transfer_id p.destination_folder_id p.idempotency_key p.total_bytes p.sha256

-- The sum of the sizes, which no integer bounds.
pub sizes : List FileItem → ℕ
sizes [] = 0
sizes (item ∷ rest) = item.size + sizes rest

add_sizes-sum :
    (total : ℕ) (items : List FileItem) {n : ℕ}
    → add_sizes total items ≡ ok n
    → n ≡ total + sizes items
unfolding add_sizes sizes
add_sizes-sum total [] h = ground arith
add_sizes-sum total (item ∷ rest) h =
    let (next, e, h') = >>=-eq-ok (ok_or (checked_add total item.size) size_limit_exceeded) _ h in
    let sum : next ≡ total + item.size = ground arith in
    omega (arith, add_sizes-sum next rest h', sum)

add_sizes-ok :
    (total : ℕ) (items : List FileItem)
    → total + sizes items < u64_mod
    → add_sizes total items ≡ ok (total + sizes items)
unfolding add_sizes sizes
add_sizes-ok total [] h = ground arith
add_sizes-ok total (item ∷ rest) h =
    ground (arith, add_sizes-ok (total + item.size) rest (omega (arith, h)))

-- What the checks of an outgoing transfer let through.
pub record IsMeasured (items : List FileItem) (n : ℕ) : Type 0 where
  pub sum : n ≡ sizes items
  pub bytes : sizes items ≤ max_transfer_bytes
  pub entries : length items ≤ max_transfer_files

module _ (fs : FileSystem) (d : fs.Disk) where
  count_files-length : (items : List FileItem) → count_files fs d items ≤ length items
  unfolding count_files
  count_files-length [] = omega arith
  count_files-length (item ∷ rest) = ground (arith, count_files-length rest)

  measured : (items : List FileItem) (n : ℕ) → measure fs d items ≡ ok n → IsMeasured items n
  unfolding measure transfer_total_bytes
  measured items n h =
      let (total, e, h') = >>=-eq-ok (add_sizes 0 items) _ h in
      let sum = add_sizes-sum 0 items e in
      let same : n ≡ total = ground arith in
      record {
        sum = omega (arith, same, sum);
        bytes = let small : total ≤ max_transfer_bytes = ground arith in omega (arith, small, sum);
        entries = ground arith;
      }

  passes : (items : List FileItem) (n : ℕ) → IsMeasured items n → measure fs d items ≡ ok n
  unfolding measure transfer_total_bytes
  passes items n m =
      let fewer = count_files-length items in
      let same : 0 + sizes items ≡ n = omega (arith, m.sum) in
      let total : add_sizes 0 items ≡ ok n =
        add_sizes-ok 0 items (omega (arith, m.bytes)) ∙ ap ok same in
      ground (arith, total, m.sum, m.bytes, m.entries)

  -- The checks of an outgoing transfer pass with a total exactly when it is the sum of the sizes,
  -- that sum is at most the greatest number of bytes, and there are no more entries than the limit.
  pub measure-iff-IsMeasured :
      (items : List FileItem) (n : ℕ) → (measure fs d items ≡ ok n) ↔ IsMeasured items n
  measure-iff-IsMeasured items n = (measured items n, passes items n)
