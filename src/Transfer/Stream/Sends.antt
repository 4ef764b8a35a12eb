-- ===== src/Transfer/Stream/Sends.antt =====
-- What a stream that succeeds has sent.
use mathlib.Core.List.{append-nil, append_assoc}
use agent_send.Base.{
  ℕ, suc, Text, Bytes, List, [], ◌∷◌, ◌++◌, Bool, true, false, if◌then◌else◌, ◌≡◌, refl, sym, subst,
  ap, ◌∙◌, arith, is_empty, length, All, inl, inr, Bool-cases,
}
use agent_send.Base.Result.{Result, ok, err, map_err, ◌>>=◌}
use agent_send.Base.Exec.{Exec, pure, lift, ◌>>◌, >>-runs, >>=-runs}
use agent_send.Core.Os.{FileSystem, Reading, IoError}
use agent_send.Peer.Message.{
  PeerMessage, directory, file_start, file_chunk, file_complete, transfer_complete,
}
use agent_send.Transfer.Types.{FileItem, TransferError, TransferOutcome, add64, io}
use agent_send.Transfer.Outbound.{PreparedTransfer}
use agent_send.Transfer.Collect.{blocks}
use agent_send.Transfer.Stream.{
  Streaming, transmit, stop_if_cancelled, count_chunk, send_chunks, send_input, count_file,
  send_file, send_items, finish, stream,
}
use agent_send.Transfer.Stream.Script.{
  chunk_messages, add_lengths, contents, item_messages, item_bytes, item_files, items_bytes,
  items_files, IsRead, items_messages, script,
}

module _ {C E : Type 0} (send : PeerMessage → Exec C E Unit) (from : TransferError → E)
    (is_cancelled : ℕ → Bool) (log : C → List PeerMessage)
    (logs : (m : PeerMessage) (c : C)
      → (send m c).0 ≡ ok tt
      → log (send m c).1 ≡ log c ++ (m ∷ [])) where
  -- From one state to a later one, messages are sent and the counters reach the given values.
  pub record Sends (s t : Streaming C) (messages : List PeerMessage) (bytes files : ℕ)
      : Type 0 where
    sent : log t.connection ≡ log s.connection ++ messages
    bytes_then : t.bytes ≡ bytes
    files_then : t.files ≡ files

  transmit-Sends :
      (m : PeerMessage) (s : Streaming C)
      → (transmit send from is_cancelled m s).0 ≡ ok tt
      → Sends s (transmit send from is_cancelled m s).1 (m ∷ []) s.bytes s.files
  unfolding transmit
  transmit-Sends m s h = record {
    sent = logs m s.connection h;
    bytes_then = refl;
    files_then = refl;
  }

  then-Sends :
      {s t u : Streaming C} {ms ns : List PeerMessage} {b b' f f' : ℕ}
      → Sends s t ms b f
      → Sends t u ns b' f'
      → Sends s u (ms ++ ns) b' f'
  then-Sends {s} {ms = ms} {ns = ns} x y = record {
    sent = y.sent ∙ ap (λ l. l ++ ns) x.sent ∙ append_assoc (log s.connection) ms ns;
    bytes_then = y.bytes_then;
    files_then = y.files_then;
  }

  -- A test of the token that lets the stream go on.
  polled : Streaming C → Streaming C
  polled s = record s { polls = suc s.polls }

  stop-polled :
      (id : Text) (s : Streaming C) {u : Unit {0}}
      → (stop_if_cancelled send from is_cancelled id s).0 ≡ ok u
      → (stop_if_cancelled send from is_cancelled id s).1 ≡ polled s
  unfolding stop_if_cancelled polled
  stop-polled id s h = ground arith

  -- What follows the test starts in the same place, as far as the messages go.
  stop-runs :
      (id : Text) (k : Exec (Streaming C) E Unit) (s : Streaming C)
      → ((stop_if_cancelled send from is_cancelled id >> k) s).0 ≡ ok tt
      → (stop_if_cancelled send from is_cancelled id >> k) s ≡ k (polled s)
  stop-runs id k s h =
      let (u, e, run) = >>-runs (stop_if_cancelled send from is_cancelled id) k s h in
      run ∙ ap k (stop-polled id s e)

  polled-Sends :
      {s t : Streaming C} {ms : List PeerMessage} {b f : ℕ}
      → Sends (polled s) t ms b f
      → Sends s t ms b f
  unfolding polled
  polled-Sends x = record { sent = x.sent; bytes_then = x.bytes_then; files_then = x.files_then }

  -- The counters go on from where the first messages have left them.
  then_count-Sends :
      {s t u : Streaming C} {ms ns : List PeerMessage} {b f : ℕ} (more_bytes more_files : ℕ → ℕ)
      → Sends s t ms b f
      → Sends t u ns (more_bytes t.bytes) (more_files t.files)
      → Sends s u (ms ++ ns) (more_bytes b) (more_files f)
  then_count-Sends more_bytes more_files x y =
      let both = then-Sends x y in
      record {
        sent = both.sent;
        bytes_then = both.bytes_then ∙ ap more_bytes x.bytes_then;
        files_then = both.files_then ∙ ap more_files x.files_then;
      }

  module _ (p : PreparedTransfer) where
    record SendsChunks (input : List (Result IoError Bytes)) (offset : ℕ) (s t : Streaming C)
        : Type 0 where
      parts : List Bytes
      all : blocks input ≡ ok parts
      sends :
          Sends s t (chunk_messages p.transfer_id offset parts) (add_lengths s.bytes parts) s.files

    -- The state once a chunk is sent and counted.
    counted : Bytes → ℕ → Streaming C → Streaming C
    counted bytes offset s =
        (count_chunk send from is_cancelled p.total_bytes (length bytes)
          (transmit send from is_cancelled (file_chunk p.transfer_id offset bytes) (polled s)).1).1

    last-chunk :
        (bytes : Bytes) (rest : List (Result IoError Bytes)) (offset : ℕ) (s : Streaming C)
        → (send_chunks send from is_cancelled p (ok bytes ∷ rest) offset s).0 ≡ ok tt
        → is_empty bytes ≡ true
        → send_chunks send from is_cancelled p (ok bytes ∷ rest) offset s ≡ (ok tt, polled s)
    unfolding send_chunks
    last-chunk bytes rest offset s h e =
        let run = stop-runs p.transfer_id _ s h in ground (arith, run, e)

    next-chunk :
        (bytes : Bytes) (rest : List (Result IoError Bytes)) (offset : ℕ) (s : Streaming C)
        → (send_chunks send from is_cancelled p (ok bytes ∷ rest) offset s).0 ≡ ok tt
        → is_empty bytes ≡ false
        → ((transmit send from is_cancelled (file_chunk p.transfer_id offset bytes) (polled s)).0
            ≡ ok tt)
          × (send_chunks send from is_cancelled p (ok bytes ∷ rest) offset s
              ≡ send_chunks send from is_cancelled p rest
                  (add64 offset (length bytes))
                  (counted bytes offset s))
    unfolding send_chunks counted
    next-chunk bytes rest offset s h e =
        let m = file_chunk p.transfer_id offset bytes in
        let after : Exec (Streaming C) E Unit =
          count_chunk send from is_cancelled p.total_bytes (length bytes)
          >> send_chunks send from is_cancelled p rest (add64 offset (length bytes)) in
        let branch : send_chunks send from is_cancelled p (ok bytes ∷ rest) offset s
            ≡ (transmit send from is_cancelled m >> after) (polled s) =
          stop-runs p.transfer_id _ s h
          ∙ ap
              (λ b.
                (if b then pure tt else (transmit send from is_cancelled m >> after)) (polled s))
              e in
        let (u, ready, run) =
          >>-runs (transmit send from is_cancelled m) after (polled s)
            (ap (λ r. r.0) (sym branch) ∙ h) in
        (ready, branch ∙ run)

    chunks-Sends :
        (input : List (Result IoError Bytes)) (offset : ℕ) (s : Streaming C)
        → (send_chunks send from is_cancelled p input offset s).0 ≡ ok tt
        → SendsChunks input offset s (send_chunks send from is_cancelled p input offset s).1
    unfolding blocks chunk_messages add_lengths send_chunks polled counted
    chunks-Sends [] offset s h = rw (stop-polled p.transfer_id s h) (record {
      parts = [];
      all = refl;
      sends = record { sent = sym (append-nil _); bytes_then = refl; files_then = refl };
    })
    chunks-Sends (err e ∷ rest) offset s h =
        absurd (ground (arith, stop-runs p.transfer_id _ s h, h))
    chunks-Sends (ok bytes ∷ rest) offset s h = elim (Bool-cases (is_empty bytes)) [
      | inl e ↦ rw (last-chunk bytes rest offset s h e) (record {
        parts = [];
        all = ground (arith, e);
        sends = record { sent = sym (append-nil _); bytes_then = refl; files_then = refl };
      })
      | inr e ↦
          let (ready, run) = next-chunk bytes rest offset s h e in
          let first = transmit-Sends (file_chunk p.transfer_id offset bytes) (polled s) ready in
          let more =
            chunks-Sends rest (add64 offset (length bytes)) (counted bytes offset s)
              (ap (λ r. r.0) (sym run) ∙ h) in
          rw run (record {
            parts = bytes ∷ more.parts;
            all = ground (arith, e, more.all);
            sends =
                then-Sends (record { sent = first.sent; bytes_then = refl; files_then = refl })
                  more.sends;
          })
    ]

    abbrev InputSent : List Bytes → Streaming C → Streaming C → Type 0
    InputSent parts s t =
        Sends s t (chunk_messages p.transfer_id 0 parts ++ (file_complete p.transfer_id ∷ []))
          (add_lengths s.bytes parts) (add64 s.files 1)

    input-Sends :
        (input : List (Result IoError Bytes)) (parts : List Bytes) (s : Streaming C)
        → blocks input ≡ ok parts
        → (send_input send from is_cancelled p input s).0 ≡ ok tt
        → InputSent parts s (send_input send from is_cancelled p input s).1
    unfolding send_input
    input-Sends input parts s whole h =
        let (_, chunked, run) = >>-runs (send_chunks send from is_cancelled p input 0) _ s h in
        let first = chunks-Sends input 0 s chunked in
        let t = (send_chunks send from is_cancelled p input 0 s).1 in
        let (_, ready, run') =
          >>-runs (transmit send from is_cancelled (file_complete p.transfer_id))
            (count_file send from is_cancelled) t (ap (λ r. r.0) (sym run) ∙ h) in
        let last = transmit-Sends (file_complete p.transfer_id) t ready in
        let same : first.parts ≡ parts = ground (arith, first.all, whole) in
        let closing : Sends t
            (count_file send from is_cancelled
              (transmit send from is_cancelled (file_complete p.transfer_id) t).1).1
            (file_complete p.transfer_id ∷ []) (add_lengths s.bytes first.parts) (add64 s.files 1) =
          record {
            sent = last.sent;
            bytes_then = first.sends.bytes_then;
            files_then = ap (λ n. add64 n 1) first.sends.files_then;
          } in
        subst (λ r. InputSent parts s r.1) (sym (run ∙ run'))
          (subst
            (λ ps.
              InputSent ps s
                (count_file send from is_cancelled
                  (transmit send from is_cancelled (file_complete p.transfer_id) t).1).1)
            same (then-Sends first.sends closing))

    module _ (fs : FileSystem) (disk : Reading fs) (d : fs.Disk) where
      abbrev FileSent : FileItem → Streaming C → Streaming C → Type 0
      FileSent item s t =
          Sends s t
            (file_start p.transfer_id item.relative item.size
              ∷ (chunk_messages p.transfer_id 0 (contents fs disk d item)
                  ++ (file_complete p.transfer_id ∷ [])))
            (add_lengths s.bytes (contents fs disk d item)) (add64 s.files 1)

      file-Sends :
          (item : FileItem) (s : Streaming C)
          → (send_file send from is_cancelled p fs disk d item s).0 ≡ ok tt
          → IsRead fs disk d item
            × FileSent item s (send_file send from is_cancelled p fs disk d item s).1
      unfolding send_file send_input contents
      file-Sends item s h =
          let start = file_start p.transfer_id item.relative item.size in
          let t = (transmit send from is_cancelled start s).1 in
          let (_, ready, run) = >>-runs (transmit send from is_cancelled start) _ s h in
          let (input, found, run') =
            >>=-runs (lift (map_err (λ e. from (io e)) (disk.reads d item.source)))
              (send_input send from is_cancelled p) t (ap (λ r. r.0) (sym run) ∙ h) in
          let opens : disk.reads d item.source ≡ ok input = ground (arith, found) in
          let (_, chunked, run2) =
            >>-runs (send_chunks send from is_cancelled p input 0) _ t
              (ap (λ r. r.0) (sym (run ∙ run')) ∙ h) in
          let whole = (chunks-Sends input 0 t chunked).all in
          let held : (disk.reads d item.source >>= blocks) ≡ ok (contents fs disk d item) =
            ground (arith, opens, whole) in
          let same : blocks input ≡ ok (contents fs disk d item) = ground (arith, opens, whole) in
          let rest =
            input-Sends input (contents fs disk d item) t same
              (ap (λ r. r.0) (sym (run ∙ run')) ∙ h) in
          let first = transmit-Sends start s ready in
          (λ _. held, subst (λ r. FileSent item s r.1) (sym (run ∙ run')) (then-Sends first rest))

      -- Sending entries reads them all and sends their messages in order.
      record ItemsSent (items : List FileItem) (s t : Streaming C) : Type 0 where
        read_all : All (IsRead fs disk d) items
        sends :
            Sends s t
              (items_messages fs disk d p.transfer_id items)
              (items_bytes fs disk d s.bytes items)
              (items_files fs disk d s.files items)

      abbrev ItemSent : FileItem → Streaming C → Streaming C → Type 0
      ItemSent item s t =
          IsRead fs disk d item
          × Sends s t (item_messages fs disk d p.transfer_id item)
              (item_bytes fs disk d s.bytes item) (item_files fs disk d s.files item)

      abbrev send_one : FileItem → Exec (Streaming C) E Unit
      send_one item =
          if fs.is_dir d item.source
          then transmit send from is_cancelled (directory p.transfer_id item.relative)
          else send_file send from is_cancelled p fs disk d item

      item-Sends :
          (item : FileItem) (s : Streaming C)
          → (send_one item s).0 ≡ ok tt
          → ItemSent item s (send_one item s).1
      unfolding item_messages item_bytes item_files
      item-Sends item s h = elim (Bool-cases (fs.is_dir d item.source)) [
        | inl dir ↦ (
          λ other. absurd (ground (arith, dir, other)),
          rw dir (transmit-Sends (directory p.transfer_id item.relative) s (rw dir at h)),
        )
        | inr other ↦
            let (held, sends) = file-Sends item s (rw other at h) in (held, rw other sends)
      ]

      items-Sends :
          (items : List FileItem) (s : Streaming C)
          → (send_items send from is_cancelled p fs disk d items s).0 ≡ ok tt
          → ItemsSent items s (send_items send from is_cancelled p fs disk d items s).1
      unfolding send_items items_messages items_bytes items_files polled
      items-Sends [] s h = record {
        read_all = tt;
        sends = record { sent = sym (append-nil _); bytes_then = refl; files_then = refl };
      }
      items-Sends (item ∷ rest) s h =
          let run =
            stop-runs p.transfer_id
              (send_one item >> send_items send from is_cancelled p fs disk d rest) s h in
          let (_, one, run') =
            >>-runs (send_one item) (send_items send from is_cancelled p fs disk d rest) (polled s)
              (ap (λ r. r.0) (sym run) ∙ h) in
          let (held, first) = item-Sends item (polled s) one in
          let more =
            items-Sends rest (send_one item (polled s)).1 (ap (λ r. r.0) (sym (run ∙ run')) ∙ h) in
          subst (λ r. ItemsSent (item ∷ rest) s r.1) (sym (run ∙ run'))
            (record {
              read_all = (held, more.read_all);
              sends =
                  then_count-Sends (λ n. items_bytes fs disk d n rest)
                    (λ n. items_files fs disk d n rest) (polled-Sends first) more.sends;
            })

      -- What a stream that succeeds has done, from the connection it starts with.
      pub record IsStreamed (c : C) (o : TransferOutcome) (t : Streaming C) : Type 0 where
        pub sent : log t.connection ≡ log c ++ script fs disk d p
        pub bytes : o.bytes ≡ items_bytes fs disk d 0 p.items
        pub files : o.files ≡ items_files fs disk d 0 p.items
        pub sha256 : o.sha256 ≡ p.sha256
        pub read_all : All (IsRead fs disk d) p.items

      -- If every message that `send` accepts is added to the log of the connection, a stream that
      -- succeeds has sent exactly the script of the transfer: each entry in order, a file with its
      -- chunks at their offsets, and the end. It has read every file to its end, and its outcome holds
      -- the bytes and the files that it sent and the prepared hash.
      pub stream-IsStreamed :
          (c : C) {o : TransferOutcome}
          → (stream send from is_cancelled p fs disk d c).0 ≡ ok o
          → IsStreamed c o (stream send from is_cancelled p fs disk d c).1
      unfolding stream finish script
      stream-IsStreamed c {o} h =
          let s : Streaming C = record {
            connection = c;
            polls = 0;
            bytes = 0;
            files = 0;
            progress = [];
          } in
          let t = (send_items send from is_cancelled p fs disk d p.items s).1 in
          let last = transmit send from is_cancelled (transfer_complete p.transfer_id) in
          let (_, all, run) =
            >>-runs (send_items send from is_cancelled p fs disk d p.items)
              (last >> finish send from is_cancelled p fs disk d) s h in
          let (_, ready, run') =
            >>-runs last (finish send from is_cancelled p fs disk d) t
              (ap (λ r. r.0) (sym run) ∙ h) in
          let items = items-Sends p.items s all in
          let both =
            then-Sends items.sends (transmit-Sends (transfer_complete p.transfer_id) t ready) in
          let same : o ≡ record { bytes = t.bytes; files = t.files; sha256 = p.sha256 } =
            ground (arith, run, run', h) in
          record {
            sent = ap (λ r. log r.1.connection) (run ∙ run') ∙ both.sent;
            bytes = ap (λ o. o.bytes) same ∙ items.sends.bytes_then;
            files = ap (λ o. o.files) same ∙ items.sends.files_then;
            sha256 = ap (λ o. o.sha256) same;
            read_all = items.read_all;
          }
