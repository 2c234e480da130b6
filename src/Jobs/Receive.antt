-- ===== src/Jobs/Receive.antt =====
-- A turn of the reception, when the chunk of a turn of the transmission is there, and when not.
use tx_queue.Base.{
  ℕ, ◌+◌, ◌-◌, ◌%◌, ◌^◌, ◌≤◌, ◌<◌, ◌≡◌, refl, ap, ◌∙◌, false, List, ◌++◌, ℤ, arith, some, length,
  take, drop, length-take, take-append, length-append, replicate, length-replicate, none, ◌&&◌, leb,
  ltb, le→ltb, ◌==◌, if◌then◌else◌,
}
use tx_queue.Words.{add64}
use tx_queue.Memory.{Memory}
use tx_queue.Memory.Ring.{ring}
use tx_queue.Queue.{BaseTxQueue, IsReady}
use tx_queue.Read.{TxRead, ReadOut, begin_read, is_valid, imp_read, end_read}
use tx_queue.Read.Laws.{IsReading, Succeeds, imp_read-Succeeds}
use tx_queue.Channel.Invariant.{ring-take, ring-drop}
use tx_queue.Jobs.{
  ReceiveJob, ReadTurnLoads, frame, bytes_of_u64, u64_of_bytes, window, finish_read, receive_turn,
}

pub u64_of_bytes-bytes_of_u64 : (x : ℕ) → x < 2 ^ 64 → u64_of_bytes (bytes_of_u64 x) ≡ x
unfolding u64_of_bytes bytes_of_u64
u64_of_bytes-bytes_of_u64 x fits = omega arith

module _ {S : Type 0} (update : S → List ℕ → S) {q : BaseTxQueue} (ready : IsReady q)
    (loads : ReadTurnLoads) (m : Memory) (core : ℤ) (job : ReceiveJob S) (t g p : ℕ)
    (known : loads.tail ≡ t % q.capacity) (behind : p ≤ t) (later : t ≤ g)
    (bounded : g < p + q.capacity) (first : loads.size_loads.tail ≡ g % q.capacity)
    (second : loads.data_loads.tail ≡ g % q.capacity) where
  read_op : TxRead
  read_op = begin_read q (p % q.capacity) loads.tail

  valid : read_op.invalidated ≡ false
  unfolding read_op begin_read
  valid = ground (arith, ready.stored)

  stands : IsReading q t p read_op
  unfolding read_op begin_read
  stands = record {
    same_storage = refl;
    same_capacity = refl;
    at_head = refl;
    at_tail = known;
    behind = behind;
    within = omega arith;
  }

  sized : ReadOut
  sized = imp_read loads.size_loads m core read_op (replicate 8 0)

  seen : ℕ
  seen = if leb (p + 8) t then t else g

  size_read : p + 8 ≤ g → Succeeds q seen p m 8 sized
  unfolding sized seen
  size_read fits =
      imp_read-Succeeds ready loads.size_loads m core t g p read_op (replicate 8 0) valid stands
        later bounded first fits

  -- The second read, if the first gives the size `n`.
  done : (n : ℕ) → ReadOut
  done n = imp_read loads.data_loads m sized.consumer_core sized.tx (window n job.buffer)

  finished :
      (n : ℕ)
      → u64_of_bytes sized.buffer ≡ n
      → receive_turn update q loads m core (p % q.capacity) job ≡ (
          if is_valid (done n).tx && ltb (length job.buffer) n
          then none
          else some (finish_read update n (p % q.capacity) job (done n)))
  unfolding receive_turn is_valid done sized read_op
  finished n e = ground (arith, valid)

  module _ (bytes : List ℕ) (small : length bytes < 2 ^ 64)
      (stored : ring q.storage q.capacity m p (length (frame bytes)) ≡ frame bytes)
      (holds : length bytes ≤ length job.buffer) where
    size_stored : ring q.storage q.capacity m p 8 ≡ bytes_of_u64 (length bytes)
    unfolding bytes_of_u64
    size_stored =
        ring-take q.storage q.capacity m 8 p (bytes_of_u64 (length bytes) ++ bytes) (omega arith)
          stored

    chunk_stored : ring q.storage q.capacity m (p + 8) (length bytes) ≡ bytes
    unfolding bytes_of_u64
    chunk_stored =
        ring-drop q.storage q.capacity m 8 p (bytes_of_u64 (length bytes) ++ bytes) (omega arith)
          stored

    own : length (window (length bytes) job.buffer) ≡ length bytes
    own = omega (
      arith,
      length-append (take (length bytes) job.buffer)
          (replicate (length bytes - length job.buffer) 0),
      length-take (length bytes) job.buffer,
      length-replicate {A = ℕ} (length bytes - length job.buffer) 0,
    )

    size_got : p + 8 ≤ g → u64_of_bytes sized.buffer ≡ length bytes
    size_got fits =
        ap u64_of_bytes ((size_read fits).bytes ∙ size_stored)
        ∙ u64_of_bytes-bytes_of_u64 (length bytes) small

    data_read :
        p + 8 + length bytes ≤ g
        → (known : ℕ) × Succeeds q known
            (p + 8)
            m
            (length (window (length bytes) job.buffer))
            (done (length bytes))
    unfolding done seen
    data_read fits =
        let w = size_read (omega arith) in
        (
          _,
          imp_read-Succeeds ready loads.data_loads m sized.consumer_core seen g (p + 8) sized.tx
              (window (length bytes) job.buffer) w.valid w.stands (ground arith) (omega arith)
              second (omega (arith, own)),
        )

    -- When the size of a chunk and the chunk stand in the ring of a ready queue, in front of the tail
    -- that the loads of both reads return, the chunk fits the buffer and the count of all data 64
    -- bits, then a turn takes them both, commits, and counts and hashes the chunk; an empty chunk ends
    -- the loop instead.
    pub receive_turn-takes :
        p + 8 + length bytes ≤ g
        → job.total_data + length bytes < 2 ^ 64
        → (buffer : List ℕ) × (core' : ℤ) × (receive_turn update q loads m core (p % q.capacity) job
            ≡ some (record {
              job = if length bytes == 0 then record job { buffer = buffer } else record job {
                buffer = buffer;
                hash = update job.hash bytes;
                total_data = job.total_data + length bytes;
              };
              consumer_core = core';
              head = (p + 8 + length bytes) % q.capacity;
              quit = length bytes == 0;
            }))
    unfolding finish_read is_valid end_read
    receive_turn-takes fits room =
        let n = length bytes in
        let (known, w) = data_read fits in
        let got : (done n).buffer ≡ bytes =
          w.bytes ∙ ap (ring q.storage q.capacity m (p + 8)) own ∙ chunk_stored in
        let inside : ltb (length job.buffer) n ≡ false = le→ltb (length job.buffer) n holds in
        let counted : add64 job.total_data n ≡ job.total_data + n = omega arith in
        let at : (done n).tx.head ≡ (p + 8 + n) % q.capacity =
          w.stands.at_head ∙ ap (λ k. (p + 8 + k) % q.capacity) own in
        (
          (done n).buffer ++ drop n job.buffer,
          (done n).consumer_core,
          finished n (size_got (omega arith))
              ∙ rw (w.valid, w.ok, inside, got, take-append bytes (drop n job.buffer), counted, at)
                  refl,
        )
