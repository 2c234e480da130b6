-- ===== src/Jobs/Transmit.antt =====
-- A turn of the transmission, when the queue has room for the chunk and its size, and when not.
use tx_queue.Base.{
  ℕ, ◌+◌, ◌-◌, ◌%◌, ◌^◌, ◌≤◌, ◌<◌, ◌≡◌, refl, ap, sym, ◌∙◌, true, false, List, ℤ, arith, length,
  drop, length-take, length-drop, min, dec_lt, ltb, if◌then◌else◌,
}
use tx_queue.Words.{add64}
use tx_queue.Memory.{Memory}
use tx_queue.Memory.Ring.{ring_put, ring_put-append}
use tx_queue.Queue.{BaseTxQueue, IsReady}
use tx_queue.Write.{TxWrite, Written, begin_write, is_valid, imp_write, end_write, refuse}
use tx_queue.Write.Laws.{
  IsWriting, Succeeds, imp_write-Succeeds, imp_write-Refused, imp_write-refuse,
}
use tx_queue.Jobs.{
  TransmitJob, TurnLoads, Turn, bytes_of_u64, frame, chunk_size, chunk, finish_turn, transmit_turn,
}

module _ {S : Type 0} where
  pub length-chunk :
      (job : TransmitJob S) (drawn : ℕ) → length (chunk job drawn) ≡ chunk_size job drawn
  unfolding chunk chunk_size
  length-chunk job drawn = omega (
    arith,
    length-take (min drawn (length job.src_data - job.total_data))
        (drop job.total_data job.src_data),
    length-drop job.total_data job.src_data,
  )

module _ {S : Type 0} (update : S → List ℕ → S) where
  module _ {q : BaseTxQueue} (ready : IsReady q) (loads : TurnLoads) (m : Memory) (core : ℤ)
      (job : TransmitJob S) (h g p : ℕ) (known : loads.head ≡ h % q.capacity) (later : h ≤ g)
      (bounded : g ≤ p) (room : p < h + q.capacity) (first : loads.size_loads.head ≡ g % q.capacity)
      (second : loads.data_loads.head ≡ g % q.capacity) where
    write_op : TxWrite
    write_op = begin_write q (p % q.capacity) loads.head

    valid : write_op.invalidated ≡ false
    unfolding write_op begin_write
    valid = ground (arith, ready.stored)

    stands : IsWriting q h p write_op
    unfolding write_op begin_write
    stands = record {
      same_storage = refl;
      same_capacity = refl;
      at_tail = refl;
      at_head = known;
      behind = omega arith;
      room = room;
    }

    abbrev pub size : ℕ
    size = chunk_size job loads.drawn

    abbrev pub bytes : List ℕ
    bytes = chunk job loads.drawn

    sized : Written
    sized = imp_write loads.size_loads m core write_op (bytes_of_u64 size)

    done : Written
    done = imp_write loads.data_loads sized.memory sized.producer_core sized.tx bytes

    abbrev pub result : Turn S
    result = transmit_turn update q loads m core (p % q.capacity) job

    finished : result ≡ finish_turn update loads.drawn (p % q.capacity) job done
    unfolding transmit_turn is_valid done sized write_op
    finished = ground (arith, valid)

    seen : ℕ
    seen = if ltb (p + 8) (h + q.capacity) then h else g

    size_written : p + 8 < g + q.capacity → Succeeds q seen p m (bytes_of_u64 size) sized
    unfolding seen sized bytes_of_u64
    size_written fits =
        imp_write-Succeeds ready loads.size_loads m core h g p write_op (bytes_of_u64 size) valid
          stands later bounded first fits

    data_written :
        p + 8 + length bytes < g + q.capacity
        → (known : ℕ) × Succeeds q known (p + 8) sized.memory bytes done
    unfolding done seen bytes_of_u64
    data_written fits =
        let w = size_written (omega arith) in
        (
          _,
          imp_write-Succeeds ready loads.data_loads sized.memory sized.producer_core seen g (p + 8)
              sized.tx bytes w.valid w.stands (ground arith) (omega arith) second fits,
        )

    invalid : g + q.capacity ≤ p + 8 + length bytes → done.tx.invalidated ≡ true
    unfolding done seen sized bytes_of_u64 refuse
    invalid full = elim (dec_lt (p + 8) (g + q.capacity)) [
      | yes fits ↦
          let w = size_written fits in
          (imp_write-Refused ready loads.data_loads sized.memory sized.producer_core seen g (p + 8)
            sized.tx bytes w.valid w.stands (ground arith) (omega arith) second full).invalid
      | no none ↦
          let r =
            imp_write-Refused ready loads.size_loads m core h g p write_op (bytes_of_u64 size) valid
              stands later bounded first (omega arith) in
          ap (λ t. t.tx.invalidated)
            (imp_write-refuse loads.data_loads sized.memory sized.producer_core sized.tx bytes
              r.invalid)
          ∙ r.invalid
    ]

    -- When the chunk and its size fit in front of the head that the loads of both writes return, and
    -- the count of all data fits 64 bits, a turn on a ready queue commits the size and the chunk, one
    -- behind the other, and counts and hashes the chunk.
    pub transmit_turn-commits :
        p + 8 + length bytes < g + q.capacity
        → job.total_data + length bytes < 2 ^ 64
        → (result.tail ≡ (p + 8 + length bytes) % q.capacity)
          × (result.memory ≡ ring_put q.storage q.capacity m p (frame bytes))
          × (result.job ≡ record job {
            hash = update job.hash bytes;
            total_data = job.total_data + length bytes;
          })
    unfolding finish_turn is_valid end_write bytes_of_u64
    transmit_turn-commits fits small =
        let first_write = size_written (omega arith) in
        let (known, w) = data_written fits in
        let counted : add64 job.total_data (chunk_size job loads.drawn)
            ≡ job.total_data + length bytes =
          omega (arith, length-chunk job loads.drawn) in
        let same : bytes_of_u64 size ≡ bytes_of_u64 (length bytes) =
          ap bytes_of_u64 (sym (length-chunk job loads.drawn)) in
        let memory : done.memory ≡ ring_put q.storage q.capacity m p (frame bytes) =
          w.stored
          ∙ ap (λ t. ring_put q.storage q.capacity t (p + 8) bytes)
              (first_write.stored ∙ ap (ring_put q.storage q.capacity m p) same)
          ∙ sym (ring_put-append q.storage q.capacity m p (bytes_of_u64 (length bytes)) bytes) in
        rw (finished, w.valid, counted) (w.stands.at_tail, memory, refl)

    -- When the chunk and its size do not both fit in front of that head, a turn on a ready queue
    -- commits nothing and counts an attempt: the tail and all else of the job are as before.
    pub transmit_turn-retries :
        g + q.capacity ≤ p + 8 + length bytes
        → (result.tail ≡ p % q.capacity)
          × (result.job ≡ record job { transaction_attempts = add64 job.transaction_attempts 1 })
    unfolding finish_turn is_valid end_write
    transmit_turn-retries full = rw (finished, invalid full) (refl, refl)
