-- ===== src/Channel/Progress.antt =====
-- When an operation succeeds, and what a whole exchange delivers.
use tx_queue.Base.{
  ℕ, ◌+◌, ◌-◌, ◌%◌, ◌≤◌, ◌<◌, ◌≡◌, ap, ◌∙◌, inl, inr, ◌↔◌, true, false, List, ◌++◌, some, arith,
  length, dec_lt, dec_le,
}
use tx_queue.Memory.{Memory}
use tx_queue.Memory.Ring.{length-ring}
use tx_queue.Queue.{BaseTxQueue, IsReady}
use tx_queue.Write.{TxWrite, WriteLoads, imp_write}
use tx_queue.Write.Laws.{IsWriting, imp_write-Succeeds, imp_write-Refused}
use tx_queue.Read.{TxRead, ReadLoads, imp_read}
use tx_queue.Read.Laws.{IsReading, imp_read-Succeeds, imp_read-Refused}
use tx_queue.Channel.{System, HeadLoad, TailLoad, did_read, Reach}
use tx_queue.Channel.Invariant.{Inv}
use tx_queue.Channel.WriteSteps
use tx_queue.Channel.WriteCalls.{write_cases, known_bounds}
use tx_queue.Channel.ReadSteps
use tx_queue.Channel.ReadCalls.{read_cases, did_read-Inv}
use tx_queue.Channel.Safety.{Reach-Inv}

-- A write of a valid open transaction, in any reachable state, whose load of the head returns the
-- head of the status words, succeeds exactly when the bytes sent and not yet received, the pending
-- ones and its own are together fewer than the capacity.
pub write-ok_iff :
    {q : BaseTxQueue} {m : Memory} {s : System} {tx : TxWrite}
    → IsReady q
    → Reach q m s
    → s.writer ≡ some tx
    → tx.invalidated ≡ false
    → (loads : WriteLoads) (buffer : List ℕ) → loads.head ≡ s.status.head
    → ((imp_write loads s.memory s.status.producer_core tx buffer).ok ≡ true)
      ↔ (length s.sent - length s.received + length s.pending + length buffer < q.capacity)
write-ok_iff {q} {s = s} {tx = tx} ready r open_tx good loads buffer fresh =
    elim (dec_lt (p + length buffer) (length s.received + q.capacity)) [
      | yes fits ↦ (
        λ _. omega (arith, counts),
        λ _.
            (imp_write-Succeeds ready loads s.memory s.status.producer_core s.head_seen
              (length s.received) p tx buffer good at counts.head_known below loaded fits).ok,
      )
      | no full ↦
          let f =
            imp_write-Refused ready loads s.memory s.status.producer_core s.head_seen
              (length s.received) p tx buffer good at counts.head_known below loaded
              (omega arith) in
          (λ ok. absurd (cc (ok, f.ok)), λ fits. absurd (omega (arith, counts)))
    ]
  where
    open (Reach-Inv ready r) use {counts, head_at}

    p : ℕ
    p = length s.sent + length s.pending

    at : IsWriting q s.head_seen p tx
    at = WriteSteps.stands ready (Reach-Inv ready r) tx open_tx good

    below : length s.received ≤ p
    below = omega (arith, counts)

    loaded : loads.head ≡ length s.received % q.capacity
    loaded = fresh ∙ head_at

-- A write of as many bytes as the capacity, or more, never succeeds: in any reachable state,
-- whatever its loads return.
pub write_oversized :
    {q : BaseTxQueue} {m : Memory} {s : System} {tx : TxWrite}
    → IsReady q
    → Reach q m s
    → s.writer ≡ some tx
    → (loads : WriteLoads) (seen : ℕ) (buffer : List ℕ) → HeadLoad s seen
    → loads.head ≡ seen % q.capacity
    → q.capacity ≤ length buffer
    → (imp_write loads s.memory s.status.producer_core tx buffer).ok ≡ false
write_oversized {q} {s = s} {tx = tx} ready r open_tx loads seen buffer load loaded large =
    elim (write_cases ready inv tx loads seen buffer open_tx load loaded) [
      | inl done ↦ absurd (
          omega (
            arith,
            done.stands,
            inv.counts,
            known_bounds ready inv tx loads seen buffer open_tx load loaded,
          ))
      | inr no_write ↦ no_write.failed
    ]
  where
    inv : Inv q s
    inv = Reach-Inv ready r

-- A read of a valid open transaction, in any reachable state, whose load of the tail returns the
-- tail of the status words, succeeds exactly when as many bytes are sent and neither received nor
-- taken.
pub read-ok_iff :
    {q : BaseTxQueue} {m : Memory} {s : System} {tx : TxRead}
    → IsReady q
    → Reach q m s
    → s.reader ≡ some tx
    → tx.invalidated ≡ false
    → (loads : ReadLoads) (buffer : List ℕ) → loads.tail ≡ s.status.tail
    → ((imp_read loads s.memory s.status.consumer_core tx buffer).ok ≡ true)
      ↔ (length s.received + length s.taken + length buffer ≤ length s.sent)
read-ok_iff {q} {s = s} {tx = tx} ready r open_tx good loads buffer fresh =
    elim (dec_le (p + length buffer) (length s.sent)) [
      | yes fits ↦ (
        λ _. fits,
        λ _.
            (imp_read-Succeeds ready loads s.memory s.status.consumer_core s.tail_seen
              (length s.sent) p tx buffer good at counts.tail_known below loaded fits).ok,
      )
      | no short ↦
          let f =
            imp_read-Refused ready loads s.memory s.status.consumer_core s.tail_seen (length s.sent)
              p tx buffer good at counts.tail_known below loaded (omega arith) in
          (λ ok. absurd (cc (ok, f.ok)), λ fits. absurd (short fits))
    ]
  where
    open (Reach-Inv ready r) use {counts, tail_at}

    p : ℕ
    p = length s.received + length s.taken

    at : IsReading q s.tail_seen p tx
    at = ReadSteps.stands ready (Reach-Inv ready r) tx open_tx good

    below : length s.sent < p + q.capacity
    below = omega (arith, counts)

    loaded : loads.tail ≡ length s.sent % q.capacity
    loaded = fresh ∙ tail_at

-- A read that succeeds, in any reachable state and whatever it loads, fills the buffer with the
-- bytes that were sent next behind those received and taken.
pub read_gives_next :
    {q : BaseTxQueue} {m : Memory} {s : System} {tx : TxRead}
    → IsReady q
    → Reach q m s
    → s.reader ≡ some tx
    → (loads : ReadLoads) (seen : ℕ) (buffer : List ℕ) → TailLoad s seen
    → loads.tail ≡ seen % q.capacity
    → (imp_read loads s.memory s.status.consumer_core tx buffer).ok ≡ true
    → let out = imp_read loads s.memory s.status.consumer_core tx buffer in
      (rest : List ℕ) × (s.sent ≡ s.received ++ ((s.taken ++ out.buffer) ++ rest))
      × (length out.buffer ≡ length buffer)
read_gives_next {q} {s = s} {tx = tx} ready r open_tx loads seen buffer load loaded ok =
    elim (read_cases ready inv tx loads seen buffer open_tx load loaded) [
      | inl done ↦ (
        after.contents.left,
        rw ok at (after.contents.split),
        ap length done.bytes
            ∙ length-ring q.storage q.capacity s.memory (length s.received + length s.taken)
                (length buffer),
      )
      | inr no_read ↦ absurd (cc (ok, no_read.failed))
    ]
  where
    inv : Inv q s
    inv = Reach-Inv ready r

    after : Inv q (did_read q s tx loads seen buffer)
    after = did_read-Inv ready inv tx loads seen buffer open_tx load loaded
