-- ===== src/Channel/Delivery.antt =====
-- What a whole transaction of each side does: it can always be run, and it delivers.
use tx_queue.Base.{
  ℕ, ◌+◌, ◌-◌, ◌%◌, ◌<◌, ◌≡◌, refl, sym, ap, ◌∙◌, true, false, List, [], ◌++◌, none, some, arith,
  length, pos, minus_one, append-nil, inl, inr, replicate, length-replicate, length-append,
  nil_of_length,
}
use native.Mathlib.Nat.{le_refl}
use tx_queue.Memory.{Memory}
use tx_queue.Queue.{BaseTxQueue, IsReady}
use tx_queue.Write.{TxWrite, WriteLoads, Written, begin_write, imp_write}
use tx_queue.Read.{TxRead, ReadLoads, ReadOut, begin_read, imp_read}
use tx_queue.Channel.{
  System, HeadLoad, TailLoad, Reach, next, open_write, write, close_write, open_read, opened_write,
  wrote, closed_write, opened_read, did_read, closed_read,
}
use tx_queue.Channel.WriteCalls.{write_cases}
use tx_queue.Channel.ReadCalls.{read_cases}
use tx_queue.Channel.Safety.{Reach-Inv, Reach-committed}
use tx_queue.Channel.Progress.{write-ok_iff, read-ok_iff, read_gives_next}

-- A write transaction from `s` on: it is opened, one call writes the bytes `buffer`, and it is closed.
pub data WriteTransaction (q : BaseTxQueue) (s : System) (buffer : List ℕ) : System → Type 0 where
  one_write :
      (seen again : ℕ) (loads : WriteLoads) (tx tx' : TxWrite)
      → s.writer ≡ none
      → HeadLoad s seen
      → (opened_write q s seen).writer ≡ some tx
      → HeadLoad (opened_write q s seen) again
      → loads.head ≡ again % q.capacity
      → (wrote q (opened_write q s seen) tx loads again buffer).writer ≡ some tx'
      → WriteTransaction q s buffer
          (closed_write q (wrote q (opened_write q s seen) tx loads again buffer) tx')

-- A read transaction from `s` on: it is opened, one call reads into `buffer`, and it is closed.
pub data ReadTransaction (q : BaseTxQueue) (s : System) (buffer : List ℕ) : System → Type 0 where
  one_read :
      (seen again : ℕ) (loads : ReadLoads) (tx tx' : TxRead)
      → s.reader ≡ none
      → TailLoad s seen
      → (opened_read q s seen).reader ≡ some tx
      → TailLoad (opened_read q s seen) again
      → loads.tail ≡ again % q.capacity
      → (did_read q (opened_read q s seen) tx loads again buffer).reader ≡ some tx'
      → ReadTransaction q s buffer
          (closed_read q (did_read q (opened_read q s seen) tx loads again buffer) tx')

WriteTransaction-Reach :
    {q : BaseTxQueue} {m : Memory} {s : System} {buffer : List ℕ} {t : System}
    → Reach q m s
    → WriteTransaction q s buffer t
    → Reach q m t
WriteTransaction-Reach r (one_write seen again loads tx tx' closed load opens load' loaded writes) =
    next (next (next r (open_write seen closed load)) (write tx loads again _ opens load' loaded))
      (close_write tx' writes)

-- A state that `s` comes to by a write transaction of the bytes `buffer`.
pub record Sent (q : BaseTxQueue) (s : System) (buffer : List ℕ) : Type 0 where
  pub after : System
  pub transaction : WriteTransaction q s buffer after
  pub sent : after.sent ≡ s.sent ++ buffer
  pub writer : after.writer ≡ none
  pub same_received : after.received ≡ s.received
  pub same_reader : after.reader ≡ s.reader

-- A state that `s` comes to by a read transaction of all that was sent.
pub record Received (q : BaseTxQueue) (s : System) : Type 0 where
  pub after : System
  pub buffer : List ℕ
  pub transaction : ReadTransaction q s buffer after
  pub received : after.received ≡ s.sent
  pub reader : after.reader ≡ none
  pub same_sent : after.sent ≡ s.sent
  pub same_writer : after.writer ≡ s.writer

module _ {q : BaseTxQueue} {m : Memory} (ready : IsReady q) {s : System} (r : Reach q m s) where
  -- When no write transaction is open and the bytes fit beside those not yet received, a write
  -- transaction can be opened, written and closed, and has then sent them.
  pub can_send :
      (buffer : List ℕ)
      → s.writer ≡ none
      → length s.sent - length s.received + length buffer < q.capacity
      → Sent q s buffer
  can_send buffer closed fits = record {
    after = s3;
    transaction =
        one_write seen seen loads tx result.tx closed load refl again (Reach-Inv ready r).head_at
          refl;
    sent = rw (valid, ok) refl;
    writer = refl;
    same_received = refl;
    same_reader = refl;
  }
    where
      seen : ℕ
      seen = length s.received

      s1 : System
      s1 = opened_write q s seen

      load : HeadLoad s seen
      load = record {
        was_stored = (Reach-committed r).0;
        not_older = (Reach-Inv ready r).counts.head_known;
      }

      r1 : Reach q m s1
      r1 = next r (open_write seen closed load)

      tx : TxWrite
      tx = begin_write q s.status.tail (seen % q.capacity)

      loads : WriteLoads
      loads = record { head = s.status.head; consumer_core = minus_one; current_core = pos 0 }

      again : HeadLoad s1 seen
      again = record { was_stored = (Reach-committed r).0; not_older = le_refl seen }

      result : Written
      result = imp_write loads s.memory s.status.producer_core tx buffer

      s3 : System
      s3 = closed_write q (wrote q s1 tx loads seen buffer) result.tx

      good : tx.invalidated ≡ false
      good = unfold begin_write in ground (arith, ready.stored)

      ok : result.ok ≡ true
      ok = (write-ok_iff ready r1 refl good loads buffer refl).1 (omega arith)

      valid : result.tx.invalidated ≡ false
      valid =
          elim (write_cases ready (Reach-Inv ready r1) tx loads seen buffer refl again
            (Reach-Inv ready r).head_at) [
              | inl done ↦ done.valid
              | inr no_write ↦ absurd (cc (ok, no_write.failed))
            ]

  -- When no read transaction is open, one can be opened, read and closed, and then all that was
  -- sent is received.
  pub can_receive : s.reader ≡ none → Received q s
  can_receive closed = record {
    after = s3;
    buffer = buffer;
    transaction = one_read seen seen loads tx result.tx closed load refl again tail_at refl;
    received = rw (valid, ok) whole;
    reader = refl;
    same_sent = refl;
    same_writer = refl;
  }
    where
      open (Reach-Inv ready r) use {counts, tail_at}

      n : ℕ
      n = length s.sent - length s.received

      buffer : List ℕ
      buffer = replicate n 0

      seen : ℕ
      seen = length s.sent

      s1 : System
      s1 = opened_read q s seen

      load : TailLoad s seen
      load = record { was_stored = (Reach-committed r).1; not_older = counts.tail_known }

      r1 : Reach q m s1
      r1 = next r (open_read seen closed load)

      tx : TxRead
      tx = begin_read q s.status.head (seen % q.capacity)

      loads : ReadLoads
      loads = record { tail = s.status.tail; producer_core = minus_one; current_core = pos 0 }

      again : TailLoad s1 seen
      again = record { was_stored = (Reach-committed r).1; not_older = le_refl seen }

      result : ReadOut
      result = imp_read loads s.memory s.status.consumer_core tx buffer

      s3 : System
      s3 = closed_read q (did_read q s1 tx loads seen buffer) result.tx

      good : tx.invalidated ≡ false
      good = unfold begin_read in ground (arith, ready.stored)

      ok : result.ok ≡ true
      ok =
          (read-ok_iff ready r1 refl good loads buffer refl).1
            (omega (arith, length-replicate {A = ℕ} n 0, counts))

      valid : result.tx.invalidated ≡ false
      valid = elim (read_cases ready (Reach-Inv ready r1) tx loads seen buffer refl again tail_at) [
        | inl done ↦ done.valid
        | inr no_read ↦ absurd (cc (ok, no_read.failed))
      ]

      whole : s.received ++ result.buffer ≡ s.sent
      whole =
          let (rest, split, size) =
            read_gives_next ready r1 refl loads seen buffer again tail_at ok in
          let none_left : rest ≡ [] = nil_of_length rest (
            omega (
              arith,
              ap length split,
              size,
              length-replicate {A = ℕ} n 0,
              length-append s.received (result.buffer ++ rest),
              length-append result.buffer rest,
              counts,
            )) in
          ap (λ t. s.received ++ t)
            (sym (append-nil result.buffer) ∙ ap (λ t. result.buffer ++ t) (sym none_left))
          ∙ sym split

-- From any reachable state with no transaction open, bytes that fit beside those not yet received
-- are sent by one write transaction of one call, and one read transaction of one call behind it
-- receives all that was sent, these bytes last.
pub can_deliver :
    {q : BaseTxQueue} {m : Memory} {s : System}
    → IsReady q
    → Reach q m s
    → s.writer ≡ none
    → s.reader ≡ none
    → (buffer : List ℕ) → length s.sent - length s.received + length buffer < q.capacity
    → (between : System) × (t : System) × (into : List ℕ) × WriteTransaction q s buffer between
      × ReadTransaction q between into t
      × (t.sent ≡ s.sent ++ buffer)
      × (t.received ≡ s.sent ++ buffer)
      × (t.writer ≡ none)
      × (t.reader ≡ none)
can_deliver {q} {m} {s} ready r no_writer no_reader buffer fits = (
  out.after,
  back.after,
  back.buffer,
  out.transaction,
  back.transaction,
  back.same_sent ∙ out.sent,
  back.received ∙ out.sent,
  back.same_writer ∙ out.writer,
  back.reader,
)
  where
    out : Sent q s buffer
    out = can_send ready r buffer no_writer fits

    back : Received q out.after
    back =
        can_receive ready (WriteTransaction-Reach r out.transaction) (out.same_reader ∙ no_reader)
