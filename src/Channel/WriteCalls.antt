-- ===== src/Channel/WriteCalls.antt =====
-- A call of `write` keeps the invariant.
use tx_queue.Base.{
  ℕ, ◌+◌, ◌%◌, ◌≤◌, ◌≡◌, ◌∙◌, ◌⊎◌, inl, inr, true, false, List, ◌++◌, some, arith, length,
  length-append, dec_lt, Bool-cases, ltb, if◌then◌else◌, not, ◌&&◌,
}
use tx_queue.Memory.{Memory}
use tx_queue.Memory.Ring.{ring, ring_put, ring-ring_put_before, ring-ring_put_self}
use tx_queue.Queue.{BaseTxQueue, IsReady}
use tx_queue.Write
use tx_queue.Write.{
  TxWrite, WriteLoads, Written, begin_write, imp_write, available_space, end_write,
}
use tx_queue.Write.Laws.{
  Succeeds, imp_write-Succeeds, imp_write-Refused, available_space-eq, imp_write-refuse,
}
use tx_queue.Channel.{System, HeadLoad, after_write, wrote}
use tx_queue.Channel.Invariant.{Inv, ring-join}
use tx_queue.Channel.WriteSteps.{NotWritten, seen_bounds, stands, lengths}

module _ {q : BaseTxQueue} (ready : IsReady q) {s : System} (inv : Inv q s) where
  open inv use {counts, contents}

  -- After a write that succeeded, whatever of the two heads the producer then knows.
  after_write-Inv :
      (r : Written) (buffer : List ℕ) (h : ℕ)
      → s.head_seen ≤ h
      → h ≤ length s.received
      → Succeeds q h (length s.sent + length s.pending) s.memory buffer r
      → Inv q (after_write q s r buffer h)
  after_write-Inv r buffer h up down done =
      rw (done.ok, done.stored)
        (record {
          tail_at = inv.tail_at;
          head_at = inv.head_at;
          tails_in = inv.tails_in;
          heads_in = inv.heads_in;
          counts = omega (arith, counts, done.stands, length-append s.pending buffer);
          contents = record {
            left = contents.left;
            split = contents.split;
            taken_stored =
                kept (length s.received) (length s.taken) (omega (arith, lengths ready inv))
                  (omega arith)
                ∙ contents.taken_stored;
            left_stored =
                kept (length s.received + length s.taken) (length contents.left)
                  (omega (arith, lengths ready inv)) (omega arith)
                ∙ contents.left_stored;
            pending_stored =
                ring-join q.storage q.capacity put (length s.sent) s.pending buffer
                  (kept (length s.sent) (length s.pending) (omega arith)
                      (omega (arith, lengths ready inv))
                    ∙ contents.pending_stored)
                  (ring-ring_put_self q.storage q.capacity s.memory p buffer
                    (omega (arith, counts, done.stands, lengths ready inv)));
          };
          writer_at = λ valid. rw further done.stands;
          reader_at = inv.reader_at;
        })
    where
      p : ℕ
      p = length s.sent + length s.pending

      put : Memory
      put = ring_put q.storage q.capacity s.memory p buffer

      kept :
          (from n : ℕ)
          → from + n ≤ p
          → length s.received ≤ from
          → ring q.storage q.capacity put from n ≡ ring q.storage q.capacity s.memory from n
      kept from n inside above =
          ring-ring_put_before q.storage q.capacity s.memory p buffer from n inside
            (omega (arith, done.stands))

      further : length s.sent + length (s.pending ++ buffer) ≡ p + length buffer
      further = omega (arith, length-append s.pending buffer)

  -- After a write that was refused.
  after_refused-Inv :
      (r : Written) (buffer : List ℕ) (h : ℕ)
      → s.head_seen ≤ h
      → h ≤ length s.received
      → NotWritten s r
      → Inv q (after_write q s r buffer h)
  after_refused-Inv r buffer h up down n =
      rw (n.failed, n.same)
        (record {
          tail_at = inv.tail_at;
          head_at = inv.head_at;
          tails_in = inv.tails_in;
          heads_in = inv.heads_in;
          counts = omega (arith, counts);
          contents = contents;
          writer_at = λ valid. cc (n.bad);
          reader_at = inv.reader_at;
        })

  module _ (tx : TxWrite) (loads : WriteLoads) (seen : ℕ) (buffer : List ℕ)
      (open_tx : s.writer ≡ some tx) (load : HeadLoad s seen)
      (loaded : loads.head ≡ seen % q.capacity) where
    p : ℕ
    p = length s.sent + length s.pending

    result : Written
    result = imp_write loads s.memory s.status.producer_core tx buffer

    -- The position that the producer knows the head at, afterwards.
    abbrev pub known : ℕ
    known =
        if not tx.invalidated && ltb (available_space tx) (length buffer) then seen else s.head_seen

    below : seen ≤ p
    unfolding p
    below = omega (arith, seen_bounds ready inv load, lengths ready inv)

    pub known_bounds : (s.head_seen ≤ known) × (known ≤ length s.received)
    known_bounds = ground (arith, seen_bounds ready inv load, counts)

    known-eq :
        tx.invalidated ≡ false
        → known ≡ (if ltb (p + length buffer) (s.head_seen + q.capacity) then s.head_seen else seen)
    unfolding p
    known-eq good = ground (
      arith,
      available_space-eq ready s.head_seen (length s.sent + length s.pending) tx
          (stands ready inv tx open_tx good),
      counts,
    )

    -- A write of the producer succeeds, behind the bytes that are sent and pending, or it changes
    -- no memory and leaves a transaction that will not commit.
    pub write_cases :
        Succeeds q known
          (length s.sent + length s.pending)
          s.memory
          buffer
          (imp_write loads s.memory s.status.producer_core tx buffer)
        ⊎ NotWritten s (imp_write loads s.memory s.status.producer_core tx buffer)
    unfolding result p
    write_cases = elim (Bool-cases tx.invalidated) [
      | inl bad ↦
          inr (refused (imp_write-refuse loads s.memory s.status.producer_core tx buffer bad) bad)
      | inr good ↦ elim (dec_lt (p + length buffer) (seen + q.capacity)) [
        | yes fits ↦ inl (
            rw (known-eq good) (
              imp_write-Succeeds ready loads s.memory s.status.producer_core s.head_seen seen p tx
                buffer good (stands ready inv tx open_tx good) load.not_older below loaded fits))
        | no full ↦
            let f =
              imp_write-Refused ready loads s.memory s.status.producer_core s.head_seen seen p tx
                buffer good (stands ready inv tx open_tx good) load.not_older below loaded
                (omega arith) in
            inr (record { failed = f.ok; same = f.untouched; bad = f.invalid })
      ]
    ]
      where
        refused :
            result ≡ Write.refuse s.memory s.status.producer_core tx
            → tx.invalidated ≡ true
            → NotWritten s result
        refused e bad =
            unfold Write.refuse in
            record { failed = ground arith; same = ground arith; bad = ground arith }

    pub wrote-Inv : Inv q (wrote q s tx loads seen buffer)
    unfolding result
    wrote-Inv = elim write_cases [
      | inl done ↦ after_write-Inv result buffer known known_bounds.0 known_bounds.1 done
      | inr no_write ↦ after_refused-Inv result buffer known known_bounds.0 known_bounds.1 no_write
    ]
