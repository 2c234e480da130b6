-- ===== src/Channel/ReadCalls.antt =====
-- A call of `read` keeps the invariant.
use tx_queue.Base.{
  ℕ, ◌+◌, ◌%◌, ◌≤◌, ◌<◌, ◌≡◌, sym, ap, ◌∙◌, ◌⊎◌, inl, inr, true, false, List, ◌++◌, some, arith,
  length, take, drop, length-append, append_assoc, take-append-drop, dec_le, Bool-cases, ltb, leb,
  if◌then◌else◌, not, ◌&&◌,
}
use tx_queue.Memory.Ring.{ring, length-ring}
use tx_queue.Queue.{BaseTxQueue, IsReady}
use tx_queue.Read
use tx_queue.Read.{
  TxRead, ReadLoads, ReadOut, begin_read, imp_read, read_data, available_data, end_read,
}
use tx_queue.Read.Laws.{
  Succeeds, imp_read-Succeeds, imp_read-Refused, available_data-eq, imp_read-refuse,
}
use tx_queue.Channel.{System, TailLoad, after_read, did_read}
use tx_queue.Channel.Invariant.{Inv, ring-join, ring-take, ring-drop}
use tx_queue.Channel.ReadSteps.{NotRead, tail_bounds, stands, lengths}

module _ {q : BaseTxQueue} (ready : IsReady q) {s : System} (inv : Inv q s) where
  open inv use {counts, contents}

  -- After a read that succeeded, whatever of the two tails the consumer then knows.
  after_read-Inv :
      (r : ReadOut) (n t : ℕ)
      → s.tail_seen ≤ t
      → t ≤ length s.sent
      → Succeeds q t (length s.received + length s.taken) s.memory n r
      → Inv q (after_read q s r t)
  after_read-Inv r n t up down done =
      rw (done.ok, done.bytes)
        (record {
          tail_at = inv.tail_at;
          head_at = inv.head_at;
          tails_in = inv.tails_in;
          heads_in = inv.heads_in;
          counts = omega (arith, counts, done.stands, size);
          contents = record {
            left = drop n contents.left;
            split =
                contents.split
                ∙ ap (λ t. s.received ++ t)
                    (ap (λ t. s.taken ++ t) (sym (take-append-drop n contents.left))
                      ∙ sym (append_assoc s.taken (take n contents.left) (drop n contents.left))
                      ∙ ap (λ t. (s.taken ++ t) ++ drop n contents.left) (sym got));
            taken_stored =
                ring-join q.storage q.capacity s.memory (length s.received) s.taken bytes
                  contents.taken_stored (ap (ring q.storage q.capacity s.memory p) same);
            left_stored = rw further (
                ring-drop q.storage q.capacity s.memory n p contents.left inside
                  contents.left_stored);
            pending_stored = contents.pending_stored;
          };
          writer_at = inv.writer_at;
          reader_at = λ valid. rw further done.stands;
        })
    where
      p : ℕ
      p = length s.received + length s.taken

      bytes : List ℕ
      bytes = ring q.storage q.capacity s.memory p n

      same : length bytes ≡ n
      same = length-ring q.storage q.capacity s.memory p n

      size : length (s.taken ++ bytes) ≡ length s.taken + n
      size = omega (arith, length-append s.taken bytes, same)

      further : length s.received + length (s.taken ++ bytes) ≡ p + n
      further = omega (arith, size)

      inside : n ≤ length contents.left
      inside = omega (arith, done.stands, lengths ready inv)

      got : bytes ≡ take n contents.left
      got = ring-take q.storage q.capacity s.memory n p contents.left inside contents.left_stored

  -- After a read that was refused.
  after_refused-Inv :
      (r : ReadOut) (t : ℕ)
      → s.tail_seen ≤ t
      → t ≤ length s.sent
      → NotRead r
      → Inv q (after_read q s r t)
  after_refused-Inv r t up down n = rw (n.failed) (record {
    tail_at = inv.tail_at;
    head_at = inv.head_at;
    tails_in = inv.tails_in;
    heads_in = inv.heads_in;
    counts = omega (arith, counts);
    contents = contents;
    writer_at = inv.writer_at;
    reader_at = λ valid. cc (n.bad);
  })

  module _ (tx : TxRead) (loads : ReadLoads) (seen : ℕ) (buffer : List ℕ)
      (open_tx : s.reader ≡ some tx) (load : TailLoad s seen)
      (loaded : loads.tail ≡ seen % q.capacity) where
    p : ℕ
    p = length s.received + length s.taken

    result : ReadOut
    result = imp_read loads s.memory s.status.consumer_core tx buffer

    -- The position that the consumer knows the tail at, afterwards.
    abbrev pub known : ℕ
    known =
        if not tx.invalidated && ltb (available_data tx) (length buffer) then seen else s.tail_seen

    below : seen < p + q.capacity
    unfolding p
    below = omega (arith, tail_bounds ready inv load, counts)

    pub known_bounds : (s.tail_seen ≤ known) × (known ≤ length s.sent)
    known_bounds = ground (arith, tail_bounds ready inv load, counts)

    known-eq :
        tx.invalidated ≡ false
        → known ≡ (if leb (p + length buffer) s.tail_seen then s.tail_seen else seen)
    unfolding p
    known-eq good = ground (
      arith,
      available_data-eq ready s.tail_seen (length s.received + length s.taken) tx
          (stands ready inv tx open_tx good),
      counts,
    )

    -- A read of the consumer succeeds, behind the bytes that are received and taken, or it leaves a
    -- transaction that will not commit.
    pub read_cases :
        Succeeds q known
          (length s.received + length s.taken)
          s.memory
          (length buffer)
          (imp_read loads s.memory s.status.consumer_core tx buffer)
        ⊎ NotRead (imp_read loads s.memory s.status.consumer_core tx buffer)
    unfolding result p
    read_cases = elim (Bool-cases tx.invalidated) [
      | inl bad ↦
          inr (refused (imp_read-refuse loads s.memory s.status.consumer_core tx buffer bad) bad)
      | inr good ↦ elim (dec_le (p + length buffer) seen) [
        | yes fits ↦ inl (
            rw (known-eq good) (
              imp_read-Succeeds ready loads s.memory s.status.consumer_core s.tail_seen seen p tx
                buffer good (stands ready inv tx open_tx good) load.not_older below loaded fits))
        | no short ↦
            let f =
              imp_read-Refused ready loads s.memory s.status.consumer_core s.tail_seen seen p tx
                buffer good (stands ready inv tx open_tx good) load.not_older below loaded
                (omega arith) in
            inr (record { failed = f.ok; bad = f.invalid })
      ]
    ]
      where
        refused :
            result ≡ Read.refuse s.status.consumer_core tx buffer
            → tx.invalidated ≡ true
            → NotRead result
        refused e bad = unfold Read.refuse in record { failed = ground arith; bad = ground arith }

    pub did_read-Inv : Inv q (did_read q s tx loads seen buffer)
    unfolding result
    did_read-Inv = elim read_cases [
      | inl done ↦ after_read-Inv result (length buffer) known known_bounds.0 known_bounds.1 done
      | inr no_read ↦ after_refused-Inv result known known_bounds.0 known_bounds.1 no_read
    ]

  -- A read of no more bytes than the tail that the consumer knows shows succeeds without a load.
  pub read_known :
      (tx : TxRead)
      → s.reader ≡ some tx
      → tx.invalidated ≡ false
      → (loads : ReadLoads) (buffer : List ℕ)
      → length s.received + length s.taken + length buffer ≤ s.tail_seen
      → (imp_read loads s.memory s.status.consumer_core tx buffer).ok ≡ true
  unfolding imp_read read_data
  read_known tx open_tx good loads buffer fits = ground (
    arith,
    available_data-eq ready s.tail_seen (length s.received + length s.taken) tx
        (stands ready inv tx open_tx good),
  )
