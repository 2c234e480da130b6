-- ===== src/Channel/Safety.antt =====
-- What holds in every reachable state of the system.
use tx_queue.Base.{
  ℕ, ◌+◌, ◌≤◌, ◌<◌, ◌≡◌, refl, ap, ◌∙◌, ◌⊎◌, inl, inr, true, false, List, ◌++◌, none, some, arith,
  length, length-append, Bool-cases, not, ◌&&◌, ltb,
}
use tx_queue.Memory.{Memory}
use tx_queue.Memory.Ring.{ring, ring_put-outside}
use tx_queue.Queue.{BaseTxQueue, IsReady}
use tx_queue.Write
use tx_queue.Write.{TxWrite, WriteLoads, Written, imp_write, end_write, available_space}
use tx_queue.Write.Laws.{imp_write-refuse}
use tx_queue.Read.{TxRead, ReadLoads, imp_read, available_data}
use tx_queue.Channel.{
  System, IsIn, Step, open_write, write, drop_write, close_write, open_read, read, drop_read,
  close_read, Reach, here, next,
}
use tx_queue.Channel.Invariant.{Inv, start-Inv, capacity_pos, ring-join}
use tx_queue.Channel.WriteSteps.{opened_write-Inv, dropped_write-Inv, closed_write-Inv}
use tx_queue.Channel.WriteCalls.{write_cases, wrote-Inv}
use tx_queue.Channel.ReadSteps.{opened_read-Inv, dropped_read-Inv, closed_read-Inv}
use tx_queue.Channel.ReadCalls.{read_known, did_read-Inv}

-- Every step of either thread keeps the invariant.
pub Step-Inv : {q : BaseTxQueue} {s t : System} → IsReady q → Step q s t → Inv q s → Inv q t
Step-Inv ready (open_write seen _ load) inv = opened_write-Inv ready inv seen load
Step-Inv ready (write tx loads seen buffer open_tx load loaded) inv =
    wrote-Inv ready inv tx loads seen buffer open_tx load loaded
Step-Inv ready (drop_write tx _) inv = dropped_write-Inv ready inv tx
Step-Inv ready (close_write tx open_tx) inv = closed_write-Inv ready inv tx open_tx
Step-Inv ready (open_read seen _ load) inv = opened_read-Inv ready inv seen load
Step-Inv ready (read tx loads seen buffer open_tx load loaded) inv =
    did_read-Inv ready inv tx loads seen buffer open_tx load loaded
Step-Inv ready (drop_read tx _) inv = dropped_read-Inv ready inv tx
Step-Inv ready (close_read tx open_tx) inv = closed_read-Inv ready inv tx open_tx

pub Reach-Inv : {q : BaseTxQueue} {m : Memory} {s : System} → IsReady q → Reach q m s → Inv q s
Reach-Inv {m = m} ready here = start-Inv ready m
Reach-Inv ready (next r st) = Step-Inv ready st (Reach-Inv ready r)

-- In every reachable state, however the two threads are interleaved and whatever older indices
-- their loads return, the bytes received and those that the open read transaction has taken are,
-- in order, the first of the bytes sent by committed write transactions.
pub received_in_order :
    {q : BaseTxQueue} {m : Memory} {s : System}
    → IsReady q
    → Reach q m s
    → (left : List ℕ) × (s.sent ≡ s.received ++ (s.taken ++ left))
received_in_order ready r = let c = (Reach-Inv ready r).contents in (c.left, c.split)

-- In every reachable state the bytes sent and pending and not yet received are fewer than the
-- capacity, and the storage holds, from the position of the head on, the bytes sent and not yet
-- received and then the pending ones.
pub unread_stored :
    {q : BaseTxQueue} {m : Memory} {s : System}
    → IsReady q
    → Reach q m s
    → (unread : List ℕ) × (s.sent ≡ s.received ++ unread)
      × (length unread + length s.pending < q.capacity)
      × (ring q.storage q.capacity s.memory (length s.received) (length unread) ≡ unread)
      × (ring q.storage q.capacity s.memory (length s.sent) (length s.pending) ≡ s.pending)
unread_stored {q} {s = s} ready r = (
  s.taken ++ c.left,
  c.split,
  omega (arith, counts, ap length c.split, length-append s.received (s.taken ++ c.left)),
  ring-join q.storage q.capacity s.memory (length s.received) s.taken c.left c.taken_stored
      c.left_stored,
  c.pending_stored,
)
  where
    open (Reach-Inv ready r) use {contents as c, counts}

-- A step from a reachable state changes no byte outside the storage.
pub Step-outside :
    {q : BaseTxQueue} {m : Memory} {s t : System}
    → IsReady q
    → Reach q m s
    → Step q s t
    → (x : ℕ) → (x < q.storage) ⊎ (q.storage + q.capacity ≤ x)
    → t.memory x ≡ s.memory x
Step-outside {q} {s = s} ready r st x out = go st
  where
    go : {t : System} → Step q s t → t.memory x ≡ s.memory x
    go (open_write _ _ _) = refl
    go (write tx loads seen buffer open_tx load loaded) =
        elim (write_cases ready (Reach-Inv ready r) tx loads seen buffer open_tx load loaded) [
          | inl done ↦
              ap (λ (m : Memory). m x) done.stored
              ∙ ring_put-outside q.storage q.capacity s.memory (length s.sent + length s.pending)
                  buffer x (capacity_pos ready) out
          | inr no_write ↦ ap (λ (m : Memory). m x) no_write.same
        ]
    go (drop_write _ _) = refl
    go (close_write _ _) = refl
    go (open_read _ _ _) = refl
    go (read _ _ _ _ _ _ _) = refl
    go (drop_read _ _) = refl
    go (close_read _ _) = refl

-- A transaction that was invalidated commits nothing: whatever step follows, the bytes sent and
-- the tail in the status words stay, and the transaction is closed or still invalidated.
pub invalidated_never_commits :
    {q : BaseTxQueue} {s t : System} {tx : TxWrite}
    → Step q s t
    → s.writer ≡ some tx
    → tx.invalidated ≡ true
    → (t.sent ≡ s.sent)
      × (t.status.tail ≡ s.status.tail)
      × ((t.writer ≡ none) ⊎ ((tx' : TxWrite) × (t.writer ≡ some tx') × (tx'.invalidated ≡ true)))
unfolding Write.invalidate end_write Write.refuse
invalidated_never_commits (open_write seen closed load) open_tx bad = cc
invalidated_never_commits {s = s} {tx = tx'} (write tx loads seen buffer open_tx load loaded) mine
      bad =
    let same : tx ≡ tx' = cc in
    let e = imp_write-refuse loads s.memory s.status.producer_core tx buffer (rw same bad) in
    (refl, refl, inr (_, refl, ground (arith, e, same)))
invalidated_never_commits (drop_write tx open_tx) mine bad = (refl, refl, inr (_, refl, refl))
invalidated_never_commits {tx = tx'} (close_write tx open_tx) mine bad =
    let same : tx ≡ tx' = cc in (ground (arith, same), ground (arith, same), inl refl)
invalidated_never_commits (open_read seen closed load) mine bad = (refl, refl, inr (_, mine, bad))
invalidated_never_commits (read tx loads seen buffer _ _ _) mine bad =
    (refl, refl, inr (_, mine, bad))
invalidated_never_commits (drop_read tx _) mine bad = (refl, refl, inr (_, mine, bad))
invalidated_never_commits (close_read tx _) mine bad = (refl, refl, inr (_, mine, bad))

-- The consumer knows a tail that the producer has stored.
pub Step-logged :
    {q : BaseTxQueue} {s t : System}
    → Step q s t
    → IsIn s.tail_seen s.tails
    → IsIn t.tail_seen t.tails
Step-logged (open_write _ _ _) known = known
Step-logged (write _ _ _ _ _ _ _) known = known
Step-logged (drop_write _ _) known = known
Step-logged (close_write tx _) known = elim (Bool-cases tx.invalidated) [
  | inl bad ↦ rw bad known
  | inr good ↦ rw good (inr known)
]
Step-logged (open_read seen _ load) known = load.was_stored
Step-logged (read tx loads seen buffer _ load _) known =
    elim (Bool-cases (not tx.invalidated && ltb (available_data tx) (length buffer))) [
      | inl loaded ↦ rw loaded load.was_stored
      | inr kept ↦ rw kept known
    ]
Step-logged (drop_read _ _) known = known
Step-logged (close_read _ _) known = known

Reach-logged : {q : BaseTxQueue} {m : Memory} {s : System} → Reach q m s → IsIn s.tail_seen s.tails
Reach-logged here = inl refl
Reach-logged (next r st) = Step-logged st (Reach-logged r)

-- The committed indices are in the logs.
Step-committed :
    {q : BaseTxQueue} {s t : System}
    → Step q s t
    → IsIn (length s.received) s.heads × IsIn (length s.sent) s.tails
    → IsIn (length t.received) t.heads × IsIn (length t.sent) t.tails
Step-committed (open_write _ _ _) known = known
Step-committed (write _ _ _ _ _ _ _) known = known
Step-committed (drop_write _ _) known = known
Step-committed (close_write tx _) known = elim (Bool-cases tx.invalidated) [
  | inl bad ↦ rw bad known
  | inr good ↦ rw good (known.0, inl refl)
]
Step-committed (open_read _ _ _) known = known
Step-committed (read _ _ _ _ _ _ _) known = known
Step-committed (drop_read _ _) known = known
Step-committed (close_read tx _) known = elim (Bool-cases tx.invalidated) [
  | inl bad ↦ rw bad known
  | inr good ↦ rw good (inl refl, known.1)
]

pub Reach-committed :
    {q : BaseTxQueue} {m : Memory} {s : System}
    → Reach q m s
    → IsIn (length s.received) s.heads × IsIn (length s.sent) s.tails
Reach-committed here = (inl refl, inl refl)
Reach-committed (next r st) = Step-committed st (Reach-committed r)

-- Transactions arrive whole: once a valid read transaction has taken a byte behind the boundary
-- `start_of`, and no other boundary of committed transactions lies between that and `end_of`, a
-- read of no more bytes than there are up to `end_of` succeeds, whatever its loads return.
pub arrives_whole :
    {q : BaseTxQueue} {m : Memory} {s : System} {tx : TxRead}
    → IsReady q
    → Reach q m s
    → s.reader ≡ some tx
    → tx.invalidated ≡ false
    → (start_of end_of : ℕ) → start_of < length s.received + length s.taken
    → ((b : ℕ) → IsIn b s.tails → start_of < b → end_of ≤ b)
    → (loads : ReadLoads) (buffer : List ℕ)
    → length s.received + length s.taken + length buffer ≤ end_of
    → (imp_read loads s.memory s.status.consumer_core tx buffer).ok ≡ true
arrives_whole {s = s} {tx = tx} ready r open_tx good start_of end_of begun none_between loads buffer
      fits =
    read_known ready (Reach-Inv ready r) tx open_tx good loads buffer
      (omega (arith, counts, none_between s.tail_seen (Reach-logged r)))
  where
    open (Reach-Inv ready r) use {counts}
