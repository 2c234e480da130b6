-- ===== src/Channel/Refinement.antt =====
-- The system of both threads against a bounded queue of bytes that knows neither a ring, nor
-- positions, nor copies of them that may be old.
use tx_queue.Base.{
  ℕ, ◌+◌, ◌<◌, ◌≡◌, refl, sym, ap, ◌∙◌, inl, inr, List, [], ◌∷◌, ◌++◌, append_assoc, arith, length,
  drop, length-append, Bool-cases,
}
use tx_queue.Memory.{Memory}
use tx_queue.Queue.{BaseTxQueue, IsReady}
use tx_queue.Write.{TxWrite}
use tx_queue.Read.{TxRead}
use tx_queue.Channel.{
  System, Step, open_write, write, drop_write, close_write, open_read, read, drop_read, close_read,
  Reach, here, next, closed_write, closed_read,
}
use tx_queue.Channel.Safety.{Reach-Inv}

-- The bytes in the queue, all that were ever accepted, and all that were ever delivered.
pub record Fifo : Type 0 where
  pub queue : List ℕ
  pub accepted : List ℕ
  pub delivered : List ℕ

abbrev pub empty : Fifo
empty = record { queue = []; accepted = []; delivered = [] }

abbrev pub enqueued : List ℕ → Fifo → Fifo
enqueued bytes f = record f { queue = f.queue ++ bytes; accepted = f.accepted ++ bytes }

abbrev pub dequeued : (bytes rest : List ℕ) → Fifo → Fifo
dequeued bytes rest f = record f { queue = rest; delivered = f.delivered ++ bytes }

-- The bytes of a transaction go in at once, if there is room, and come out at once, in front.
pub data FifoStep (capacity : ℕ) (f : Fifo) : Fifo → Type 0 where
  idle : FifoStep capacity f f
  enqueue :
      (bytes : List ℕ)
      → length f.queue + length bytes < capacity
      → FifoStep capacity f (enqueued bytes f)
  dequeue :
      (bytes rest : List ℕ) → f.queue ≡ bytes ++ rest → FifoStep capacity f (dequeued bytes rest f)

pub data FifoReach (capacity : ℕ) : Fifo → Type 0 where
  made : FifoReach capacity empty
  then_step : {f g : Fifo} → FifoReach capacity f → FifoStep capacity f g → FifoReach capacity g

-- What the queue of bytes holds in a state of the system.
abbrev pub abstracted : System → Fifo
abstracted s = record {
  queue = drop (length s.received) s.sent;
  accepted = s.sent;
  delivered = s.received;
}

drop-append : (xs ys : List ℕ) → drop (length xs) (xs ++ ys) ≡ ys
drop-append [] ys = refl
drop-append (x ∷ xs) ys = drop-append xs ys

unread :
    {sent bytes : List ℕ} (received : List ℕ)
    → sent ≡ received ++ bytes
    → drop (length received) sent ≡ bytes
unread {bytes = bytes} received e = ap (drop (length received)) e ∙ drop-append received bytes

module _ {q : BaseTxQueue} {m : Memory} {s : System} (ready : IsReady q) (r : Reach q m s) where
  open (Reach-Inv ready r) use {counts, contents}

  inside : drop (length s.received) s.sent ≡ s.taken ++ contents.left
  inside = unread s.received contents.split

  closed_write-refines :
      (tx : TxWrite) → FifoStep q.capacity (abstracted s) (abstracted (closed_write q s tx))
  closed_write-refines tx = elim (Bool-cases tx.invalidated) [
    | inl bad ↦ rw bad idle
    | inr good ↦
        let more : drop (length s.received) (s.sent ++ s.pending)
            ≡ drop (length s.received) s.sent ++ s.pending =
          unread s.received (
            ap (λ t. t ++ s.pending) contents.split
            ∙ append_assoc s.received (s.taken ++ contents.left) s.pending)
          ∙ ap (λ t. t ++ s.pending) (sym inside) in
        rw (good, more)
          (enqueue s.pending (
            omega (
              arith,
              counts,
              ap length inside,
              ap length contents.split,
              length-append s.received (s.taken ++ contents.left),
            )))
  ]

  closed_read-refines :
      (tx : TxRead) → FifoStep q.capacity (abstracted s) (abstracted (closed_read q s tx))
  closed_read-refines tx = elim (Bool-cases tx.invalidated) [
    | inl bad ↦ rw bad idle
    | inr good ↦
        let rest : drop (length (s.received ++ s.taken)) s.sent ≡ contents.left =
          unread (s.received ++ s.taken)
            (contents.split ∙ sym (append_assoc s.received s.taken contents.left)) in
        rw (good, rest) (dequeue s.taken contents.left inside)
  ]

-- Every step of either thread from a reachable state of a ready queue, in any interleaving, is a
-- step of a bounded queue of bytes with the same accepted and delivered bytes: the commit of a write
-- transaction puts its bytes in at once, with room for them, the commit of a read transaction takes
-- its bytes out at the front at once, and every other step changes nothing.
pub Step-refines :
    {q : BaseTxQueue} {m : Memory} {s t : System}
    → IsReady q
    → Reach q m s
    → Step q s t
    → FifoStep q.capacity (abstracted s) (abstracted t)
Step-refines ready r (open_write _ _ _) = idle
Step-refines ready r (write _ _ _ _ _ _ _) = idle
Step-refines ready r (drop_write _ _) = idle
Step-refines ready r (close_write tx _) = closed_write-refines ready r tx
Step-refines ready r (open_read _ _ _) = idle
Step-refines ready r (read _ _ _ _ _ _ _) = idle
Step-refines ready r (drop_read _ _) = idle
Step-refines ready r (close_read tx _) = closed_read-refines ready r tx

-- Every reachable state of a ready queue is one that the bounded queue of bytes can come to, with
-- the same accepted and delivered bytes.
pub Reach-refines :
    {q : BaseTxQueue} {m : Memory} {s : System}
    → IsReady q
    → Reach q m s
    → FifoReach q.capacity (abstracted s)
Reach-refines ready here = made
Reach-refines ready (next r st) = then_step (Reach-refines ready r) (Step-refines ready r st)
