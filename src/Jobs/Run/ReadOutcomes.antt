-- ===== src/Jobs/Run/ReadOutcomes.antt =====
-- What a call of `read` on the open transaction of a run comes to.
use tx_queue.Base.{
  ℕ, ◌%◌, ◌≡◌, refl, ap, ◌∙◌, ◌⊎◌, inl, inr, true, false, List, some, length, Bool-cases,
}
use tx_queue.Memory.{Memory}
use tx_queue.Memory.Ring.{length-ring}
use tx_queue.Queue.{BaseTxQueue, IsReady}
use tx_queue.Read
use tx_queue.Read.{TxRead, ReadLoads, ReadOut, imp_read}
use tx_queue.Read.Laws.{imp_read-refuse}
use tx_queue.Channel.{System, TailLoad, Reach, next, read, did_read}
use tx_queue.Channel.ReadCalls.{read_cases}
use tx_queue.Channel.Safety.{Reach-Inv}
use tx_queue.Jobs.Run.Invariant.{HasTaken}

-- A call of `read` on the open transaction: it succeeds on a valid one that stays valid, or it fails
-- and leaves one that is not.
module _ {q : BaseTxQueue} (ready : IsReady q) {m : Memory} {s : System} (r : Reach q m s)
    (tx : TxRead) (loads : ReadLoads) (seen : ℕ) (buffer : List ℕ) (open_tx : s.reader ≡ some tx)
    (load : TailLoad s seen) (loaded : loads.tail ≡ seen % q.capacity) where
  abbrev pub out : ReadOut
  out = imp_read loads s.memory s.status.consumer_core tx buffer

  pub read_outcome :
      ((out.ok ≡ true) × (length out.buffer ≡ length buffer) × (tx.invalidated ≡ false))
      ⊎ ((out.ok ≡ false) × (out.tx.invalidated ≡ true))
  unfolding Read.refuse
  read_outcome =
      elim (read_cases ready (Reach-Inv ready r) tx loads seen buffer open_tx load loaded) [
        | inl done ↦ elim (Bool-cases tx.invalidated) [
          | inl bad ↦
              let e = imp_read-refuse loads s.memory s.status.consumer_core tx buffer bad in
              absurd (cc (ap (λ t. t.ok) e, done.ok))
          | inr good ↦ inl (
            done.ok,
            ap length done.bytes ∙ length-ring q.storage q.capacity s.memory _ (length buffer),
            good,
          )
        ]
        | inr no_read ↦ inr (no_read.failed, no_read.bad)
      ]

  pub did_read-Reach : Reach q m (did_read q s tx loads seen buffer)
  did_read-Reach = next r (read tx loads seen buffer open_tx load loaded)

  -- What the transaction had taken, and what a read that leaves it valid has then.
  pub did_read-HasTaken :
      {P Q : Type 0}
      → HasTaken s.reader P
      → (P → out.ok ≡ true → length out.buffer ≡ length buffer → Q)
      → HasTaken (did_read q s tx loads seen buffer).reader Q
  did_read-HasTaken {P} {Q} (tx', same, has) step = (out.tx, refl, continued)
    where
      ours : tx.invalidated ≡ false → P
      ours good = let e : tx' ≡ tx = cc in has (ap (λ t. t.invalidated) e ∙ good)

      continued : out.tx.invalidated ≡ false → Q
      continued valid = elim read_outcome [
        | inl (ok, size, good) ↦ step (ours good) ok size
        | inr (_, bad) ↦ absurd (cc)
      ]
