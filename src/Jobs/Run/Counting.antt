-- ===== src/Jobs/Run/Counting.antt =====
-- What the end of a read transaction, a read into the buffer and the end of a turn do to what the
-- consumer counts.
use tx_queue.Base.{
  ℕ, ◌+◌, ◌-◌, ◌^◌, ◌≤◌, ◌<◌, ◌≡◌, refl, sym, ap, ◌∙◌, inl, inr, true, false, List, [], ◌++◌, arith,
  length, length-append, take, drop, length-take, length-drop, take-append, replicate,
  length-replicate, Bool-cases, ◌==◌,
}
use tx_queue.Words.{add64}
use tx_queue.Queue.{BaseTxQueue}
use tx_queue.Read
use tx_queue.Read.{TxRead, ReadLoads, ReadOut, imp_read}
use tx_queue.Channel.{System, closed_read}
use tx_queue.Jobs.{ReceiveJob, count_received, fill_buffer, quits, window}
use tx_queue.Jobs.Run.Frames.{joined}
use tx_queue.Jobs.Run.Flow.{Progress}
use tx_queue.Jobs.Run.Invariant.{Setup}
use tx_queue.Jobs.Run.Intake.{got_first}

module _ (q : BaseTxQueue) (s : System) (tx : TxRead) where
  pub closed-received :
      tx.invalidated ≡ false → (closed_read q s tx).received ≡ s.received ++ s.taken
  closed-received good = rw good refl

  pub closed_received_bad : tx.invalidated ≡ true → (closed_read q s tx).received ≡ s.received
  closed_received_bad bad = rw bad refl

module _ {S : Type 0} (size : ℕ) (done : ReadOut) (job : ReceiveJob S) where
  -- A chunk that fits the buffer is written into it.
  pub fill_buffer-in :
      done.ok ≡ true
      → length done.buffer ≡ size
      → size ≤ length job.buffer
      → (length (fill_buffer size done job).buffer ≡ length job.buffer)
        × (take size (fill_buffer size done job).buffer ≡ done.buffer)
  unfolding fill_buffer
  fill_buffer-in ok as_size fits = rw ok (
    omega (arith, length-append done.buffer (drop size job.buffer), length-drop size job.buffer),
    ap (λ n. take n (done.buffer ++ drop size job.buffer)) (sym as_size)
        ∙ take-append done.buffer (drop size job.buffer),
  )

  pub fill_buffer-not : done.ok ≡ false → fill_buffer size done job ≡ job
  unfolding fill_buffer
  fill_buffer-not bad = rw bad refl

  pub fill_buffer-counts :
      ((fill_buffer size done job).total_data ≡ job.total_data)
      × ((fill_buffer size done job).hash ≡ job.hash)
  unfolding fill_buffer
  fill_buffer-counts = elim (Bool-cases done.ok) [
    | inl ok ↦ rw ok (refl, refl)
    | inr bad ↦ rw bad (refl, refl)
  ]

module _ {S : Type 0} (update : S → List ℕ → S) (size : ℕ) (job : ReceiveJob S) (tx : TxRead) where
  pub read_turn-bad :
      tx.invalidated ≡ true
      → (quits size tx ≡ false)
        × (count_received update size job tx
            ≡ record job { transaction_attempts = add64 job.transaction_attempts 1 })
  unfolding count_received quits Read.is_valid
  read_turn-bad bad = rw bad (refl, refl)

  pub read_turn-more :
      tx.invalidated ≡ false
      → 0 < size
      → job.total_data + size < 2 ^ 64
      → (quits size tx ≡ false)
        × (count_received update size job tx ≡ record job {
          hash = update job.hash (take size job.buffer);
          total_data = job.total_data + size;
        })
  unfolding count_received quits Read.is_valid
  read_turn-more good pos small =
      let whole : add64 job.total_data size ≡ job.total_data + size = omega (arith, small) in
      let some_bytes : (size == 0) ≡ false = ground arith in
      rw (good, some_bytes, whole) (refl, refl)

  pub read_turn-last :
      tx.invalidated ≡ false
      → size ≡ 0
      → (quits size tx ≡ true) × (count_received update size job tx ≡ job)
  unfolding count_received quits Read.is_valid
  read_turn-last good zero_size = rw (good, zero_size) (refl, refl)

-- What is received and counted is no more than the data.
pub counted_fits :
    {S : Type 0} {update : S → List ℕ → S} {low high : ℕ} {h : S} {src_data sent received : List ℕ}
    {total : ℕ} {hash : S} {got_total : ℕ} {got_hash : S} {mark : List (List ℕ)}
    → Setup low high src_data
    → joined mark ≡ []
    → Progress update high h src_data sent received total hash got_total got_hash mark []
    → got_total < 2 ^ 64
counted_fits {src_data = src_data} {total = total} setup empty p =
    let (more, first) = got_first p empty refl in
    omega (
      arith,
      p.got_counted,
      ap length first,
      length-append (joined p.got) more,
      length-take total src_data,
      setup.data_fits,
    )

pub length-window : (size : ℕ) (buffer : List ℕ) → length (window size buffer) ≡ size
length-window size buffer = omega (
  arith,
  length-append (take size buffer) (replicate (size - length buffer) 0),
  length-take size buffer,
  length-replicate {A = ℕ} (size - length buffer) 0,
)
