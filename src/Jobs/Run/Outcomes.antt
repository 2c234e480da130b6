-- ===== src/Jobs/Run/Outcomes.antt =====
-- What a call of `write`, the end of a transaction and the end of a turn do to what the jobs
-- count and to the chunks that are sent.
use tx_queue.Base.{
  ℕ, ◌+◌, ◌%◌, ◌^◌, ◌≤◌, ◌<◌, ◌≡◌, refl, sym, ap, ap₂, ◌∙◌, ◌⊎◌, inl, inr, true, false, List, [],
  ◌∷◌, ◌++◌, append_assoc, append-nil, some, arith, length, take, drop, take-add, Bool-cases,
  if◌then◌else◌,
}
use tx_queue.Words.{add64}
use tx_queue.Memory.{Memory}
use tx_queue.Queue.{BaseTxQueue, IsReady}
use tx_queue.Write
use tx_queue.Write.{TxWrite, WriteLoads, Written, begin_write, imp_write}
use tx_queue.Write.Laws.{imp_write-refuse}
use tx_queue.Channel.{System, HeadLoad, Reach, next, write, wrote, closed_write}
use tx_queue.Channel.WriteCalls.{write_cases}
use tx_queue.Channel.Safety.{Reach-Inv}
use tx_queue.Jobs.{TransmitJob, frame, chunk_size, chunk, count_sent}
use tx_queue.Jobs.Run.Frames.{frames, frames_snoc, joined_snoc, AllFit-append, AllFull-append}
use tx_queue.Jobs.Run.Flow.{hash_all-append, Progress}
use tx_queue.Jobs.Run.Invariant.{HasWritten}

-- A call of `write` on the open transaction: it succeeds on a valid one that stays valid, or it
-- fails and leaves one that is not.
module _ {q : BaseTxQueue} (ready : IsReady q) {m : Memory} {s : System} (r : Reach q m s)
    (tx : TxWrite) (loads : WriteLoads) (seen : ℕ) (buffer : List ℕ) (open_tx : s.writer ≡ some tx)
    (load : HeadLoad s seen) (loaded : loads.head ≡ seen % q.capacity) where
  abbrev pub out : Written
  out = imp_write loads s.memory s.status.producer_core tx buffer

  pub write_outcome :
      ((out.ok ≡ true) × (out.tx.invalidated ≡ false) × (tx.invalidated ≡ false))
      ⊎ ((out.ok ≡ false) × (out.tx.invalidated ≡ true))
  unfolding Write.refuse
  write_outcome =
      elim (write_cases ready (Reach-Inv ready r) tx loads seen buffer open_tx load loaded) [
        | inl done ↦ elim (Bool-cases tx.invalidated) [
          | inl bad ↦
              let e = imp_write-refuse loads s.memory s.status.producer_core tx buffer bad in
              absurd (cc (ap (λ t. t.ok) e, done.ok))
          | inr good ↦ inl (done.ok, done.valid, good)
        ]
        | inr no_write ↦ inr (no_write.failed, no_write.bad)
      ]

  pub wrote-HasWritten :
      (bytes : List ℕ)
      → HasWritten s.writer s.pending bytes
      → HasWritten
          (wrote q s tx loads seen buffer).writer
          (wrote q s tx loads seen buffer).pending
          (bytes ++ buffer)
  wrote-HasWritten bytes (tx', same, has) = (out.tx, refl, continued)
    where
      ours : tx.invalidated ≡ false → s.pending ≡ bytes
      ours good = let e : tx' ≡ tx = cc in has (ap (λ t. t.invalidated) e ∙ good)

      continued :
          out.tx.invalidated ≡ false
          → (if out.ok then s.pending ++ buffer else s.pending) ≡ bytes ++ buffer
      continued valid = elim write_outcome [
        | inl (ok, _, good) ↦ rw ok (ap (λ t. t ++ buffer) (ours good))
        | inr (_, bad) ↦ cc
      ]

  pub wrote-Reach : Reach q m (wrote q s tx loads seen buffer)
  wrote-Reach = next r (write tx loads seen buffer open_tx load loaded)

module _ {S : Type 0} {update : S → List ℕ → S} {high : ℕ} {h : S} {src_data : List ℕ}
    {sent received : List ℕ} {total : ℕ} {hash : S} {got_total : ℕ} {got_hash : S}
    {got_mark : List (List ℕ)}
    (p : Progress update high h src_data sent received total hash got_total got_hash []
      got_mark) where
  plain : p.chunks ++ [] ≡ p.chunks
  plain = append-nil p.chunks

  one_more : (c : List ℕ) → p.chunks ++ c ∷ [] ≡ (p.got ++ got_mark) ++ (p.rest ++ c ∷ [])
  one_more c =
      ap (λ t. t ++ c ∷ []) (sym plain ∙ p.split) ∙ append_assoc (p.got ++ got_mark) p.rest (c ∷ [])

  -- One more chunk is sent.
  pub append_chunk :
      (c : List ℕ) (n : ℕ)
      → c ≡ take n (drop total src_data)
      → length c ≡ n
      → 0 < n
      → n ≤ high
      → total + n ≤ length src_data
      → Progress update high h src_data
          (sent ++ frame c)
          received
          (total + n)
          (update hash c)
          got_total
          got_hash
          []
          got_mark
  append_chunk c n cut size pos fits inside = record {
    chunks = p.chunks ++ c ∷ [];
    got = p.got;
    rest = p.rest ++ c ∷ [];
    sent_eq =
        ap (λ t. t ++ frame c) (p.sent_eq ∙ ap frames plain)
        ∙ sym (frames_snoc p.chunks c)
        ∙ ap frames (sym (append-nil (p.chunks ++ c ∷ [])));
    received_eq = p.received_eq;
    split = append-nil (p.chunks ++ c ∷ []) ∙ one_more c;
    full = AllFull-append p.chunks (c ∷ []) p.full (omega arith);
    got_full = p.got_full;
    fit = AllFit-append high p.chunks (c ∷ []) p.fit (omega arith);
    joined_eq = joined_snoc p.chunks c ∙ ap₂ ◌++◌ p.joined_eq cut ∙ sym (take-add total n src_data);
    within = inside;
    hashed = ap (λ t. update t c) p.hashed ∙ sym (hash_all-append update h p.chunks c);
    got_hashed = p.got_hashed;
    got_counted = p.got_counted;
  }

  -- The mark behind the last chunk is sent.
  pub append_mark :
      Progress update high h src_data
        (sent ++ frame [])
        received
        total
        hash
        got_total
        got_hash
        ([] ∷ [])
        got_mark
  append_mark = record {
    chunks = p.chunks;
    got = p.got;
    rest = p.rest ++ [] ∷ [];
    sent_eq = ap (λ t. t ++ frame []) (p.sent_eq ∙ ap frames plain) ∙ sym (frames_snoc p.chunks []);
    received_eq = p.received_eq;
    split = one_more [];
    full = p.full;
    got_full = p.got_full;
    fit = p.fit;
    joined_eq = p.joined_eq;
    within = p.within;
    hashed = p.hashed;
    got_hashed = p.got_hashed;
    got_counted = p.got_counted;
  }

module _ (q : BaseTxQueue) (s : System) (tx : TxWrite) where
  pub closed-sent :
      {bytes : List ℕ}
      → tx.invalidated ≡ false
      → s.pending ≡ bytes
      → (closed_write q s tx).sent ≡ s.sent ++ bytes
  closed-sent good has = rw good (ap (λ t. s.sent ++ t) has)

  pub closed-sent_bad : tx.invalidated ≡ true → (closed_write q s tx).sent ≡ s.sent
  closed-sent_bad bad = rw bad refl

module _ {S : Type 0} (update : S → List ℕ → S) (drawn : ℕ) (job : TransmitJob S)
    (tx : TxWrite) where
  pub count_sent-good :
      tx.invalidated ≡ false
      → job.total_data + chunk_size job drawn < 2 ^ 64
      → count_sent update drawn job tx ≡ record job {
        hash = update job.hash (chunk job drawn);
        total_data = job.total_data + chunk_size job drawn;
      }
  unfolding count_sent Write.is_valid
  count_sent-good good small =
      let whole : add64 job.total_data (chunk_size job drawn)
          ≡ job.total_data + chunk_size job drawn =
        omega (arith, small) in
      rw (good, whole) refl

  pub count_sent-bad :
      tx.invalidated ≡ true
      → count_sent update drawn job tx
        ≡ record job { transaction_attempts = add64 job.transaction_attempts 1 }
  unfolding count_sent Write.is_valid
  count_sent-bad bad = rw bad refl

  pub count_sent-src_data : (count_sent update drawn job tx).src_data ≡ job.src_data
  unfolding count_sent Write.is_valid
  count_sent-src_data = elim (Bool-cases tx.invalidated) [
    | inl bad ↦ rw bad refl
    | inr good ↦ rw good refl
  ]
