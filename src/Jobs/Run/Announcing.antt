-- ===== src/Jobs/Run/Announcing.antt =====
-- The steps by which the start time passes the queue keep the invariant of the run: the producer's,
-- whose write succeeds since nothing else is on the queue.
use tx_queue.Base.{
  subst, ℕ, ◌%◌, ◌<◌, ◌≡◌, refl, sym, ap, ◌∙◌, inl, inr, true, false, List, [], ◌++◌, append-nil,
  some, arith, length, length-append,
}
use tx_queue.Memory.{Memory}
use tx_queue.Queue.{BaseTxQueue, IsReady}
use tx_queue.Write.{TxWrite, WriteLoads, Written, begin_write, imp_write}
use tx_queue.Channel.{HeadLoad, System, Reach, next, open_write, close_write, opened_write}
use tx_queue.Channel.Invariant.{le_of_IsIn}
use tx_queue.Channel.Safety.{Reach-Inv, received_in_order}
use tx_queue.Channel.Progress.{write-ok_iff}
use tx_queue.Jobs.{bytes_of_u64}
use tx_queue.Jobs.Run.{announcing, stamping, stamped, Run, after_call, after_stamp}
use tx_queue.Jobs.Run.Frames.{length-bytes_of_u64}
use tx_queue.Jobs.Run.Parts.{stamp_of, sends, Announces}
use tx_queue.Jobs.Run.Invariant.{Setup, RunInv, writer_at, not_yet_at, sending_at}
use tx_queue.Jobs.Run.Outcomes.{write_outcome, closed-sent}
use tx_queue.Jobs.Run.Sending.{after_call-RunInv}

-- While nothing is sent, a load of the head returns the only one there was, and eight bytes find
-- room.
module _ {q : BaseTxQueue} (ready : IsReady q) {m : Memory} {s : System} (r : Reach q m s)
    (empty : s.sent ≡ []) where
  nothing_received : length s.received ≡ 0
  nothing_received =
      let (left, split) = received_in_order ready r in
      omega (arith, ap length empty, ap length split, length-append s.received (s.taken ++ left))

  fresh_head :
      {seen : ℕ} (loads : WriteLoads)
      → HeadLoad s seen
      → loads.head ≡ seen % q.capacity
      → loads.head ≡ s.status.head
  fresh_head {seen} loads load loaded =
      let known = le_of_IsIn s.heads (Reach-Inv ready r).heads_in load.was_stored in
      let same : seen ≡ length s.received = omega (arith, known, nothing_received) in
      loaded ∙ ap (λ n. n % q.capacity) same ∙ sym (Reach-Inv ready r).head_at

  pub first_write-ok :
      {tx : TxWrite} {seen : ℕ} (loads : WriteLoads) (buffer : List ℕ)
      → s.writer ≡ some tx
      → tx.invalidated ≡ false
      → s.pending ≡ []
      → HeadLoad s seen
      → loads.head ≡ seen % q.capacity
      → length buffer < q.capacity
      → (imp_write loads s.memory s.status.producer_core tx buffer).ok ≡ true
  first_write-ok loads buffer open_tx good none load loaded fits =
      (write-ok_iff ready r open_tx good loads buffer (fresh_head loads load loaded)).1
        (omega (arith, ap length empty, ap length none, fits))

module _ {S : Type 0} {update : S → List ℕ → S} {q : BaseTxQueue} (ready : IsReady q) {m : Memory}
    {low high : ℕ} {h : S} {src_data : List ℕ} (setup : Setup low high src_data) {r : Run S}
    (inv : RunInv update q m low high h src_data r) where
  pub open_stamp-RunInv :
      (seen : ℕ)
      → r.transmit_pc ≡ announcing
      → HeadLoad r.system seen
      → RunInv update q m low high h src_data
          (record r { system = opened_write q r.system seen; transmit_pc = stamping })
  open_stamp-RunInv seen at load = record {
    reach = next inv.reach (open_write seen (writer_at update inv announcing at) load);
    same_source = inv.same_source;
    same_buffer = inv.same_buffer;
    writer_is = (_, refl, unfold begin_write in ground (arith, ready.stored), refl);
    reader_is = inv.reader_is;
    flow = sending_at update inv (ap (sends r.announced) at);
    announces = inv.announces;
    before = not_yet_at update inv announcing at;
    starts = inv.starts;
  }

  pub write_stamp-RunInv :
      (t : ℕ) (tx : TxWrite) (loads : WriteLoads) (seen : ℕ)
      → r.transmit_pc ≡ stamping
      → r.announced ≡ some t
      → r.system.writer ≡ some tx
      → HeadLoad r.system seen
      → loads.head ≡ seen % q.capacity
      → RunInv update q m low high h src_data
          (after_call update q r tx loads seen (bytes_of_u64 t) stamped)
  write_stamp-RunInv t tx loads seen at given open_tx load loaded =
      after_call-RunInv ready setup inv tx loads seen open_tx load loaded (bytes_of_u64 t) stamped
        (done.tx, refl, valid) (ap (sends r.announced) at)
        ((t, given), nothing, rw ok (ap (λ l. l ++ bytes_of_u64 t) none ∙ ap stamp_of (sym given)))
    where
      done : Written
      done = imp_write loads r.system.memory r.system.status.producer_core tx (bytes_of_u64 t)

      nothing : r.system.sent ≡ []
      nothing = (not_yet_at update inv stamping at).1

      good : tx.invalidated ≡ false
      good =
          let (tx', same, good', _) = writer_at update inv stamping at in
          let e : tx' ≡ tx = cc in ap (λ t. t.invalidated) (sym e) ∙ good'

      none : r.system.pending ≡ []
      none = let (_, _, _, none') = writer_at update inv stamping at in none'

      room : 8 < q.capacity
      room = (subst (Announces q) given inv.announces).2

      ok : done.ok ≡ true
      ok =
          first_write-ok ready inv.reach nothing loads (bytes_of_u64 t) open_tx good none load
            loaded (omega (arith, room, length-bytes_of_u64 t))

      valid : done.tx.invalidated ≡ false
      valid =
          elim (write_outcome ready inv.reach tx loads seen (bytes_of_u64 t) open_tx load loaded) [
            | inl (_, good', _) ↦ good'
            | inr (failed, _) ↦ absurd (cc (ok, failed))
          ]

  pub close_stamp-RunInv :
      (tx : TxWrite)
      → r.transmit_pc ≡ stamped
      → r.system.writer ≡ some tx
      → RunInv update q m low high h src_data (after_stamp update q r tx)
  close_stamp-RunInv tx at open_tx =
      let (tx', same, good) = writer_at update inv stamped at in
      let tx_same : tx' ≡ tx = cc in
      let (_, nothing, stamp) = not_yet_at update inv stamped at in
      let sent =
        closed-sent q r.system tx (ap (λ t. t.invalidated) (sym tx_same) ∙ good) stamp
        ∙ ap (λ l. l ++ stamp_of r.announced) nothing in
      let f = sending_at update inv (ap (sends r.announced) at) in
      record {
        reach = next inv.reach (close_write tx open_tx);
        same_source = inv.same_source;
        same_buffer = inv.same_buffer;
        writer_is = refl;
        reader_is = inv.reader_is;
        flow = record {
          job_sent = f.job_sent;
          job_received = f.job_received;
          sent_is =
              sent
              ∙ sym (append-nil (stamp_of r.announced))
              ∙ ap (λ l. stamp_of r.announced ++ l) (sym nothing ∙ f.sent_is);
          received_is = f.received_is;
          progress = f.progress;
        };
        announces = inv.announces;
        before = tt;
        starts = inv.starts;
      }
