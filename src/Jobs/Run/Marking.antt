-- ===== src/Jobs/Run/Marking.antt =====
-- The producer's steps behind its loop, that send the mark, keep the invariant of the run.
use tx_queue.Base.{
  ℕ, ◌%◌, ◌≤◌, ◌≡◌, refl, sym, ap, ◌∙◌, Bool, true, false, not, List, [], append-nil, some, arith,
  length,
}
use tx_queue.Memory.{Memory}
use tx_queue.Queue.{BaseTxQueue, IsReady}
use tx_queue.Write.{TxWrite, WriteLoads, imp_write}
use tx_queue.Channel.{HeadLoad, next, open_write, close_write, opened_write}
use tx_queue.Jobs.{bytes_of_u64, frame}
use tx_queue.Jobs.Run.{looping, signaling, marking, marked, Run, after_call, after_mark}
use tx_queue.Jobs.Run.Parts.{sends}
use tx_queue.Jobs.Run.Flow.{more_sent}
use tx_queue.Jobs.Run.Invariant.{Setup, RunInv, writer_at, sending_at}
use tx_queue.Jobs.Run.Outcomes.{
  write_outcome, wrote-HasWritten, append_mark, closed-sent, closed-sent_bad,
}
use tx_queue.Jobs.Run.Sending.{after_call-RunInv}

module _ {S : Type 0} {update : S → List ℕ → S} {q : BaseTxQueue} (ready : IsReady q) {m : Memory}
    {low high : ℕ} {h : S} {src_data : List ℕ} (setup : Setup low high src_data) {r : Run S}
    (inv : RunInv update q m low high h src_data r) where
  module _ (tx : TxWrite) (loads : WriteLoads) (seen : ℕ) (open_tx : r.system.writer ≡ some tx)
      (load : HeadLoad r.system seen) (loaded : loads.head ≡ seen % q.capacity) where
    pub write_mark-RunInv :
        r.transmit_pc ≡ marking
        → RunInv update q m low high h src_data (
            after_call update q r tx loads seen (bytes_of_u64 0) (
              marked
                (imp_write loads r.system.memory r.system.status.producer_core tx
                  (bytes_of_u64 0)).ok))
    write_mark-RunInv at =
        let (all, has) = writer_at update inv marking at in
        let done =
          imp_write loads r.system.memory r.system.status.producer_core tx (bytes_of_u64 0) in
        let (tx', same, written) =
          wrote-HasWritten ready inv.reach tx loads seen (bytes_of_u64 0) open_tx load loaded []
            has in
        let outcome =
          write_outcome ready inv.reach tx loads seen (bytes_of_u64 0) open_tx load loaded in
        let tx_same : tx' ≡ done.tx = cc in
        let as_ok : done.tx.invalidated ≡ not done.ok = ground (arith, outcome) in
        after_call-RunInv ready setup inv tx loads seen open_tx load loaded (bytes_of_u64 0)
          (marked done.ok)
          (
            all,
            done.tx,
            refl,
            as_ok,
            λ ok.
                written (ap (λ t. t.invalidated) tx_same ∙ as_ok ∙ ap not ok)
                ∙ sym (append-nil (bytes_of_u64 0)),
          )
          (ap (sends r.announced) at) tt

  pub leave_loop-RunInv :
      r.transmit_pc ≡ looping
      → length r.transmit.src_data ≤ r.transmit.total_data
      → RunInv update q m low high h src_data (record r { transmit_pc = signaling })
  leave_loop-RunInv at over = record {
    reach = inv.reach;
    same_source = inv.same_source;
    same_buffer = inv.same_buffer;
    writer_is = (
      omega (arith, over, inv.flow.progress.within, ap length inv.same_source),
      writer_at update inv looping at,
    );
    reader_is = inv.reader_is;
    flow = sending_at update inv (ap (sends r.announced) at);
    announces = inv.announces;
    before = tt;
    starts = inv.starts;
  }

  pub open_mark-RunInv :
      (seen : ℕ)
      → r.transmit_pc ≡ signaling
      → HeadLoad r.system seen
      → RunInv update q m low high h src_data
          (record r { system = opened_write q r.system seen; transmit_pc = marking })
  open_mark-RunInv seen at load =
      let (all, closed) = writer_at update inv signaling at in
      record {
        reach = next inv.reach (open_write seen closed load);
        same_source = inv.same_source;
        same_buffer = inv.same_buffer;
        writer_is = (all, (_, refl, λ valid. refl));
        reader_is = inv.reader_is;
        flow = sending_at update inv (ap (sends r.announced) at);
        announces = inv.announces;
        before = tt;
        starts = inv.starts;
      }

  pub close_mark-RunInv :
      (tx : TxWrite) (ok : Bool)
      → r.transmit_pc ≡ marked ok
      → r.system.writer ≡ some tx
      → RunInv update q m low high h src_data (after_mark update q r tx ok)
  close_mark-RunInv tx true at open_tx =
      let (all, tx', same, valid, has) = writer_at update inv (marked true) at in
      let tx_same : tx' ≡ tx = cc in
      let sent =
        closed-sent q r.system tx (ap (λ t. t.invalidated) (sym tx_same) ∙ valid) (has refl) in
      record {
        reach = next inv.reach (close_write tx open_tx);
        same_source = inv.same_source;
        same_buffer = inv.same_buffer;
        writer_is = (all, refl);
        reader_is = inv.reader_is;
        flow =
            let f = sending_at update inv (ap (sends r.announced) at) in
            rw sent (more_sent update f (frame []) (append_mark f.progress));
        announces = inv.announces;
        before = tt;
        starts = inv.starts;
      }
  close_mark-RunInv tx false at open_tx =
      let (all, tx', same, bad, has) = writer_at update inv (marked false) at in
      let tx_same : tx' ≡ tx = cc in
      record {
        reach = next inv.reach (close_write tx open_tx);
        same_source = inv.same_source;
        same_buffer = inv.same_buffer;
        writer_is = (all, refl);
        reader_is = inv.reader_is;
        announces = inv.announces;
        before = tt;
        starts = inv.starts;
        flow =
            rw (closed-sent_bad q r.system tx (ap (λ t. t.invalidated) (sym tx_same) ∙ bad))
              (sending_at update inv (ap (sends r.announced) at));
      }
