-- ===== src/Jobs/Run/Advance.antt =====
-- From any state of a run, the producer's steps up to the end of its transaction.
use tx_queue.Base.{
  ℕ, ◌^◌, ◌+◌, ◌<◌, ◌≡◌, refl, sym, ap, ◌∙◌, inl, inr, Bool, true, false, List, arith, length,
  Bool-cases,
}
use tx_queue.Memory.{Memory}
use tx_queue.Queue.{BaseTxQueue, IsReady}
use tx_queue.Write.{TxWrite}
use tx_queue.Channel.Safety.{Reach-Inv}
use tx_queue.Jobs.{bytes_of_u64, chunk_size, chunk, count_sent}
use tx_queue.Jobs.Run.{
  TransmitPc, announcing, stamping, stamped, after_stamp, open_stamp, write_stamp, close_stamp,
  looping, sizing, filling, closing, signaling, marking, marked, finished, Run, after_turn,
  after_mark, write_size, write_chunk, close_turn, write_mark, close_mark, begun, further,
}
use tx_queue.Jobs.Run.Invariant.{Setup, Drawn, RunInv, writer_at, not_yet_at}
use tx_queue.Jobs.Run.Outcomes.{count_sent-good, count_sent-bad}
use tx_queue.Jobs.Run.Steps.{RunStep-RunInv}
use tx_queue.Jobs.Run.Rests.{
  HasRoom, latest_head, newest, wrote-HasRoom, Rested, behind, resting, forget, More, Ended,
}

module _ {S : Type 0} (update : S → List ℕ → S) {q : BaseTxQueue} (ready : IsReady q) (m : Memory)
    {low high : ℕ} (h : S) {src_data : List ℕ} (setup : Setup low high src_data) where
  abbrev Kept : Run S → Type 0
  Kept r = RunInv update q m low high h src_data r

  settle_closing :
      {r : Run S} (drawn : ℕ)
      → Kept r
      → r.transmit_pc ≡ closing drawn
      → Rested update q low high r
          (HasRoom q r.system 0)
          (More (r.transmit.total_data + chunk_size r.transmit drawn))
  settle_closing {r} drawn inv at =
      let (draw, (tx, open_tx, _)) = writer_at update inv (closing drawn) at in
      record {
        after = after_turn update q r tx drawn;
        run = further begun (close_turn tx drawn at open_tx);
        rests = tt;
        same_receive_pc = refl;
        no_less = elim (Bool-cases tx.invalidated) [
          | inl bad ↦
              omega (arith, ap (λ t. t.total_data) (count_sent-bad update drawn r.transmit tx bad))
          | inr good ↦ omega (arith, counted draw tx good)
        ];
        gains = λ g.
            let (tx', same, good, _) = g in
            let e : tx' ≡ tx = cc in
            omega (arith, counted draw tx (ap (λ t. t.invalidated) (sym e) ∙ good));
      }
    where
      counted :
          Drawn low high r.transmit drawn
          → (tx : TxWrite) → tx.invalidated ≡ false
          → (count_sent update drawn r.transmit tx).total_data
            ≡ r.transmit.total_data + chunk_size r.transmit drawn
      counted draw tx good =
          let small : r.transmit.total_data + chunk_size r.transmit drawn < 2 ^ 64 =
            unfold chunk_size in
            omega (arith, draw.more, setup.data_fits, ap length inv.same_source) in
          ap (λ t. t.total_data) (count_sent-good update drawn r.transmit tx good small)

  settle_filling :
      {r : Run S} (drawn : ℕ)
      → Kept r
      → r.transmit_pc ≡ filling drawn
      → Rested update q low high r
          (HasRoom q r.system (length (chunk r.transmit drawn) + 0))
          (More (r.transmit.total_data + chunk_size r.transmit drawn))
  settle_filling {r} drawn inv at =
      let (_, (tx, open_tx, _)) = writer_at update inv (filling drawn) at in
      let st =
        write_chunk tx (newest ready inv.reach) (length r.system.received) drawn at open_tx
          (latest_head ready inv.reach) (Reach-Inv ready inv.reach).head_at in
      behind update q low high st refl (omega arith)
        (wrote-HasRoom ready inv.reach tx (chunk r.transmit drawn) 0 open_tx)
        (settle_closing drawn (RunStep-RunInv ready setup inv st) refl)

  pub settle_sizing :
      {r : Run S} (drawn : ℕ)
      → Kept r
      → r.transmit_pc ≡ sizing drawn
      → Rested update q low high r
          (HasRoom q r.system (
            length (bytes_of_u64 (chunk_size r.transmit drawn))
            + (length (chunk r.transmit drawn) + 0)))
          (More (r.transmit.total_data + chunk_size r.transmit drawn))
  settle_sizing {r} drawn inv at =
      let (_, (tx, open_tx, _)) = writer_at update inv (sizing drawn) at in
      let size = bytes_of_u64 (chunk_size r.transmit drawn) in
      let st =
        write_size tx (newest ready inv.reach) (length r.system.received) drawn at open_tx
          (latest_head ready inv.reach) (Reach-Inv ready inv.reach).head_at in
      behind update q low high st refl (omega arith)
        (wrote-HasRoom ready inv.reach tx size (length (chunk r.transmit drawn) + 0) open_tx)
        (settle_filling drawn (RunStep-RunInv ready setup inv st) refl)

  settle_marked :
      {r : Run S} (ok : Bool)
      → Kept r
      → r.transmit_pc ≡ marked ok
      → Rested update q low high r (HasRoom q r.system 0) Ended
  settle_marked {r} true inv at =
      let (_, tx, open_tx, _, _) = writer_at update inv (marked true) at in
      record {
        after = after_mark update q r tx true;
        run = further begun (close_mark tx true at open_tx);
        rests = tt;
        same_receive_pc = refl;
        no_less = omega arith;
        gains = λ _. refl;
      }
  settle_marked {r} false inv at =
      let (_, tx, open_tx, bad, _) = writer_at update inv (marked false) at in
      record {
        after = after_mark update q r tx false;
        run = further begun (close_mark tx false at open_tx);
        rests = tt;
        same_receive_pc = refl;
        no_less = omega arith;
        gains = λ g.
            let (tx', same, good, _) = g in
            let e : tx' ≡ tx = cc in absurd (cc (ap (λ t. t.invalidated) e, good, bad));
      }

  pub settle_marking :
      {r : Run S}
      → Kept r
      → r.transmit_pc ≡ marking
      → Rested update q low high r (HasRoom q r.system (length (bytes_of_u64 0) + 0)) Ended
  settle_marking {r} inv at =
      let (_, (tx, open_tx, _)) = writer_at update inv marking at in
      let st =
        write_mark tx (newest ready inv.reach) (length r.system.received) at open_tx
          (latest_head ready inv.reach) (Reach-Inv ready inv.reach).head_at in
      behind update q low high st refl (omega arith)
        (wrote-HasRoom ready inv.reach tx (bytes_of_u64 0) 0 open_tx)
        (settle_marked _ (RunStep-RunInv ready setup inv st) refl)

  settle_stamped :
      {r : Run S} → Kept r → r.transmit_pc ≡ stamped → Rested update q low high r Unit (λ _. Unit)
  settle_stamped {r} inv at =
      let (tx, open_tx, _) = writer_at update inv stamped at in
      record {
        after = after_stamp update q r tx;
        run = further begun (close_stamp tx at open_tx);
        rests = tt;
        same_receive_pc = refl;
        no_less = omega arith;
        gains = λ _. tt;
      }

  settle_stamping :
      {r : Run S} → Kept r → r.transmit_pc ≡ stamping → Rested update q low high r Unit (λ _. Unit)
  settle_stamping {r} inv at =
      let (tx, open_tx, _, _) = writer_at update inv stamping at in
      let ((t, given), _) = not_yet_at update inv stamping at in
      let st =
        write_stamp t tx (newest ready inv.reach) (length r.system.received) at given open_tx
          (latest_head ready inv.reach) (Reach-Inv ready inv.reach).head_at in
      behind update q low high st refl (omega arith) (λ g. g)
        (settle_stamped (RunStep-RunInv ready setup inv st) refl)

  settle_announcing :
      {r : Run S}
      → Kept r
      → r.transmit_pc ≡ announcing
      → Rested update q low high r Unit (λ _. Unit)
  settle_announcing {r} inv at =
      let ((t, given), _) = not_yet_at update inv announcing at in
      let st = open_stamp t (length r.system.received) at given (latest_head ready inv.reach) in
      behind update q low high st refl (omega arith) (λ g. g)
        (settle_stamping (RunStep-RunInv ready setup inv st) refl)

  -- The producer comes to the end of its transaction, whatever it has come to; one that has not
  -- announced the start time announces it.
  pub settle : {r : Run S} → Kept r → Rested update q low high r Unit (λ _. Unit)
  settle {r} inv = go r.transmit_pc refl
    where
      go : (pc : TransmitPc) → r.transmit_pc ≡ pc → Rested update q low high r Unit (λ _. Unit)
      go TransmitPc.announcing at = settle_announcing inv at
      go TransmitPc.stamping at = settle_stamping inv at
      go TransmitPc.stamped at = settle_stamped inv at
      go TransmitPc.looping at = resting update q low high looping at tt
      go (TransmitPc.sizing d) at = forget update q low high (settle_sizing d inv at)
      go (TransmitPc.filling d) at = forget update q low high (settle_filling d inv at)
      go (TransmitPc.closing d) at = forget update q low high (settle_closing d inv at)
      go TransmitPc.signaling at = resting update q low high signaling at tt
      go TransmitPc.marking at = forget update q low high (settle_marking inv at)
      go (TransmitPc.marked ok) at = forget update q low high (settle_marked ok inv at)
      go TransmitPc.finished at = resting update q low high finished at tt
