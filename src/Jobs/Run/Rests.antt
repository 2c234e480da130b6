-- ===== src/Jobs/Run/Rests.antt =====
-- The producer of a run between two of its transactions, and its writes with loads that return the
-- newest indices.
use tx_queue.Base.{
  ℕ, ◌+◌, ◌-◌, ◌≤◌, ◌<◌, ◌≡◌, refl, sym, ap, ◌∙◌, inl, inr, true, false, List, some, arith, length,
  length-append, pos, minus_one, subst,
}
use tx_queue.Memory.{Memory}
use tx_queue.Queue.{BaseTxQueue, IsReady}
use tx_queue.Write
use tx_queue.Write.{TxWrite, WriteLoads, imp_write}
use tx_queue.Channel.{System, HeadLoad, Reach, wrote}
use tx_queue.Channel.WriteCalls.{write_cases}
use tx_queue.Channel.Safety.{Reach-Inv, Reach-committed}
use tx_queue.Channel.Progress.{write-ok_iff}
use tx_queue.Jobs.Run.{
  TransmitPc, looping, signaling, finished, Run, RunStep, RunReach, begun, further,
}

-- A valid write transaction is open, with room for `n` more bytes.
abbrev pub HasRoom : BaseTxQueue → System → (n : ℕ) → Type 0
HasRoom q s n =
    (tx : TxWrite) × (s.writer ≡ some tx)
    × (tx.invalidated ≡ false)
    × (length s.sent - length s.received + length s.pending + n < q.capacity)

module _ {q : BaseTxQueue} (ready : IsReady q) {m : Memory} {s : System} (r : Reach q m s) where
  pub latest_head : HeadLoad s (length s.received)
  latest_head = record {
    was_stored = (Reach-committed r).0;
    not_older = (Reach-Inv ready r).counts.head_known;
  }

  abbrev pub newest : WriteLoads
  newest = record { head = s.status.head; consumer_core = minus_one; current_core = pos 0 }

  pub wrote-HasRoom :
      (tx : TxWrite) (buffer : List ℕ) (n : ℕ)
      → s.writer ≡ some tx
      → HasRoom q s (length buffer + n)
      → HasRoom q (wrote q s tx newest (length s.received) buffer) n
  wrote-HasRoom tx buffer n open_tx (tx', same, good', room) =
      (out.tx, refl, valid, rw ok (omega (arith, room, length-append s.pending buffer)))
    where
      out : Write.Written
      out = imp_write newest s.memory s.status.producer_core tx buffer

      good : tx.invalidated ≡ false
      good = let e : tx' ≡ tx = cc in ap (λ t. t.invalidated) (sym e) ∙ good'

      ok : out.ok ≡ true
      ok = (write-ok_iff ready r open_tx good newest buffer refl).1 (omega (arith, room))

      valid : out.tx.invalidated ≡ false
      valid =
          elim (write_cases ready (Reach-Inv ready r) tx newest (length s.received) buffer open_tx
            latest_head (Reach-Inv ready r).head_at) [
              | inl done ↦ done.valid
              | inr no_write ↦ absurd (cc (ok, no_write.failed))
            ]

-- Between two transactions of the producer.
abbrev pub AtRest : TransmitPc → Type 0
AtRest looping = Unit
AtRest signaling = Unit
AtRest finished = Unit
AtRest _ = ⊥

module _ {S : Type 0} (update : S → List ℕ → S) (q : BaseTxQueue) (low high : ℕ) where
  pub RunReach-trans :
      {r s t : Run S}
      → RunReach update q low high r s
      → RunReach update q low high s t
      → RunReach update q low high r t
  RunReach-trans run begun = run
  RunReach-trans run (further more st) = further (RunReach-trans run more) st

  -- A state that the producer comes to from `r`, at rest. If `Good` it has come to `Gain`.
  pub record Rested (r : Run S) (Good : Type 0) (Gain : Run S → Type 0) : Type 0 where
    pub after : Run S
    pub run : RunReach update q low high r after
    pub rests : AtRest after.transmit_pc
    pub same_receive_pc : after.receive_pc ≡ r.receive_pc
    pub no_less : r.transmit.total_data ≤ after.transmit.total_data
    pub gains : Good → Gain after

  -- One step more in front.
  pub behind :
      {r s : Run S} {Good Good' : Type 0} {Gain : Run S → Type 0}
      → RunStep update q low high r s
      → s.receive_pc ≡ r.receive_pc
      → r.transmit.total_data ≤ s.transmit.total_data
      → (Good → Good')
      → Rested s Good' Gain
      → Rested r Good Gain
  behind st same less good rest = record {
    after = rest.after;
    run = RunReach-trans (further begun st) rest.run;
    rests = rest.rests;
    same_receive_pc = rest.same_receive_pc ∙ same;
    no_less = omega (arith, less, rest.no_less);
    gains = λ g. rest.gains (good g);
  }

  pub resting :
      {r : Run S} (pc : TransmitPc) → r.transmit_pc ≡ pc → AtRest pc → Rested r Unit (λ _. Unit)
  resting {r} pc at rests = record {
    after = r;
    run = begun;
    rests = subst AtRest (sym at) rests;
    same_receive_pc = refl;
    no_less = omega arith;
    gains = λ _. tt;
  }

  pub forget :
      {r : Run S} {Good : Type 0} {Gain : Run S → Type 0}
      → Rested r Good Gain
      → Rested r Unit (λ _. Unit)
  forget rest = record {
    after = rest.after;
    run = rest.run;
    rests = rest.rests;
    same_receive_pc = rest.same_receive_pc;
    no_less = rest.no_less;
    gains = λ _. tt;
  }

module _ {S : Type 0} where
  abbrev pub More : (total : ℕ) → Run S → Type 0
  More total t = total ≤ t.transmit.total_data

  abbrev pub Ended : Run S → Type 0
  Ended t = t.transmit_pc ≡ finished
