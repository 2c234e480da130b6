-- ===== src/Jobs/Run/Pauses.antt =====
-- The consumer of a run between two of its transactions, and its reads with loads that return the
-- newest indices.
use tx_queue.Base.{
  ℕ, ◌+◌, ◌≤◌, ◌<◌, ◌≡◌, refl, sym, ap, ◌∙◌, ◌⊎◌, inl, inr, true, false, List, some, arith, length,
  pos, minus_one, subst,
}
use tx_queue.Memory.{Memory}
use tx_queue.Queue.{BaseTxQueue, IsReady}
use tx_queue.Read.{TxRead, ReadLoads, ReadOut, imp_read}
use tx_queue.Channel.{System, TailLoad, Reach, did_read}
use tx_queue.Channel.ReadCalls.{read_cases}
use tx_queue.Channel.Safety.{Reach-Inv, Reach-committed}
use tx_queue.Channel.Progress.{read-ok_iff}
use tx_queue.Jobs.Run.{
  ReceivePc, unstarted, awaiting, stopped, Run, RunStep, RunReach, begun, further,
}
use tx_queue.Jobs.Run.Rests.{RunReach-trans}

-- The open read transaction is valid.
abbrev pub HasReader : System → Type 0
HasReader s = (tx : TxRead) × (s.reader ≡ some tx) × (tx.invalidated ≡ false)

module _ {q : BaseTxQueue} (ready : IsReady q) {m : Memory} {s : System} (r : Reach q m s) where
  pub latest_tail : TailLoad s (length s.sent)
  latest_tail = record {
    was_stored = (Reach-committed r).1;
    not_older = (Reach-Inv ready r).counts.tail_known;
  }

  abbrev pub newest : ReadLoads
  newest = record { tail = s.status.tail; producer_core = minus_one; current_core = pos 0 }

  pub did_read-HasReader :
      (tx : TxRead) (buffer : List ℕ)
      → s.reader ≡ some tx
      → HasReader s
      → length s.received + length s.taken + length buffer ≤ length s.sent
      → HasReader (did_read q s tx newest (length s.sent) buffer)
  did_read-HasReader tx buffer open_tx (tx', same, good') there = (out.tx, refl, valid)
    where
      out : ReadOut
      out = imp_read newest s.memory s.status.consumer_core tx buffer

      good : tx.invalidated ≡ false
      good = let e : tx' ≡ tx = cc in ap (λ t. t.invalidated) (sym e) ∙ good'

      ok : out.ok ≡ true
      ok = (read-ok_iff ready r open_tx good newest buffer refl).1 there

      valid : out.tx.invalidated ≡ false
      valid =
          elim (read_cases ready (Reach-Inv ready r) tx newest (length s.sent) buffer open_tx
            latest_tail (Reach-Inv ready r).tail_at) [
              | inl done ↦ done.valid
              | inr no_read ↦ absurd (cc (ok, no_read.failed))
            ]

-- Between two transactions of the consumer.
abbrev pub AtPause : ReceivePc → Type 0
AtPause unstarted = Unit
AtPause awaiting = Unit
AtPause stopped = Unit
AtPause _ = ⊥

abbrev pub Waits : ReceivePc → Type 0
Waits pc = (pc ≡ awaiting) ⊎ (pc ≡ unstarted)

pub pause-cases : (pc : ReceivePc) → AtPause pc → Waits pc ⊎ (pc ≡ stopped)
pause-cases ReceivePc.unstarted pauses = inl (inr refl)
pause-cases ReceivePc.reading_stamp pauses = absurd pauses
pause-cases (ReceivePc.closing_stamp _) pauses = absurd pauses
pause-cases ReceivePc.awaiting pauses = inl (inl refl)
pause-cases ReceivePc.reading_size pauses = absurd pauses
pause-cases (ReceivePc.reading_chunk _) pauses = absurd pauses
pause-cases (ReceivePc.closing_read _) pauses = absurd pauses
pause-cases ReceivePc.stopped pauses = inr refl

module _ {S : Type 0} (update : S → List ℕ → S) (q : BaseTxQueue) (low high : ℕ) where
  -- A state that the consumer comes to from `r`, at a pause. If `Good` it has received more.
  pub record Paused (r : Run S) (Good : Type 0) : Type 0 where
    pub after : Run S
    pub run : RunReach update q low high r after
    pub pauses : AtPause after.receive_pc
    pub same_transmit_pc : after.transmit_pc ≡ r.transmit_pc
    pub same_transmit : after.transmit ≡ r.transmit
    pub same_sent : after.system.sent ≡ r.system.sent
    pub gains : Good → length r.system.received < length after.system.received

  -- One step more in front.
  pub behind :
      {r s : Run S} {Good Good' : Type 0}
      → RunStep update q low high r s
      → s.transmit_pc ≡ r.transmit_pc
      → s.transmit ≡ r.transmit
      → s.system.sent ≡ r.system.sent
      → s.system.received ≡ r.system.received
      → (Good → Good')
      → Paused s Good'
      → Paused r Good
  behind st same_pc same_job same_sent same good rest = record {
    after = rest.after;
    run = RunReach-trans update q low high (further begun st) rest.run;
    pauses = rest.pauses;
    same_transmit_pc = rest.same_transmit_pc ∙ same_pc;
    same_transmit = rest.same_transmit ∙ same_job;
    same_sent = rest.same_sent ∙ same_sent;
    gains = λ g. omega (arith, rest.gains (good g), ap length same);
  }

  pub forget : {r : Run S} {Good : Type 0} → Paused r Good → Paused r ⊥
  forget rest = record {
    after = rest.after;
    run = rest.run;
    pauses = rest.pauses;
    same_transmit_pc = rest.same_transmit_pc;
    same_transmit = rest.same_transmit;
    same_sent = rest.same_sent;
    gains = λ g. absurd g;
  }

  pub pausing : {r : Run S} (pc : ReceivePc) → r.receive_pc ≡ pc → AtPause pc → Paused r ⊥
  pausing {r} pc at pauses = record {
    after = r;
    run = begun;
    pauses = subst AtPause (sym at) pauses;
    same_transmit_pc = refl;
    same_transmit = refl;
    same_sent = refl;
    gains = λ g. absurd g;
  }
