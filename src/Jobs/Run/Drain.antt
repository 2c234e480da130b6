-- ===== src/Jobs/Run/Drain.antt =====
-- From any state of a run, the consumer goes on until it has received all that is sent.
use tx_queue.Base.{
  ℕ, zero, suc, ◌+◌, ◌≤◌, ◌<◌, ◌≡◌, refl, ap, ◌∙◌, ◌⊎◌, inl, inr, List, ◌++◌, arith, length,
  length-append, dec_lt,
}
use tx_queue.Memory.{Memory}
use tx_queue.Queue.{BaseTxQueue, IsReady}
use tx_queue.Channel.Safety.{received_in_order}
use tx_queue.Jobs.Run.{stopped, Run, RunReach, begun}
use tx_queue.Jobs.Run.Invariant.{Setup, RunInv}
use tx_queue.Jobs.Run.Rests.{RunReach-trans}
use tx_queue.Jobs.Run.Pauses.{AtPause, Waits, Paused, pause-cases}
use tx_queue.Jobs.Run.Pausing.{pause, pause_waiting, RunReach-Kept}

module _ {S : Type 0} (update : S → List ℕ → S) {q : BaseTxQueue} (ready : IsReady q) (m : Memory)
    {low high : ℕ} (h : S) {src_data : List ℕ} (setup : Setup low high src_data) where
  abbrev Kept : Run S → Type 0
  Kept r = RunInv update q m low high h src_data r

  -- The consumer has stopped, or received all that was sent, and the producer stands where it did.
  pub record Drained (r : Run S) : Type 0 where
    pub after : Run S
    pub run : RunReach update q low high r after
    pub same_transmit_pc : after.transmit_pc ≡ r.transmit_pc
    pub same_transmit : after.transmit ≡ r.transmit
    pub done :
        (after.receive_pc ≡ stopped)
        ⊎ (Waits after.receive_pc × (length after.system.received ≡ length after.system.sent))

  stay :
      {r : Run S}
      → (r.receive_pc ≡ stopped)
        ⊎ (Waits r.receive_pc × (length r.system.received ≡ length r.system.sent))
      → Drained r
  stay {r} done = record {
    after = r;
    run = begun;
    same_transmit_pc = refl;
    same_transmit = refl;
    done = done;
  }

  ahead :
      {r : Run S} {Good : Type 0} (p : Paused update q low high r Good)
      → Drained p.after
      → Drained r
  ahead p rest = record {
    after = rest.after;
    run = RunReach-trans update q low high p.run rest.run;
    same_transmit_pc = rest.same_transmit_pc ∙ p.same_transmit_pc;
    same_transmit = rest.same_transmit ∙ p.same_transmit;
    done = rest.done;
  }

  drain_turn :
      {r : Run S}
      → Kept r
      → AtPause r.receive_pc
      → Drained r ⊎ (Waits r.receive_pc × (length r.system.received < length r.system.sent))
  drain_turn {r} inv pauses = elim (pause-cases r.receive_pc pauses) [
    | inr ended ↦ inl (stay (inl ended))
    | inl at ↦ elim (dec_lt (length r.system.received) (length r.system.sent)) [
      | yes more ↦ inr (at, more)
      | no none_left ↦
          let (left, split) = received_in_order ready inv.reach in
          let same : length r.system.received ≡ length r.system.sent = omega (
            arith,
            none_left,
            ap length split,
            length-append r.system.received (r.system.taken ++ left),
          ) in
          inl (stay (inr (at, same)))
    ]
  ]

  drain_from :
      (fuel : ℕ) {r : Run S}
      → Kept r
      → AtPause r.receive_pc
      → length r.system.sent ≤ length r.system.received + fuel
      → Drained r
  drain_from zero inv pauses enough = elim (drain_turn inv pauses) [
    | inl done ↦ done
    | inr (at, more) ↦ absurd (omega (arith, more, enough))
  ]
  drain_from (suc fuel) inv pauses enough = elim (drain_turn inv pauses) [
    | inl done ↦ done
    | inr (at, more) ↦
        let p = pause_waiting update ready m h setup inv at in
        ahead p (
          drain_from fuel (RunReach-Kept update ready m h setup inv p.run) p.pauses
            (omega (arith, enough, p.gains more, ap length p.same_sent)))
  ]

  -- The consumer receives all that is sent.
  pub drain : {r : Run S} → Kept r → Drained r
  drain {r} inv =
      let p = pause update ready m h setup inv in
      ahead p (
        drain_from (length p.after.system.sent) (RunReach-Kept update ready m h setup inv p.run)
          p.pauses (omega arith))
