-- ===== src/Jobs/Run/Completion.antt =====
-- From every state of a run the two jobs can come to their end.
use tx_queue.Base.{
  ℕ, zero, suc, ◌+◌, ◌≤◌, ◌<◌, ◌≡◌, refl, ap, ◌∙◌, ◌⊎◌, inl, inr, List, Option, arith, length,
  dec_lt,
}
use tx_queue.Memory.{Memory}
use tx_queue.Queue.{BaseTxQueue, IsReady}
use tx_queue.Jobs.{bytes_of_u64, chunk_size}
use tx_queue.Jobs.Transmit.{length-chunk}
use tx_queue.Jobs.Run.{
  TransmitPc, looping, signaling, finished, stopped, Run, begin, open_turn, RunReach, further,
}
use tx_queue.Jobs.Run.Parts.{Announces}
use tx_queue.Jobs.Run.Invariant.{Setup, RunInv}
use tx_queue.Jobs.Run.Steps.{RunStep-RunInv, RunReach-RunInv}
use tx_queue.Jobs.Run.Safety.{stopped_has_all}
use tx_queue.Jobs.Run.Rests.{latest_head, AtRest, RunReach-trans}
use tx_queue.Jobs.Run.Advance.{settle_sizing, settle}
use tx_queue.Jobs.Run.Drain.{drain}
use tx_queue.Jobs.Run.Pausing.{RunReach-Kept}
use tx_queue.Jobs.Run.Ending.{Stops, first, from_finished, opened-HasRoom, from_signaling, leave}

rest-cases : (pc : TransmitPc) → AtRest pc → (pc ≡ looping) ⊎ ((pc ≡ signaling) ⊎ (pc ≡ finished))
rest-cases TransmitPc.announcing rests = absurd rests
rest-cases TransmitPc.stamping rests = absurd rests
rest-cases TransmitPc.stamped rests = absurd rests
rest-cases TransmitPc.looping rests = inl refl
rest-cases (TransmitPc.sizing _) rests = absurd rests
rest-cases (TransmitPc.filling _) rests = absurd rests
rest-cases (TransmitPc.closing _) rests = absurd rests
rest-cases TransmitPc.signaling rests = inr (inl refl)
rest-cases TransmitPc.marking rests = absurd rests
rest-cases (TransmitPc.marked _) rests = absurd rests
rest-cases TransmitPc.finished rests = inr (inr refl)

module _ {S : Type 0} (update : S → List ℕ → S) {q : BaseTxQueue} (ready : IsReady q) (m : Memory)
    {low high : ℕ} (h : S) {src_data : List ℕ} (setup : Setup low high src_data)
    (in_order : low ≤ high) (room : high + 8 < q.capacity) where
  abbrev Kept : Run S → Type 0
  Kept r = RunInv update q m low high h src_data r

  -- A whole turn of the producer that sends a chunk, behind one of the consumer that empties the
  -- queue.
  record Sends (r : Run S) : Type 0 where
    after : Run S
    run : RunReach update q low high r after
    rests : AtRest after.transmit_pc
    more : r.transmit.total_data < after.transmit.total_data

  send_one :
      {r : Run S}
      → Kept r
      → r.transmit_pc ≡ looping
      → r.transmit.total_data < length src_data
      → Stops update ready m h setup in_order room r ⊎ Sends r
  unfolding chunk_size bytes_of_u64
  send_one {r} inv at left =
      let d = drain update ready m h setup inv in
      let inv' = RunReach-Kept update ready m h setup inv d.run in
      elim (d.done) [
        | inl ends ↦ inl (record { after = d.after; run = d.run; ends = ends })
        | inr (waits, same) ↦
            let total = ap (λ t. t.total_data) d.same_transmit in
            let st =
              open_turn low (length d.after.system.received) (d.same_transmit_pc ∙ at)
                (omega (arith, left, total, ap length inv'.same_source)) (omega arith) in_order
                (latest_head ready inv'.reach) in
            let opened = RunStep-RunInv ready setup inv' st in
            let rest = settle_sizing update ready m h setup low opened refl in
            let sent = rest.gains (
              opened-HasRoom update ready m h setup in_order room d.after.system _ same
                (omega (arith, in_order, length-chunk d.after.transmit low))) in
            inr (record {
              after = rest.after;
              run = RunReach-trans update q low high (further d.run st) rest.run;
              rests = rest.rests;
              more = omega (arith, sent, total, left, setup.some_bytes, ap length inv'.same_source);
            })
      ]

  from_rest :
      (fuel : ℕ) {r : Run S}
      → Kept r
      → AtRest r.transmit_pc
      → length src_data ≤ r.transmit.total_data + fuel
      → Stops update ready m h setup in_order room r
  from_rest zero {r} inv rests enough = elim (rest-cases r.transmit_pc rests) [
    | inl at ↦ leave update ready m h setup in_order room inv at (omega (arith, enough))
    | inr (inl at) ↦ from_signaling update ready m h setup in_order room inv at
    | inr (inr at) ↦ from_finished update ready m h setup in_order room inv at
  ]
  from_rest (suc fuel) {r} inv rests enough = elim (rest-cases r.transmit_pc rests) [
    | inl at ↦ elim (dec_lt r.transmit.total_data (length src_data)) [
      | no all ↦ leave update ready m h setup in_order room inv at (omega (arith, all))
      | yes left ↦ elim (send_one inv at left) [
        | inl stops ↦ stops
        | inr s ↦ first update ready m h setup in_order room (s.run) (
            from_rest fuel (RunReach-Kept update ready m h setup inv s.run) s.rests
              (omega (arith, enough, s.more)))
      ]
    ]
    | inr (inl at) ↦ from_signaling update ready m h setup in_order room inv at
    | inr (inr at) ↦ from_finished update ready m h setup in_order room inv at
  ]

  can_stop_from : {r : Run S} → Kept r → Stops update ready m h setup in_order room r
  can_stop_from {r} inv =
      let s = settle update ready m h setup inv in
      first update ready m h setup in_order room s.run (
        from_rest (length src_data) (RunReach-Kept update ready m h setup inv s.run) s.rests
          (omega arith))

-- From every state that a run of both jobs can come to, in one process or with a start time (not 0,
-- of 64 bits) passed first, on a ready queue with room for a chunk of
-- the greatest size, its size and one byte more, with chunk sizes drawn between a least one above 0
-- and the size of the buffer that receives, and data whose length fits 64 bits, the run can go on to
-- the end of both jobs, with all the data counted and the same hashes.
pub can_stop :
    {S : Type 0} {update : S → List ℕ → S} {q : BaseTxQueue} {m : Memory} {low : ℕ}
    {src_data buffer : List ℕ} {announced : Option ℕ} {h : S} {r : Run S}
    → IsReady q
    → Announces q announced
    → Setup low (length buffer) src_data
    → low ≤ length buffer
    → length buffer + 8 < q.capacity
    → RunReach update q low (length buffer) (begin announced m src_data buffer h) r
    → (t : Run S) × RunReach update q low (length buffer) r t
      × (t.receive_pc ≡ stopped)
      × (t.transmit_pc ≡ finished)
      × (t.receive.total_data ≡ length src_data)
      × (t.receive.hash ≡ t.transmit.hash)
can_stop {update = update} {q} {m} {low} {buffer = buffer} {h} ready announces setup in_order room
      run =
    let s =
      can_stop_from update ready m h setup in_order room
        (RunReach-RunInv ready announces setup run) in
    let (sent, all, same) =
      stopped_has_all ready announces setup (RunReach-trans update q low (length buffer) run s.run)
        s.ends in
    (s.after, s.run, s.ends, sent, all, same)
