-- ===== src/Jobs/Run/Ending.antt =====
-- From a state of a run where the producer has left its loop, the two jobs can come to their end.
use tx_queue.Base.{
  ℕ, ◌+◌, ◌≤◌, ◌<◌, ◌≡◌, refl, sym, ap, ◌∙◌, inl, inr, List, [], ◌∷◌, ◌++◌, arith, length,
  length-append, append-nil, subst,
}
use tx_queue.Memory.{Memory}
use tx_queue.Queue.{BaseTxQueue, IsReady}
use tx_queue.Write.{begin_write}
use tx_queue.Channel.{System, opened_write}
use tx_queue.Jobs.{bytes_of_u64, frame}
use tx_queue.Jobs.Run.{
  unstarted, looping, signaling, finished, stopped, Run, leave_loop, open_mark, RunReach, begun,
  further,
}
use tx_queue.Jobs.Run.Frames.{frames, frames-append, none_empty, length-bytes_of_u64}
use tx_queue.Jobs.Run.Parts.{stamp_of, sends, gets}
use tx_queue.Jobs.Run.Flow.{Progress, Flow}
use tx_queue.Jobs.Run.Pauses.{Waits}
use tx_queue.Jobs.Run.Invariant.{Setup, RunInv, sending_at, receiving_at, time_at}
use tx_queue.Jobs.Run.Steps.{RunStep-RunInv}
use tx_queue.Jobs.Run.Rests.{HasRoom, latest_head, RunReach-trans}
use tx_queue.Jobs.Run.Advance.{settle_marking}
use tx_queue.Jobs.Run.Drain.{drain}
use tx_queue.Jobs.Run.Pausing.{RunReach-Kept}

no_frames : (cs : List (List ℕ)) → length (frames cs) ≡ 0 → cs ≡ []
no_frames [] e = refl
no_frames (c ∷ cs) e = absurd (
    omega (
      arith,
      length-append (frame c) (frames cs),
      length-append (bytes_of_u64 (length c)) c,
      length-bytes_of_u64 (length c),
    ))

module _ {S : Type 0} (update : S → List ℕ → S) {q : BaseTxQueue} (ready : IsReady q) (m : Memory)
    {low high : ℕ} (h : S) {src_data : List ℕ} (setup : Setup low high src_data)
    (in_order : low ≤ high) (room : high + 8 < q.capacity) where
  abbrev Kept : Run S → Type 0
  Kept r = RunInv update q m low high h src_data r

  pub record Stops (r : Run S) : Type 0 where
    pub after : Run S
    pub run : RunReach update q low high r after
    pub ends : after.receive_pc ≡ stopped

  pub first : {r s : Run S} → RunReach update q low high r s → Stops s → Stops r
  first run more = record {
    after = more.after;
    run = RunReach-trans update q low high run more.run;
    ends = more.ends;
  }

  -- Once the mark is sent, a consumer that has received all has stopped.
  all_received :
      {r : Run S}
      → Kept r
      → r.transmit_pc ≡ finished
      → Waits r.receive_pc
      → length r.system.received ≡ length r.system.sent
      → ⊥
  all_received {r} inv sent (inr waits) same =
      let ((t, given), nothing) = time_at update inv unstarted waits in
      omega (
        arith,
        same,
        ap length nothing,
        ap length (sending_at update inv (ap (sends r.announced) sent)).sent_is,
        length-append (stamp_of r.announced)
            (sending_at update inv (ap (sends r.announced) sent)).job_sent,
        ap (λ a. length (stamp_of a)) given,
        length-bytes_of_u64 t,
      )
  all_received {r} inv sent (inl waits) same = none_empty p.got p.chunks [] p.got_full (
      sym (append-nil p.got)
      ∙ sym (append-nil (p.got ++ []))
      ∙ ap (λ t. (p.got ++ []) ++ t) (sym none_left)
      ∙ sym p.split)
    where
      f :
          Flow update high h src_data r.system.sent r.system.received r.transmit.total_data
            r.transmit.hash r.receive.total_data r.receive.hash
            (stamp_of r.announced, [] ∷ [])
            (stamp_of r.announced, [])
      f =
          subst
            (λ t.
              Flow update high h src_data r.system.sent r.system.received r.transmit.total_data
                r.transmit.hash r.receive.total_data r.receive.hash t (stamp_of r.announced, []))
            (ap (sends r.announced) sent) (receiving_at update inv (ap (gets r.announced) waits))

      p :
          Progress update high h src_data f.job_sent f.job_received r.transmit.total_data
            r.transmit.hash r.receive.total_data r.receive.hash
            ([] ∷ [])
            []
      p = f.progress

      none_left : p.rest ≡ []
      none_left = no_frames p.rest (
          omega (
            arith,
            same,
            ap length f.sent_is,
            ap length f.received_is,
            length-append (stamp_of r.announced) f.job_sent,
            length-append (stamp_of r.announced) f.job_received,
            ap length p.received_eq,
            ap length p.sent_eq,
            ap (λ t. length (frames t)) p.split,
            ap length (frames-append (p.got ++ []) p.rest),
            length-append (frames (p.got ++ [])) (frames p.rest),
          ))

  pub from_finished : {r : Run S} → Kept r → r.transmit_pc ≡ finished → Stops r
  from_finished {r} inv at =
      let d = drain update ready m h setup inv in
      elim (d.done) [
        | inl ends ↦ record { after = d.after; run = d.run; ends = ends }
        | inr (waits, same) ↦ absurd (
            all_received (RunReach-Kept update ready m h setup inv d.run) (d.same_transmit_pc ∙ at)
              waits same)
      ]

  pub opened-HasRoom :
      (s : System) (n : ℕ)
      → length s.received ≡ length s.sent
      → n ≤ high + 8
      → HasRoom q (opened_write q s (length s.received)) n
  opened-HasRoom s n same fits =
      (_, refl, unfold begin_write in ground (arith, ready.stored), omega (arith, same, fits, room))

  pub from_signaling : {r : Run S} → Kept r → r.transmit_pc ≡ signaling → Stops r
  unfolding bytes_of_u64
  from_signaling {r} inv at =
      let d = drain update ready m h setup inv in
      let inv' = RunReach-Kept update ready m h setup inv d.run in
      elim (d.done) [
        | inl ends ↦ record { after = d.after; run = d.run; ends = ends }
        | inr (waits, same) ↦
            let st =
              open_mark (length d.after.system.received) (d.same_transmit_pc ∙ at)
                (latest_head ready inv'.reach) in
            let opened = RunStep-RunInv ready setup inv' st in
            let rest = settle_marking update ready m h setup opened refl in
            let ended = rest.gains (opened-HasRoom d.after.system _ same (omega arith)) in
            first (RunReach-trans update q low high (further d.run st) rest.run)
              (from_finished (RunReach-Kept update ready m h setup opened rest.run) ended)
      ]

  pub leave :
      {r : Run S}
      → Kept r
      → r.transmit_pc ≡ looping
      → length src_data ≤ r.transmit.total_data
      → Stops r
  leave inv at all =
      let st = leave_loop at (omega (arith, all, ap length inv.same_source)) in
      first (further begun st) (from_signaling (RunStep-RunInv ready setup inv st) refl)
