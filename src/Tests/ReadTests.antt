-- ===== src/Tests/ReadTests.antt =====
-- The read transaction at the samples.
use tx_queue.Base.{ℕ, ◌≡◌, refl, true, false, List, [], ◌∷◌, pos, arith}
use tx_queue.Memory.{Memory, memcpy_from, store}
use tx_queue.Read.{
  ReadLoads, ReadOut, imp_read, available_data, read_data, read_short, resync, copy_out,
}
use tx_queue.Read.Laws.{Succeeds, Refused, imp_read-Succeeds, imp_read-Refused}
use tx_queue.Tests.Samples.{blank, eight, eight-IsReady, reading, reading-IsReading, tail_loads}

abbrev filled : Memory
filled = store (store (store blank 1006 1) 1007 2) 1000 3

abbrev three : List ℕ
three = 0 ∷ 0 ∷ 0 ∷ []

abbrev done : ReadOut
done = imp_read (tail_loads 1) filled (pos 1) reading three

reads_round : (done.ok ≡ true) × (done.buffer ≡ 1 ∷ 2 ∷ 3 ∷ []) × (done.tx.head ≡ 1)
unfolding imp_read available_data read_data copy_out memcpy_from store
reads_round = (refl, refl, refl)

short_keeps_buffer :
    let r = imp_read (tail_loads 1) filled (pos 1) reading (9 ∷ three) in
    (r.ok ≡ false) × (r.buffer ≡ 9 ∷ three) × (r.yielded ≡ true)
unfolding imp_read available_data resync read_short
short_keeps_buffer = (refl, refl, refl)

-- Two members, of one byte and of two.
abbrev two_members : List (ReadLoads × List ℕ)
two_members = (tail_loads 1, 0 ∷ []) ∷ (tail_loads 1, 0 ∷ 0 ∷ []) ∷ []

imp_read-Succeeds_example :
    Succeeds eight 9 6 filled 3 (imp_read (tail_loads 1) filled (pos 1) reading three)
imp_read-Succeeds_example =
    imp_read-Succeeds eight-IsReady (tail_loads 1) filled (pos 1) 9 9 6 reading three refl
      reading-IsReading (omega arith) (omega arith) refl (omega arith)

imp_read-Refused_example :
    Refused (tail_loads 1) (9 ∷ three) (imp_read (tail_loads 1) filled (pos 1) reading (9 ∷ three))
imp_read-Refused_example =
    imp_read-Refused eight-IsReady (tail_loads 1) filled (pos 1) 9 9 6 reading (9 ∷ three) refl
      reading-IsReading (omega arith) (omega arith) refl (omega arith)
