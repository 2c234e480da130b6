-- ===== src/Tests/WriteTests.antt =====
-- The write transaction at the samples.
use tx_queue.Base.{◌≡◌, refl, true, false, [], ◌∷◌, ◌++◌, pos, minus_one, arith}
use tx_queue.Memory.{memcpy_to, store}
use tx_queue.Write.{
  object, by_value, Written, imp_write, available_space, write_room, write_full, resync, copy_in,
  write_items,
}
use tx_queue.Write.Laws.{Succeeds, Refused, imp_write-Succeeds, imp_write-Refused}
use tx_queue.Write.Variants.{AllWritten, write_items-AllWritten}
use tx_queue.Tests.Samples.{
  blank, eight, eight-IsReady, writing, writing-IsWriting, head_loads, message,
}

abbrev done : Written
done = imp_write (head_loads 6) blank (pos 1) writing message

-- Two bytes at the end of the storage, one at its start; the note of the core is cleared.
wraps_round :
    (done.ok ≡ true)
    × (done.memory 1006 ≡ 1)
    × (done.memory 1007 ≡ 2)
    × (done.memory 1000 ≡ 3)
    × (done.tx.tail ≡ 1)
    × (done.producer_core ≡ minus_one)
unfolding imp_write available_space write_room copy_in memcpy_to store
wraps_round = (refl, refl, refl, refl, refl, refl)

-- A full queue is noticed, and the producer yields to a consumer on its core.
full_yields :
    let r = imp_write (head_loads 6) blank (pos 1) writing (message ++ message ++ message) in
    (r.ok ≡ false) × (r.yielded ≡ true) × (r.producer_core ≡ pos 2)
unfolding imp_write available_space resync write_full
full_yields = (refl, refl, refl)

imp_write-Succeeds_example :
    Succeeds eight 5 6 blank message (imp_write (head_loads 6) blank (pos 1) writing message)
imp_write-Succeeds_example =
    imp_write-Succeeds eight-IsReady (head_loads 6) blank (pos 1) 5 6 6 writing message refl
      writing-IsWriting (omega arith) (omega arith) refl (omega arith)

imp_write-Refused_example :
    Refused
      (head_loads 6)
      blank
      (imp_write (head_loads 6) blank (pos 1) writing (message ++ message ++ message))
imp_write-Refused_example =
    imp_write-Refused eight-IsReady (head_loads 6) blank (pos 1) 5 6 6 writing
      (message ++ message ++ message) refl writing-IsWriting (omega arith) (omega arith) refl
      (omega arith)

write_items-AllWritten_example : AllWritten eight 6 6 blank (message ++ message) (
    write_items blank
      (pos 1)
      writing
      (head_loads 6, object message)
      ((head_loads 6, by_value message) ∷ []))
write_items-AllWritten_example =
    write_items-AllWritten eight-IsReady 6 blank (pos 1) 5 6 writing (head_loads 6) (object message)
      ((head_loads 6, by_value message) ∷ []) refl writing-IsWriting (omega arith) (omega arith)
      refl tt (refl, tt) (omega arith)
