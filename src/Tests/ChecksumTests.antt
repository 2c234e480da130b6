-- ===== src/Tests/ChecksumTests.antt =====
-- The checksum at small and at large buffers.
use tx_queue.Base.{
  ℕ, ◌≡◌, ◌^◌, refl, List, [], ◌∷◌, length, some, none, replicate, length-replicate, arith,
}
use tx_queue.Checksum.{initial, update, update_from}
use tx_queue.Checksum.Laws.{update_diverges}

-- The sum wraps at 2 ^ 32.
wraps : update (record { checksum = 0xFFFFFFFF }) (3 ∷ 4 ∷ []) ≡ some (record { checksum = 6 })
unfolding update update_from
wraps = refl

unfoldable ones : ℕ → List ℕ
ones n = replicate n 1

length-ones : (n : ℕ) → length (ones n) ≡ n
unfolding ones
length-ones n = length-replicate {A = ℕ} n 1

update_diverges_example : update_from 1000 0 initial (ones (2 ^ 32)) ≡ none
update_diverges_example =
    update_diverges 1000 initial (ones (2 ^ 32)) (omega (arith, length-ones (2 ^ 32)))
