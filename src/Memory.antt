-- ===== src/Memory.antt =====
-- Memory as the queue uses it: bytes at addresses, and `memcpy` to and from a buffer.
pub mod Ring
use tx_queue.Base.{ℕ, zero, suc, ◌+◌, List, [], ◌∷◌, ◌==◌, if◌then◌else◌}

-- The byte at each address. Address 0 is the null pointer.
abbrev pub Memory : Type 0
Memory = ℕ → ℕ

abbrev pub nullptr : ℕ
nullptr = 0

unfoldable pub store : Memory → ℕ → ℕ → Memory
store m a b x = if x == a then b else m x

-- `memcpy(dst, buffer, size)` with the buffer's `size` bytes as a list.
unfoldable pub memcpy_to : Memory → ℕ → List ℕ → Memory
memcpy_to m dst [] = m
memcpy_to m dst (b ∷ bs) = memcpy_to (store m dst b) (dst + 1) bs

-- The bytes that `memcpy(buffer, src, size)` leaves in the buffer.
unfoldable pub memcpy_from : Memory → ℕ → ℕ → List ℕ
memcpy_from m src zero = []
memcpy_from m src (suc n) = m src ∷ memcpy_from m (src + 1) n
