-- ===== src/SharedMemory.antt =====
-- utests/common/shared-memory.h and .inl: a section of memory that two processes map, with its size
-- in front. What the operating system answers is given to the operations.
pub mod Laws
use Prim.Native.Nat.{bit_and}
use tx_queue.Base.{ℕ, ◌+◌, ◌-◌, Bool, true, false, not, Option, none, some, ◌==◌, if◌then◌else◌}
use tx_queue.Words.{add64, shr, u32_mod}
use tx_queue.Memory.{nullptr}
use tx_queue.Queue.{cache_line_size}

-- `INVALID_HANDLE_VALUE`, the null handle, and any other.
pub data Handle : Type 0 where
  invalid : Handle
  null : Handle
  opened : ℕ → Handle

pub record Shared : Type 0 where
  pub map_buffer : ℕ
  pub map_file : Handle
  pub size : ℕ
  pub create : Bool

-- What `CreateFileMappingW` or `OpenFileMappingW` returns, and then `MapViewOfFile`: an address, or
-- the null pointer.
pub record Answers : Type 0 where
  pub mapping : Handle
  pub view : ℕ

-- A handle as a condition: all but the null handle hold.
unfoldable pub holds : Handle → Bool
holds null = false
holds _ = true

-- The two halves of the size, high and low.
unfoldable pub split_size : ℕ → ℕ × ℕ
split_size size = (bit_and (shr size 32) (u32_mod - 1), bit_and size (u32_mod - 1))

-- `create_buffer`, with the first word of the section before and after it.
unfoldable pub create_buffer : Answers → Shared → (header : ℕ) → Shared × ℕ
create_buffer os s header =
    let buffer = if holds os.mapping then os.view else s.map_buffer in
    if buffer == nullptr
    then (record s { map_file = os.mapping; map_buffer = buffer }, header)
    else (record s { map_file = os.mapping; map_buffer = buffer + cache_line_size }, s.size)

-- `open_buffer`, which reads the first word of the section.
unfoldable pub open_buffer : Answers → Shared → (header : ℕ) → Shared
open_buffer os s header =
    if not (holds os.mapping)
    then record s { map_file = os.mapping }
    else if os.view == nullptr
    then record s { map_file = os.mapping; map_buffer = os.view }
    else record s { map_file = os.mapping; map_buffer = os.view + cache_line_size; size = header }

unfoldable pub create_or_open : Answers → Shared → (header : ℕ) → Shared × ℕ
create_or_open os s header =
    if s.create then create_buffer os s header else (open_buffer os s header, header)

-- The constructor.
unfoldable pub shared_memory : Answers → (size header : ℕ) → Shared × ℕ
shared_memory os size header =
    create_or_open os
      (record { map_buffer = nullptr; map_file = invalid; size = size; create = not (size == 0) })
      header

-- `operator*`, which tries again if there is no buffer: the address is `map_buffer` afterwards.
unfoldable pub dereference : Answers → Shared → (header : ℕ) → Shared × ℕ
dereference os s header =
    if s.map_buffer == nullptr then create_or_open os s header else (s, header)

-- The destructor: the address that is unmapped, and the handle that is closed.
unfoldable pub destroy : Shared → Option ℕ × Option Handle
destroy s = (
  if s.map_buffer == nullptr then none else some s.map_buffer,
  elim s.map_file [ invalid ↦ none | h ↦ some h ],
)
