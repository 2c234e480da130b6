-- ===== src/SharedMemory/Laws.antt =====
-- What the two processes see of the section.
use tx_queue.Base.{
  ℕ, ◌⊎◌, List, [], ◌∷◌, ◌++◌, ap, ◌∙◌, ◌==◌, false, not, ◌+◌, ◌*◌, ◌^◌, ◌<◌, ◌≡◌, ◌≢◌, refl, some,
  arith,
}
use tx_queue.Words.{shr}
use tx_queue.Words.Bits.{bit_and_mask}
use tx_queue.Memory.{nullptr}
use tx_queue.Queue.{cache_line_size}
use tx_queue.SharedMemory.{
  invalid, null, opened, Shared, Answers, holds, split_size, create_buffer, open_buffer,
  create_or_open, shared_memory, dereference, destroy,
}

-- The halves fit 32 bits each, and are the size together, for a size of 64 bits.
pub split_size_lem :
    (size : ℕ)
    → size < 2 ^ 64
    → let halves = split_size size in
      (halves.0 < 2 ^ 32) × (halves.1 < 2 ^ 32) × (halves.0 * 2 ^ 32 + halves.1 ≡ size)
unfolding split_size
split_size_lem size fits = omega (arith, bit_and_mask 32 (shr size 32), bit_and_mask 32 size)

-- A process that creates the section with a size that is not 0, and one that opens it then, when
-- the system gives both a handle and a view: the second learns the size of the first, and the
-- buffer of each begins a cache line behind its view.
pub open_learns_size :
    (file file' view view' size header : ℕ)
    → size ≢ 0
    → view ≢ nullptr
    → view' ≢ nullptr
    → let producer = shared_memory (record { mapping = opened file; view = view }) size header in
      let consumer = shared_memory (record { mapping = opened file'; view = view' }) 0 producer.1 in
      (consumer.0.size ≡ size)
      × (consumer.1 ≡ size)
      × (producer.0.map_buffer ≡ view + cache_line_size)
      × (consumer.0.map_buffer ≡ view' + cache_line_size)
unfolding shared_memory create_or_open create_buffer open_buffer holds
open_learns_size file file' view view' size header sized there there' = ground arith

-- Opening a section that is not there yet leaves no buffer, and a dereference then tries again: it
-- gives the buffer that opening the section at that moment gives.
pub dereference_retries :
    (os : Answers) (view header header' : ℕ)
    → let early = shared_memory (record { mapping = null; view = view }) 0 header in
      (early.0.map_buffer ≡ nullptr)
      × (dereference os early.0 header' ≡ create_or_open os early.0 header')
      × ((dereference os early.0 header').0.map_buffer ≡ (shared_memory os 0 header').0.map_buffer)
unfolding shared_memory create_or_open create_buffer open_buffer holds dereference
dereference_retries os view header header' = (refl, refl, ground arith)

-- What `MapViewOfFile` gave, if it was called.
abbrev pub MapsNothing : Answers × ℕ → Type 0
MapsNothing (os, header) = (holds os.mapping ≡ false) ⊎ (os.view ≡ nullptr)

abbrev pub AllMapNothing : List (Answers × ℕ) → Type 0
AllMapNothing [] = Unit
AllMapNothing (a ∷ attempts) = MapsNothing a × AllMapNothing attempts

-- Dereferences in a row, each with what the system answers if it is asked, and the word in front of
-- the section.
abbrev pub dereferences : Shared → List (Answers × ℕ) → Shared
dereferences s [] = s
dereferences s ((os, header) ∷ attempts) = dereferences (dereference os s header).0 attempts

-- Before the constructor has asked the system.
abbrev pub unmade : (size : ℕ) → Shared
unmade size = record {
  map_buffer = nullptr;
  map_file = invalid;
  size = size;
  create = not (size == 0);
}

-- The first attempt is that of the constructor, and the others are dereferences behind it.
abbrev pub uses : (size : ℕ) (attempts : List (Answers × ℕ)) → Shared
uses size [] = unmade size
uses size ((os, header) ∷ attempts) = dereferences (shared_memory os size header).0 attempts

-- A buffer that is there stays.
dereferences-there :
    (s : Shared) (attempts : List (Answers × ℕ))
    → s.map_buffer ≢ nullptr
    → dereferences s attempts ≡ s
unfolding dereference
dereferences-there s [] there = refl
dereferences-there s (a ∷ attempts) there =
    let e : (s.map_buffer == nullptr) ≡ false = ground arith in
    rw e (dereferences-there s attempts there)

module _ (file view header : ℕ) (mapped : view ≢ nullptr) where
  -- The attempt that maps, in either process.
  maps :
      (s : Shared)
      → s.map_buffer ≡ nullptr
      → let done = (dereference (record { mapping = opened file; view = view }) s header).0 in
        (done.map_buffer ≡ view + cache_line_size) × (done.map_file ≡ opened file)
  unfolding dereference create_or_open create_buffer open_buffer holds
  maps s none_yet = ground (arith, mapped)

  found_later :
      (s : Shared) (early later : List (Answers × ℕ))
      → s.map_buffer ≡ nullptr
      → AllMapNothing early
      → let all = early ++ ((record { mapping = opened file; view = view }, header) ∷ later) in
        ((dereferences s all).map_buffer ≡ view + cache_line_size)
        × ((dereferences s all).map_file ≡ opened file)
  unfolding dereference create_or_open create_buffer open_buffer
  found_later s [] later none_yet failed =
      let done = (dereference (record { mapping = opened file; view = view }) s header).0 in
      let (at, of) = maps s none_yet in
      let same = dereferences-there done later (omega (arith, at)) in
      (ap (λ t. t.map_buffer) same ∙ at, ap (λ t. t.map_file) same ∙ of)
  found_later s (a ∷ early) later none_yet failed =
      found_later (dereference a.0 s a.1).0 early later (ground (arith, none_yet, failed.0))
        failed.1

uses-dereferences :
    (size : ℕ) (attempts : List (Answers × ℕ))
    → uses size attempts ≡ dereferences (unmade size) attempts
unfolding shared_memory dereference
uses-dereferences size [] = refl
uses-dereferences size (a ∷ attempts) = refl

-- In either process, whatever the number of attempts that gave no view, the first in the constructor
-- and the others in dereferences, and the number of dereferences behind the attempt that gave a view:
-- the destructor closes the handle of that attempt, and unmaps an address that is a cache line behind
-- its view.
pub destroy_behind_view :
    (file view size header : ℕ) (early later : List (Answers × ℕ))
    → view ≢ nullptr
    → AllMapNothing early
    → let all = early ++ ((record { mapping = opened file; view = view }, header) ∷ later) in
      destroy (uses size all) ≡ (some (view + cache_line_size), some (opened file))
unfolding destroy
destroy_behind_view file view size header early later there none_early =
    let all = early ++ ((record { mapping = opened file; view = view }, header) ∷ later) in
    let (at, of) = found_later file view header there (unmade size) early later refl none_early in
    let present : (view + cache_line_size == nullptr) ≡ false = ground arith in
    rw (uses-dereferences size all, at, of, present) refl
