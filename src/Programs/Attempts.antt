-- ===== src/Programs/Attempts.antt =====
-- What the test programs make of the shared memory: what the producer makes, and what the consumer
-- finds, after any number of attempts, or does not find.
use tx_queue.Base.{
  ℕ, zero, suc, ◌+◌, ◌≡◌, ◌≢◌, refl, ap, ◌∙◌, List, ◌∷◌, ◌++◌, arith, Bool, true, false, ◌==◌,
  replicate,
}
use tx_queue.Memory.{nullptr}
use tx_queue.Queue.{cache_line_size}
use tx_queue.SharedMemory.{
  opened, null, Shared, Answers, holds, create_buffer, open_buffer, create_or_open, shared_memory,
  dereference,
}
use tx_queue.Programs.{share_memory_size, producer_memory, Attempt, wait, consumer_memory}

-- An answer that says that the section is not there, with time left.
abbrev pub too_early : Attempt
too_early = record {
  answers = record { mapping = null; view = nullptr };
  header = 0;
  in_time = true;
}

-- What the consumer has of the shared memory when it is not there yet.
abbrev pub unopened : Shared
unopened = record { map_buffer = nullptr; map_file = null; size = 0; create = false }

abbrev pub found : (file view header : ℕ) → Shared
found file view header = record {
  map_buffer = view + cache_line_size;
  map_file = opened file;
  size = header;
  create = false;
}

not_yet : (header : ℕ) → (shared_memory too_early.answers 0 header).0 ≡ unopened
unfolding shared_memory create_or_open open_buffer holds
not_yet header = refl

still_not : (dereference too_early.answers unopened 0).0 ≡ unopened
unfolding dereference create_or_open open_buffer holds
still_not = refl

finds :
    (file view header : ℕ)
    → view ≢ nullptr
    → (dereference (record { mapping = opened file; view = view }) unopened header).0
      ≡ found file view header
unfolding dereference create_or_open open_buffer holds
finds file view header there = ground arith

wait-found :
    (n file view header : ℕ) (in_time : Bool) (more : List Attempt)
    → view ≢ nullptr
    → wait
        (replicate n too_early
          ++ record {
            answers = record { mapping = opened file; view = view };
            header = header;
            in_time = in_time;
          }
            ∷ more)
        unopened
      ≡ found file view header
wait-found zero file view header in_time more there =
    let there_now : (view + cache_line_size == nullptr) ≡ false = ground arith in
    rw (finds file view header there, there_now) refl
wait-found (suc n) file view header in_time more there =
    rw still_not (wait-found n file view header in_time more there)

-- The last answer, when the time is over.
abbrev pub too_late : Attempt
too_late = record too_early { in_time = false }

wait-none :
    (n : ℕ) (more : List Attempt)
    → wait (replicate n too_early ++ too_late ∷ more) unopened ≡ unopened
wait-none zero more = rw still_not refl
wait-none (suc n) more = rw still_not (wait-none n more)

pub consumer_memory-none :
    (header n : ℕ) (more : List Attempt)
    → consumer_memory too_early.answers header (replicate n too_early ++ too_late ∷ more) too_late
      ≡ unopened
unfolding consumer_memory
consumer_memory-none header n more =
    ap
      (λ t. (dereference too_early.answers (wait (replicate n too_early ++ too_late ∷ more) t) 0).0)
      (not_yet header)
    ∙ ap (λ t. (dereference too_early.answers t 0).0) (wait-none n more)
    ∙ still_not

-- The attempt that finds the section, with the word in front of it.
abbrev pub finding : (file view header : ℕ) (in_time : Bool) → Attempt
finding file view header in_time = record {
  answers = record { mapping = opened file; view = view };
  header = header;
  in_time = in_time;
}

kept :
    (os : Answers) (file view header header' : ℕ)
    → (dereference os (found file view header) header').0 ≡ found file view header
unfolding dereference
kept os file view header header' =
    let there : (view + cache_line_size == nullptr) ≡ false = ground arith in rw there refl

pub consumer_memory-found :
    (header n file view size : ℕ) (in_time : Bool) (more : List Attempt) (last : Attempt)
    → view ≢ nullptr
    → consumer_memory too_early.answers header
        (replicate n too_early ++ finding file view size in_time ∷ more)
        last
      ≡ found file view size
unfolding consumer_memory
consumer_memory-found header n file view size in_time more last there =
    let attempts = replicate n too_early ++ finding file view size in_time ∷ more in
    ap (λ t. (dereference last.answers (wait attempts t) last.header).0) (not_yet header)
    ∙ ap (λ t. (dereference last.answers t last.header).0)
        (wait-found n file view size in_time more there)
    ∙ kept last.answers file view size last.header

-- What the producer's program has of the shared memory that it made.
abbrev pub made_here : (file view : ℕ) → Shared
made_here file view = record {
  map_buffer = view + cache_line_size;
  map_file = opened file;
  size = share_memory_size;
  create = true;
}

pub makes :
    (file view header : ℕ)
    → view ≢ nullptr
    → shared_memory (record { mapping = opened file; view = view }) share_memory_size header
      ≡ (made_here file view, share_memory_size)
unfolding shared_memory create_or_open create_buffer holds
makes file view header there =
    let mapped : (view == nullptr) ≡ false = ground arith in rw mapped refl

pub produced :
    (file view header : ℕ) (again : Answers)
    → view ≢ nullptr
    → producer_memory (record { mapping = opened file; view = view }) again header
      ≡ made_here file view
unfolding producer_memory dereference
produced file view header again there =
    let moved : (view + cache_line_size == nullptr) ≡ false = ground arith in
    ap (λ t. (dereference again t.0 t.1).0) (makes file view header there) ∙ rw moved refl
