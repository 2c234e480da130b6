-- ===== src/Programs/Start.antt =====
-- What the test programs do up to the test: when their queues are there, and when they are not.
use tx_queue.Base.{
  ℕ, ◌+◌, ◌%◌, ◌^◌, ◌≡◌, ◌≢◌, refl, ap, ◌∙◌, List, ◌∷◌, ◌++◌, arith, none, some, Bool, false, ◌==◌,
  pos, minus_one, replicate,
}
use tx_queue.Memory.{nullptr}
use tx_queue.Queue.{
  TxQueueStatus, IsReady, is_ok, cache_line_size, smear, round_up, tx_queue_sp, tx_queue_mp,
  mp_queue,
}
use tx_queue.Queue.Construct.{tx_queue_sp-IsReady, tx_queue_mp-IsReady}
use tx_queue.SharedMemory.{
  opened, Answers, holds, create_buffer, create_or_open, shared_memory, dereference,
}
use tx_queue.Programs.{
  Text, k_queue_size, exits, launch, main_intra, launch_on, share_memory_size, producer_memory,
  main_producer, Attempt, consume_from, main_consumer,
}
use tx_queue.Programs.Attempts.{
  too_early, too_late, finding, found, makes, produced, consumer_memory-none, consumer_memory-found,
}

round_up-k_queue_size : round_up k_queue_size ≡ 2 ^ 14
unfolding round_up smear
round_up-k_queue_size = refl

-- The program of one process exits with 1 if the allocation of its queue fails; else the queue is
-- ready, with a capacity of 2 ^ 14, and the arguments decide.
pub main_intra_lem :
    (alloc : ℕ → ℕ) (raw_tail raw_head : ℕ) (argv : List Text)
    → let made = tx_queue_sp alloc raw_tail raw_head k_queue_size in
      (alloc (2 ^ 14) ≡ nullptr → main_intra alloc raw_tail raw_head argv ≡ exits (pos 1))
      × (alloc (2 ^ 14) ≢ nullptr
          → (main_intra alloc raw_tail raw_head argv ≡ launch argv)
            × IsReady made.queue
            × (made.queue.capacity ≡ 2 ^ 14))
unfolding main_intra tx_queue_sp is_ok
main_intra_lem alloc raw_tail raw_head argv = (
  λ failed. ground (arith, round_up-k_queue_size, failed),
  λ there.
      let (ready, _, _, _) =
        tx_queue_sp-IsReady alloc raw_tail raw_head k_queue_size (omega arith) (omega arith)
          (ground (arith, round_up-k_queue_size, there)) in
      (ground (arith, round_up-k_queue_size, there), ready, round_up-k_queue_size),
)

launch_on_ready :
    (there : TxQueueStatus) (view : ℕ) (argv : List Text)
    → view ≢ nullptr
    → view % cache_line_size ≡ 0
    → launch_on (tx_queue_mp there (view + cache_line_size) share_memory_size) argv
      ≡ some (launch argv)
launch_on_ready there view argv mapped aligned =
    let (q, s, made, ready, _, _, _, _, _) =
      tx_queue_mp-IsReady there (view + cache_line_size) share_memory_size 14 (omega arith)
        (omega arith) (omega arith) refl (omega arith) in
    rw (made, ready.stored) refl

-- A section of size 0, as it is before the producer has stored the size.
launch_on_unsized :
    (there : TxQueueStatus) (view : ℕ) (argv : List Text)
    → launch_on (tx_queue_mp there (view + cache_line_size) 0) argv ≡ some (exits minus_one)
unfolding tx_queue_mp mp_queue is_ok
launch_on_unsized there view argv = ground arith

-- The producer's program that gets its section and view, and the consumer's that is started before
-- the section is there and finds it after any number of attempts in time, with views aligned to the
-- cache line. The producer makes its queue and goes on to what its arguments say. If the consumer
-- finds the section when the producer has stored the size in front, so does it; if it finds it between
-- the two, with 0 in front, it exits with -1.
pub both_launch :
    (file file' view view' header n : ℕ) (again : Answers) (in_time : Bool) (more : List Attempt)
    (last : Attempt) (there there' : TxQueueStatus) (argv argv' : List Text)
    → view ≢ nullptr
    → view' ≢ nullptr
    → view % cache_line_size ≡ 0
    → view' % cache_line_size ≡ 0
    → let os : Answers = record { mapping = opened file; view = view } in
      let size = (shared_memory os share_memory_size header).1 in
      (main_producer os again header there argv ≡ some (launch argv))
      × (main_consumer too_early.answers header
            (replicate n too_early ++ finding file' view' size in_time ∷ more)
            last
            there'
            argv'
          ≡ some (launch argv'))
      × (main_consumer too_early.answers header
            (replicate n too_early ++ finding file' view' 0 in_time ∷ more)
            last
            there'
            argv'
          ≡ some (exits minus_one))
unfolding main_producer main_consumer consume_from
both_launch file file' view view' header n again in_time more last there there' argv argv' mapped
      mapped' aligned aligned' =
    let here : (view' + cache_line_size == nullptr) ≡ false = ground arith in
    (
      ap (λ t. launch_on (tx_queue_mp there t.map_buffer share_memory_size) argv)
            (produced file view header again mapped)
          ∙ launch_on_ready there view argv mapped aligned,
      ap (λ t. consume_from t there' argv')
            (consumer_memory-found header n file' view' _ in_time more last mapped')
          ∙ ap (λ t. consume_from (found file' view' t.1) there' argv')
              (makes file view header mapped)
          ∙ rw here (launch_on_ready there' view' argv' mapped' aligned'),
      ap (λ t. consume_from t there' argv')
            (consumer_memory-found header n file' view' 0 in_time more last mapped')
          ∙ rw here (launch_on_unsized there' view' argv'),
    )

-- When every answer until the time is over, and the one to the last test, is that the section is
-- not there, the consumer's program exits with -1, whatever its arguments. When the producer's
-- program cannot make the section it does not come to its own test: the constructor of the queue
-- faults at the null pointer.
pub no_section :
    (header n : ℕ) (more : List Attempt) (there : TxQueueStatus) (argv : List Text)
    → (main_consumer too_early.answers header
          (replicate n too_early ++ too_late ∷ more)
          too_late
          there
          argv
        ≡ some (exits minus_one))
      × (main_producer too_early.answers too_early.answers header there argv ≡ none)
unfolding main_consumer consume_from main_producer producer_memory shared_memory create_or_open
    create_buffer holds dereference tx_queue_mp
no_section header n more there argv =
    (ap (λ t. consume_from t there argv) (consumer_memory-none header n more), refl)
