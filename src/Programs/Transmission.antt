-- ===== src/Programs/Transmission.antt =====
-- The set-up of the jobs in `transmision` of each test program, and how its run ends on the queue
-- that its `main` makes: utests/intra/main.cpp, utests/inter/producer.cpp, utests/inter/consumer.cpp.
use tx_queue.Base.{
  ℕ, ◌+◌, ◌≤◌, ◌<◌, ◌^◌, ◌%◌, ◌≡◌, ◌≢◌, sym, ap, ◌∙◌, subst, List, Option, none, some, arith, refl,
  minus_one, length,
}
use native.Mathlib.Nat.{one-le-pow}
use tx_queue.Memory.{Memory, nullptr}
use tx_queue.Queue.{
  BaseTxQueue, TxQueueStatus, IsReady, cache_line_size, round_up, tx_queue_sp, tx_queue_mp,
  usable_capacity,
}
use tx_queue.Queue.Construct.{tx_queue_sp-IsReady, tx_queue_mp-IsReady}
use tx_queue.Jobs.Hashes.{Verification, Hashes, initial_hashes, update_hashes}
use tx_queue.Jobs.Settings.{
  UtestJob, utest_job, set_start_time, TransmitSettings, set_data, set_minmax_chunk_size,
  ReceiveSettings, set_max_chunk_size,
}
use tx_queue.Jobs.Run.{finished, stopped, Run, begin, RunReach}
use tx_queue.Jobs.Run.Parts.{Announces}
use tx_queue.Jobs.Run.Invariant.{Setup}
use tx_queue.Jobs.Run.Rests.{RunReach-trans}
use tx_queue.Jobs.Run.Completion.{can_stop}
use tx_queue.Jobs.Run.Verified.{both_hashed}
use tx_queue.Programs.{
  k_queue_size, k_min_chunk_size, k_max_chunk_size, k_producer_max_chunk_size,
  k_consumer_max_chunk_size, share_memory_size, sample_data, transmision_result,
}
use tx_queue.Programs.Result.{program-Setup, transmision_result_same, length-sample_data}

pub record Producer : Type 0 where
  pub job : UtestJob
  pub settings : TransmitSettings

pub record Consumer : Type 0 where
  pub job : UtestJob
  pub settings : ReceiveSettings

-- "prepare tests" of utests/intra/main.cpp. What the constructors leave is what is there.
unfoldable pub intra_setup :
    (start_time : ℕ) (sample : List ℕ) → Producer → Consumer → Producer × Consumer
intra_setup start_time sample producer consumer = (
  record {
    job = set_start_time start_time (utest_job producer.job);
    settings =
        set_minmax_chunk_size k_min_chunk_size k_max_chunk_size (set_data sample producer.settings);
  },
  record {
    job = set_start_time start_time (utest_job consumer.job);
    settings = set_max_chunk_size k_max_chunk_size consumer.settings;
  },
)

-- The same in utests/inter/producer.cpp.
unfoldable pub producer_setup : (start_time : ℕ) (sample : List ℕ) → Producer → Producer
producer_setup start_time sample producer = record {
  job = set_start_time start_time (utest_job producer.job);
  settings =
      set_minmax_chunk_size 147 k_producer_max_chunk_size (set_data sample producer.settings);
}

-- The same in utests/inter/consumer.cpp, with the start time that was read.
unfoldable pub consumer_setup : (start_time : ℕ) → Consumer → Consumer
consumer_setup start_time consumer = record {
  job = set_start_time start_time (utest_job consumer.job);
  settings = set_max_chunk_size k_consumer_max_chunk_size consumer.settings;
}

-- Both jobs come to an end from `r`, with all the data received, and hashes that agree.
abbrev pub EndsWell :
    (v : Verification)
    → (Agree : (producer consumer : Hashes) → Type 0) → BaseTxQueue
    → (low high : ℕ) (sample : List ℕ) → Run (Option Hashes)
    → Type 0
EndsWell v Agree q low high sample r =
    (t : Run (Option Hashes)) × RunReach (update_hashes v) q low high r t
    × (t.receive_pc ≡ stopped)
    × (t.transmit_pc ≡ finished)
    × (t.receive.total_data ≡ length sample)
    × ((producer : Hashes) × (consumer : Hashes) × (t.transmit.hash ≡ some producer)
        × (t.receive.hash ≡ some consumer)
        × Agree producer consumer)

-- The hashes for which the program in one process returns 0.
abbrev pub Returns0 : (v : Verification) (producer consumer : Hashes) → Type 0
Returns0 v producer consumer = transmision_result v producer consumer ≡ 0

abbrev pub SameHashes : (producer consumer : Hashes) → Type 0
SameHashes producer consumer = producer ≡ consumer

ends_well :
    {Agree : (producer consumer : Hashes) → Type 0} {q : BaseTxQueue} {m : Memory}
    (v : Verification) (agree : (h : Hashes) → Agree h h) {low high : ℕ} {sample buffer : List ℕ}
    {announced : Option ℕ} {r : Run (Option Hashes)}
    → IsReady q
    → Announces q announced
    → length buffer ≡ high
    → Setup low high sample
    → length sample < 2 ^ 32
    → low ≤ high
    → high + 8 < q.capacity
    → RunReach
        (update_hashes v)
        q
        low
        high
        (begin announced m sample buffer (some initial_hashes))
        r
    → EndsWell v Agree q low high sample r
ends_well {q = q} {m} v agree {low} {high} {sample} {buffer} {announced} {r} ready announces size
      setup short in_order room run =
    let (t, more, at, sent, all, same) =
      can_stop ready announces setup' (omega (arith, in_order, size)) (omega (arith, room, size))
        run' in
    let (h, received, kept) =
      both_hashed ready announces setup' v short
        (RunReach-trans (update_hashes v) q low (length buffer) run' more) at in
    (
      t,
      subst (λ n. RunReach (update_hashes v) q low n r t) size more,
      at,
      sent,
      all,
      (h, h, kept, received, agree h),
    )
  where
    setup' : Setup low (length buffer) sample
    setup' = subst (λ n. Setup low n sample) (sym size) setup

    run' :
        RunReach
          (update_hashes v)
          q
          low
          (length buffer)
          (begin announced m sample buffer (some initial_hashes))
          r
    run' =
        subst
          (λ n.
            RunReach (update_hashes v) q low n
              (begin announced m sample buffer (some initial_hashes)) r)
          (sym size) run

ready_capacity :
    {q : BaseTxQueue} {n : ℕ} → IsReady q → 0 < n → n ≤ usable_capacity q + 1 → n ≤ q.capacity
unfolding usable_capacity
ready_capacity {q} {n} ready some_bytes large =
    let pos : 1 ≤ q.capacity = let p = one-le-pow ready.log 2 in omega (arith, ready.power, p) in
    omega (arith, large, pos)

-- The program in one process, with any verification, on the queue of 16 KiB that its `main` makes if
-- the memory for it is there, and with less than 2 ^ 32 bytes of data: from every state that its two
-- jobs, set up as it does, can come to in any interleaving, they can go on to the end of both, with
-- all the data received, and the program then returns 0.
pub intra_can_finish :
    (alloc : ℕ → ℕ) (raw_tail raw_head start_time : ℕ) (v : Verification) (dis_byte : ℕ → ℕ)
    (size : ℕ) (producer : Producer) (consumer : Consumer) (m : Memory) (buffer : List ℕ)
    {r : Run (Option Hashes)}
    → alloc (round_up k_queue_size) ≢ nullptr
    → size < 2 ^ 32
    → let q = (tx_queue_sp alloc raw_tail raw_head k_queue_size).queue in
      let jobs = intra_setup start_time (sample_data dis_byte 0 size) producer consumer in
      let given = jobs.0.settings in
      length buffer ≡ jobs.1.settings.max_chunk_size
      → RunReach
          (update_hashes v)
          q
          given.min_chunk_size
          given.max_chunk_size
          (begin none m given.src_data buffer (some initial_hashes))
          r
      → EndsWell v (Returns0 v) q given.min_chunk_size given.max_chunk_size given.src_data r
unfolding intra_setup set_minmax_chunk_size set_data set_max_chunk_size
intra_can_finish alloc raw_tail raw_head start_time v dis_byte size producer consumer m buffer there
      small fits run =
    let (ready, _, large, _) =
      tx_queue_sp-IsReady alloc raw_tail raw_head k_queue_size (omega arith) (omega arith) there in
    let capacity = ready_capacity ready (omega arith) large in
    ends_well v (transmision_result_same v) {announced = none} ready tt fits
      (program-Setup dis_byte size small) (omega (arith, small, length-sample_data dis_byte 0 size))
      (omega arith) (omega (arith, capacity)) run

words_of :
    {s t : TxQueueStatus}
    → s.tail ≡ t.tail
    → s.producer_core ≡ t.producer_core
    → s.head ≡ t.head
    → s.consumer_core ≡ t.consumer_core
    → s ≡ t
words_of tail producer_core head consumer_core = λ i. record {
  tail = tail i;
  producer_core = producer_core i;
  head = head i;
  consumer_core = consumer_core i;
}

-- The queue that the programs in two processes make over a view.
pub made-IsReady :
    (there : TxQueueStatus) (p : ℕ) {q : BaseTxQueue} {s : TxQueueStatus}
    → p ≢ nullptr
    → p % cache_line_size ≡ 0
    → tx_queue_mp there p share_memory_size ≡ some (q, s)
    → IsReady q
      × (q.capacity ≡ 2 ^ 14)
      × (s ≡ record there { producer_core = minus_one; consumer_core = minus_one })
made-IsReady there p {q} {s} mapped aligned made =
    let (q', s', made', ready', capacity', tail, head, producer_core, consumer_core) =
      tx_queue_mp-IsReady there p share_memory_size 14 mapped aligned (omega arith) (omega arith)
        (omega arith) in
    let same : q' ≡ q = cc in
    let status : s' ≡ s = cc in
    (
      subst IsReady same ready',
      ap (λ x. x.capacity) (sym same) ∙ capacity',
      sym status ∙ words_of tail producer_core head consumer_core,
    )

-- The programs in two processes, on a queue that `main` makes over a view of the shared memory that is
-- there, aligned to the cache line and with 0 in both index words, as in a new section, with any
-- verification, less than 2 ^ 32 bytes of data and a start time above 0 of 64 bits. The run begins
-- with the status that the constructor leaves. From every state that the exchange of the start time
-- and then the two jobs, set up as they do, can come to in any interleaving, they can go on to the end
-- of both, with all the data received and the same hashes.
pub inter_can_finish :
    (there : TxQueueStatus) (p t : ℕ) {q : BaseTxQueue} {s : TxQueueStatus} (v : Verification)
    (dis_byte : ℕ → ℕ) (size : ℕ) (producer : Producer) (consumer : Consumer) (m : Memory)
    (buffer : List ℕ) {r : Run (Option Hashes)}
    → p ≢ nullptr
    → p % cache_line_size ≡ 0
    → there.tail ≡ 0
    → there.head ≡ 0
    → tx_queue_mp there p share_memory_size ≡ some (q, s)
    → 0 < t
    → t < 2 ^ 64
    → size < 2 ^ 32
    → let given = (producer_setup t (sample_data dis_byte 0 size) producer).settings in
      length buffer ≡ (consumer_setup t consumer).settings.max_chunk_size
      → RunReach
          (update_hashes v)
          q
          given.min_chunk_size
          given.max_chunk_size
          (begin (some t) m given.src_data buffer (some initial_hashes))
          r
      → (s ≡ (begin (some t) m given.src_data buffer (some initial_hashes)).system.status)
        × EndsWell v SameHashes q given.min_chunk_size given.max_chunk_size given.src_data r
unfolding producer_setup consumer_setup set_minmax_chunk_size set_data set_max_chunk_size
inter_can_finish there p t {q} {s} v dis_byte size producer consumer m buffer mapped aligned no_tail
      no_head made some_time time_fits small fits run =
    let (ready, capacity, status) = made-IsReady there p mapped aligned made in
    (
      status ∙ words_of no_tail refl no_head refl,
      ends_well v (λ h. refl) {announced = some t} ready
          (some_time, time_fits, omega (arith, capacity)) fits (program-Setup dis_byte size small)
          (omega (arith, small, length-sample_data dis_byte 0 size)) (omega arith)
          (omega (arith, capacity)) run,
    )
