-- ===== src/Tests/TransmissionTests.antt =====
-- The programs with their own constants, two bytes of data and a start time of 300, from their start.
use tx_queue.Base.{
  ℕ, Option, ◌+◌, ◌≡◌, refl, List, [], none, some, arith, replicate, length, length-replicate,
  minus_one,
}
use tx_queue.Queue.{BaseTxQueue, TxQueueStatus, tx_queue_sp, tx_queue_mp, mp_queue}
use tx_queue.Jobs.Hashes.{checksum, sha256, Hashes, initial_hashes}
use tx_queue.Jobs.Settings.{UtestJob, TransmitSettings, set_max_chunk_size}
use tx_queue.Jobs.Run.{Run, begin, begun}
use tx_queue.Programs.{k_queue_size, sample_data}
use tx_queue.Programs.Statistics.{
  Statistics, producer_statistics, consumer_statistics, sent_job, received_job,
}
use tx_queue.Programs.Transmission.{
  Producer, Consumer, intra_setup, producer_setup, consumer_setup, EndsWell, Returns0, SameHashes,
  intra_can_finish, inter_can_finish,
}
use tx_queue.Tests.Samples.{blank}

abbrev raw_job : UtestJob
raw_job = record {
  core = minus_one;
  transaction_attempts = 9;
  total_data = 9;
  start_time = 9;
  total_time = 1000;
}

abbrev raw_producer : Producer
raw_producer = record {
  job = raw_job;
  settings = record { src_data = []; min_chunk_size = 9; max_chunk_size = 9 };
}

abbrev raw_consumer : Consumer
raw_consumer = record { job = raw_job; settings = record { max_chunk_size = 9 } }

abbrev room : List ℕ
room = replicate 8192 0

length-room : length room ≡ 8192
length-room = length-replicate {A = ℕ} 8192 0

-- Memory is found at 4096.
abbrev found_at : ℕ → ℕ
found_at size = 4096

abbrev intra_given : TransmitSettings
intra_given = (intra_setup 300 (sample_data (λ i. i + 7) 0 2) raw_producer raw_consumer).0.settings

abbrev intra_queue : BaseTxQueue
intra_queue = (tx_queue_sp found_at 1 2 k_queue_size).queue

intra_can_finish_example :
    EndsWell sha256
      (Returns0 sha256)
      intra_queue
      intra_given.min_chunk_size
      intra_given.max_chunk_size
      intra_given.src_data
      (begin none blank intra_given.src_data room (some initial_hashes))
unfolding intra_setup set_max_chunk_size
intra_can_finish_example =
    intra_can_finish found_at 1 2 300 sha256 (λ i. i + 7) 2 raw_producer raw_consumer blank room
      (omega arith) (omega arith) length-room begun

abbrev status : TxQueueStatus
status = record { tail = 0; producer_core = minus_one; head = 0; consumer_core = minus_one }

abbrev inter_given : TransmitSettings
inter_given = (producer_setup 300 (sample_data (λ i. i + 7) 0 2) raw_producer).settings

abbrev inter_queue : BaseTxQueue
inter_queue = record { storage = 4224; capacity = 16384 }

abbrev inter_begin : Run (Option Hashes)
inter_begin = begin (some 300) blank inter_given.src_data room (some initial_hashes)

inter_can_finish_example :
    (status ≡ inter_begin.system.status)
    × EndsWell checksum SameHashes inter_queue inter_given.min_chunk_size inter_given.max_chunk_size
        inter_given.src_data inter_begin
unfolding consumer_setup set_max_chunk_size tx_queue_mp mp_queue
inter_can_finish_example =
    inter_can_finish status 4096 300 {s = status} checksum (λ i. i + 7) 2 raw_producer raw_consumer
      blank room (omega arith) refl refl refl refl (omega arith) (omega arith) (omega arith)
      length-room begun

-- A run to the end.
ended :
    EndsWell checksum SameHashes inter_queue inter_given.min_chunk_size inter_given.max_chunk_size
      inter_given.src_data inter_begin
unfolding consumer_setup set_max_chunk_size tx_queue_mp mp_queue
ended =
    (inter_can_finish status 4096 300 {s = status} checksum (λ i. i + 7) 2 raw_producer raw_consumer
      blank room (omega arith) refl refl refl refl (omega arith) (omega arith) (omega arith)
      length-room begun).1

-- The queue of the consumer, over its own view.
abbrev consumer_queue : BaseTxQueue
consumer_queue = record { storage = 8320; capacity = 16384 }

abbrev said : Statistics
said = producer_statistics checksum ended.5.0 (sent_job ended.0 raw_job) inter_queue

abbrev heard : Statistics
heard = consumer_statistics checksum ended.5.1 (received_job ended.0 raw_job) consumer_queue
