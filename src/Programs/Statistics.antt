-- ===== src/Programs/Statistics.antt =====
-- What `transmision` of each test program prints behind the end of its jobs, and what it returns:
-- utests/inter/producer.cpp, utests/inter/consumer.cpp and utests/intra/main.cpp.
use tx_queue.Base.{ℕ, List, Option, none, some, pos}
use tx_queue.Memory.{Memory}
use tx_queue.Queue.{BaseTxQueue, usable_capacity}
use tx_queue.Duration.{Piece, format_duration}
use tx_queue.Format.{Amount, Throughput, format_size, format_throughput}
use tx_queue.Jobs.Hashes.{Verification, Hashes, unverified, get_hash_str}
use tx_queue.Jobs.Settings.{
  UtestJob, get_total_data, get_total_duration_ns, get_transaction_attempts,
}
use tx_queue.Jobs.Run.{Run}
use tx_queue.Programs.{
  Text, k_sample_size, k_queue_size, k_max_chunk_size, k_producer_max_chunk_size,
  k_consumer_max_chunk_size,
}

-- The line with the hash is printed with a verification only.
abbrev pub hash_line : Verification → Hashes → Option Text
hash_line unverified h = none
hash_line v h = some (get_hash_str v h)

pub record Statistics : Type 0 where
  pub hash : Option Text
  pub total_throughput : Throughput
  pub duration : List Piece
  pub data_sample_size : Amount
  pub queue_capacity : Amount
  pub max_chunk_size : Amount
  pub re_attempts : ℕ

unfoldable pub producer_statistics : Verification → Hashes → UtestJob → BaseTxQueue → Statistics
producer_statistics v hashes job q = record {
  hash = hash_line v hashes;
  total_throughput = format_throughput (get_total_data job) (pos (get_total_duration_ns job));
  duration = format_duration (pos (get_total_duration_ns job));
  data_sample_size = format_size (get_total_data job);
  queue_capacity = format_size (usable_capacity q);
  max_chunk_size = format_size k_producer_max_chunk_size;
  re_attempts = get_transaction_attempts job;
}

unfoldable pub consumer_statistics : Verification → Hashes → UtestJob → BaseTxQueue → Statistics
consumer_statistics v hashes job q = record {
  hash = hash_line v hashes;
  total_throughput = format_throughput (get_total_data job) (pos (get_total_duration_ns job));
  duration = format_duration (pos (get_total_duration_ns job));
  data_sample_size = format_size (get_total_data job);
  queue_capacity = format_size (usable_capacity q);
  max_chunk_size = format_size k_consumer_max_chunk_size;
  re_attempts = get_transaction_attempts job;
}

-- The program in one process prints its constants instead of what the jobs counted.
pub record IntraStatistics : Type 0 where
  pub producer_hash : Option Text
  pub consumer_hash : Option Text
  pub data_sample_size : Amount
  pub queue_size : Amount
  pub max_chunk_size : Amount
  pub producer_duration : List Piece
  pub producer_throughput : Throughput
  pub consumer_duration : List Piece
  pub consumer_throughput : Throughput
  pub write_re_attempts : ℕ
  pub read_re_attempts : ℕ

unfoldable pub intra_statistics :
    Verification
    → (producer_hashes consumer_hashes : Hashes) → (producer consumer : UtestJob) → IntraStatistics
intra_statistics v producer_hashes consumer_hashes producer consumer = record {
  producer_hash = hash_line v producer_hashes;
  consumer_hash = hash_line v consumer_hashes;
  data_sample_size = format_size k_sample_size;
  queue_size = format_size k_queue_size;
  max_chunk_size = format_size k_max_chunk_size;
  producer_duration = format_duration (pos (get_total_duration_ns producer));
  producer_throughput = format_throughput k_sample_size (pos (get_total_duration_ns producer));
  consumer_duration = format_duration (pos (get_total_duration_ns consumer));
  consumer_throughput = format_throughput k_sample_size (pos (get_total_duration_ns consumer));
  write_re_attempts = get_transaction_attempts producer;
  read_re_attempts = get_transaction_attempts consumer;
}

-- What the getters are asked of, behind the end of the two jobs: `timing` has the rest of the fields.
abbrev pub sent_job : {S : Type 0} → Run S → (timing : UtestJob) → UtestJob
sent_job r timing = record timing {
  total_data = r.transmit.total_data;
  transaction_attempts = r.transmit.transaction_attempts;
}

abbrev pub received_job : {S : Type 0} → Run S → (timing : UtestJob) → UtestJob
received_job r timing = record timing {
  total_data = r.receive.total_data;
  transaction_attempts = r.receive.transaction_attempts;
}
