-- ===== src/Tests/ProgramTests.antt =====
-- The test programs, the interactive jobs and the prints at sample inputs.
use tx_queue.Base.{ℕ, ◌+◌, ◌*◌, ◌≡◌, refl, true, [], ◌∷◌, ◌++◌, some, none, pos, minus_one, arith}
use tx_queue.Queue.{TxQueueStatus}
use tx_queue.SharedMemory.{opened, shared_memory, create_or_open, create_buffer, holds}
use tx_queue.Sha256
use tx_queue.Hex.{print_hex}
use tx_queue.Hex.Laws.{Fits}
use tx_queue.Timestamp.{get_timestamp_str, minutes_left, seconds_left, ms_left, us_left, ns_left}
use tx_queue.Timestamp.Laws.{timestamp_meaning}
use tx_queue.Jobs.Hashes.{Verification}
use tx_queue.Jobs.Interactive.{Message, Told, Heard, transmit_message, receive_message}
use tx_queue.Jobs.Interactive.Laws.{message_arrives}
use tx_queue.Programs.{
  Text, dash_t, dash_v, exits, transmision, launch, main_producer, main_consumer, share_memory_size,
}
use tx_queue.Programs.Arguments.{printed, launch_verification}
use tx_queue.Programs.Attempts.{too_early, too_late, finding}
use tx_queue.Programs.Start.{both_launch, no_section}
use tx_queue.Tests.Samples.{blank, head_loads, tail_loads}
use tx_queue.Tests.JobTests.{line, line-IsReady}

abbrev name : Text
name = 120 ∷ []

-- "-v:2"
launch_verification_example :
    launch (name ∷ dash_t ∷ (dash_v ++ printed (2 ∷ [])) ∷ []) ≡ transmision Verification.sha256
launch_verification_example = launch_verification name (2 ∷ []) [] (omega arith, tt) (omega arith)

abbrev at_4096 : ℕ → ℕ
at_4096 size = 4096

abbrev zero_words : TxQueueStatus
zero_words = record { tail = 0; producer_core = pos 0; head = 0; consumer_core = pos 0 }

both_launch_example :
    (main_producer
        (record { mapping = opened 1; view = 4096 })
        too_early.answers
        0
        zero_words
        (name ∷ dash_t ∷ [])
      ≡ some (launch (name ∷ dash_t ∷ [])))
    × (main_consumer too_early.answers 0
          (too_early ∷ too_early ∷ finding 9 8192 share_memory_size true ∷ [])
          too_early
          zero_words
          (name ∷ [])
        ≡ some (launch (name ∷ [])))
    × (main_consumer too_early.answers 0
          (too_early ∷ too_early ∷ finding 9 8192 0 true ∷ [])
          too_early
          zero_words
          (name ∷ [])
        ≡ some (exits minus_one))
unfolding shared_memory create_or_open create_buffer holds
both_launch_example =
    both_launch 1 9 4096 8192 0 2 too_early.answers true [] too_early zero_words zero_words
      (name ∷ dash_t ∷ []) (name ∷ []) (omega arith) (omega arith) refl refl

no_section_example :
    (main_consumer too_early.answers 0 (too_early ∷ too_late ∷ []) too_late zero_words (name ∷ [])
      ≡ some (exits minus_one))
    × (main_producer too_early.answers too_early.answers 0 zero_words (name ∷ []) ≡ none)
no_section_example = no_section 0 1 [] zero_words (name ∷ [])

abbrev digest : ℕ → Sha256.Digest
digest n = record { a = 1; b = 2; c = 3; d = n }

digest-Fits : (n : ℕ) → n ≡ 4 → Fits (digest n)
digest-Fits n e = record {
  a_fits = omega arith;
  b_fits = omega arith;
  c_fits = omega arith;
  d_fits = omega arith;
}

-- "ff0"
prints_hex : print_hex 4080 ≡ 102 ∷ 102 ∷ 48 ∷ []
unfolding print_hex
prints_hex = refl

abbrev message : Message
message = record { number = 4660; timestamp = 1700000000 }

abbrev told : Told
told = transmit_message line 55 (head_loads 55) (head_loads 55) blank minus_one 60 message

abbrev heard : Heard
heard = receive_message line told.tail (tail_loads 6) (tail_loads 6) told.memory minus_one 60

message_arrives_example :
    (told.sent ≡ some message)
    × (heard.received ≡ some message)
    × (told.tail ≡ 6)
    × (heard.head ≡ 6)
message_arrives_example =
    message_arrives line-IsReady blank 55 55 60 (omega arith) (omega arith) (omega arith) message
      (head_loads 55) (head_loads 55) refl refl minus_one (tail_loads 6) (tail_loads 6) minus_one
      refl refl (omega arith) (omega arith) (omega arith)

-- 01:01:01.001ms 001us 001ns behind the epoch, where it is one hour later.
prints_time :
    get_timestamp_str 2 3661001001001
    ≡ record { hour = 2; min = 1; sec = 1; ms = 1; us = 1; ns = 1 }
unfolding get_timestamp_str minutes_left seconds_left ms_left us_left ns_left
prints_time = refl

timestamp_meaning_example :
    let r = get_timestamp_str 2 3661001001001 in
    ((((r.min * 60 + r.sec) * 1000 + r.ms) * 1000 + r.us) * 1000 + r.ns ≡ 61001001001)
    × (r.hour ≡ 2)
timestamp_meaning_example = timestamp_meaning 2 3661001001001
