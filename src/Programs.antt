-- ===== src/Programs.antt =====
-- The test programs: `main` of utests/intra/main.cpp, utests/inter/producer.cpp and
-- utests/inter/consumer.cpp up to the choice of a test, and the result of the one in one process.
pub mod Arguments
pub mod Attempts
pub mod Start
pub mod Result
pub mod Statistics
pub mod Transmission
use tx_queue.Base.{
  ℕ, zero, suc, ◌+◌, ◌-◌, ◌*◌, ◌%◌, ◌^◌, min, Bool, true, false, not, ◌&&◌, ◌||◌, List, [], ◌∷◌,
  Option, none, some, ltb, leb, ◌==◌, if◌then◌else◌, ℤ, pos, minus_one, length, drop,
}
use tx_queue.Memory.{nullptr}
use tx_queue.Queue.{
  BaseTxQueue, TxQueueStatus, TxQueueSp, is_ok, sizeof_tx_queue_status, tx_queue_sp, tx_queue_mp,
}
use tx_queue.SharedMemory.{Answers, Shared, shared_memory, dereference}
use tx_queue.Jobs.Hashes.{Verification, Hashes, get_hash_str}

-- `_KiB`, `_GiB`
abbrev pub kib : ℕ → ℕ
kib amount = 1024 * amount

abbrev pub gib : ℕ → ℕ
gib amount = 1024 * 1024 * 1024 * amount

-- The constants of utests/intra/main.cpp.
abbrev pub k_sample_size : ℕ
k_sample_size = gib 1

abbrev pub k_queue_size : ℕ
k_queue_size = kib 16

abbrev pub k_min_chunk_size : ℕ
k_min_chunk_size = 147

abbrev pub k_max_chunk_size : ℕ
k_max_chunk_size = kib 8

-- The constants of utests/inter/producer.cpp and of utests/inter/consumer.cpp.
abbrev pub k_producer_queue_size : ℕ
k_producer_queue_size = kib 16

abbrev pub k_producer_max_chunk_size : ℕ
k_producer_max_chunk_size = kib 8

abbrev pub k_consumer_max_chunk_size : ℕ
k_consumer_max_chunk_size = kib 8

-- Characters of an argument, without the zero behind them.
abbrev pub Text : Type 0
Text = List ℕ

-- "-i", "-t", "-v:"
abbrev pub dash_i : Text
dash_i = 45 ∷ 105 ∷ []

abbrev pub dash_t : Text
dash_t = 45 ∷ 116 ∷ []

abbrev pub dash_v : Text
dash_v = 45 ∷ 118 ∷ 58 ∷ []

-- Whether `strcmp` returns 0.
abbrev pub same_text : Text → Text → Bool
same_text [] [] = true
same_text [] (c ∷ s) = false
same_text (c ∷ s) [] = false
same_text (c ∷ s) (c' ∷ s') = (c == c') && same_text s s'

abbrev pub starts_with : (prefix text : Text) → Bool
starts_with [] text = true
starts_with (c ∷ prefix) [] = false
starts_with (c ∷ prefix) (c' ∷ text) = (c == c') && starts_with prefix text

-- The number that digits in front say, behind those that say `acc`. Above `most` it stays there.
abbrev pub digits_from : (most acc : ℕ) → Text → ℕ
digits_from most acc [] = acc
digits_from most acc (c ∷ s) =
    let rest = digits_from most (min most (10 * acc + (c - 48))) s in
    if leb 48 c && ltb c 58 then rest else acc

-- `(unsigned)atoi`: white space, a sign, digits. An `int` is from -2 ^ 31 up to 2 ^ 31 - 1.
abbrev pub unsigned_atoi : Text → ℕ
unsigned_atoi [] = 0
unsigned_atoi (c ∷ s) =
    let rest = unsigned_atoi s in
    if (c == 32) || (leb 9 c && ltb c 14)
    then rest
    else if c == 45
    then (2 ^ 32 - digits_from (2 ^ 31) 0 s) % 2 ^ 32
    else if c == 43
    then digits_from (2 ^ 31 - 1) 0 s
    else digits_from (2 ^ 31 - 1) 0 (c ∷ s)

-- The `switch` over the number behind "-v:".
abbrev pub chosen : ℕ → Verification
chosen verification =
    if verification == 1
    then Verification.checksum
    else if verification == 2
    then Verification.sha256
    else Verification.unverified

abbrev pub verification_of : List Text → ℕ
verification_of [] = 0
verification_of (sv ∷ _) = if starts_with dash_v sv then unsigned_atoi (drop 3 sv) else 0

-- What `main` goes on with: it returns at once, or a test is run.
pub data Launch : Type 0 where
  exits : ℤ → Launch
  interactive : Launch
  transmision : Verification → Launch

-- "launch the appropriate test", on the arguments with the program's name in front.
unfoldable pub launch : (argv : List Text) → Launch
launch [] = exits minus_one
launch (_ ∷ []) = exits minus_one
launch (_ ∷ first ∷ more) =
    if same_text first dash_i
    then interactive
    else if same_text first dash_t
    then transmision (chosen (verification_of more))
    else exits minus_one

-- `main` of utests/intra/main.cpp, with what `tx_queue_sp` takes from outside.
unfoldable pub main_intra : (alloc : ℕ → ℕ) (raw_tail raw_head : ℕ) (argv : List Text) → Launch
main_intra alloc raw_tail raw_head argv =
    let queue = tx_queue_sp alloc raw_tail raw_head k_queue_size in
    if not (is_ok queue.queue) then exits (pos 1) else launch argv

-- A queue in shared memory, and the test on it. `none` is a fault in the constructor of the queue.
abbrev pub launch_on : Option (BaseTxQueue × TxQueueStatus) → (argv : List Text) → Option Launch
launch_on none argv = none
launch_on (some (queue, _)) argv = some (if not (is_ok queue) then exits minus_one else launch argv)

abbrev pub share_memory_size : ℕ
share_memory_size = sizeof_tx_queue_status + k_producer_queue_size

-- The buffer that `main` of utests/inter/producer.cpp gives to the queue: the system answers to the
-- constructor of the shared memory, and once more if `operator*` finds no buffer.
unfoldable pub producer_memory : (os again : Answers) (header : ℕ) → Shared
producer_memory os again header =
    let (memory, header') = shared_memory os share_memory_size header in
    (dereference again memory header').0

unfoldable pub main_producer :
    (os again : Answers) (header : ℕ) (there : TxQueueStatus) (argv : List Text) → Option Launch
main_producer os again header there argv =
    launch_on (tx_queue_mp there (producer_memory os again header).map_buffer share_memory_size)
      argv

-- A turn of the loop that waits for the shared memory: what the system answers, the word in front of
-- the section, and whether there is time left when it has answered.
pub record Attempt : Type 0 where
  pub answers : Answers
  pub header : ℕ
  pub in_time : Bool

-- The attempts end when the time does.
abbrev pub wait : List Attempt → Shared → Shared
wait [] memory = memory
wait (a ∷ attempts) memory =
    let there = (dereference a.answers memory a.header).0 in
    let rest = wait attempts there in
    if not (there.map_buffer == nullptr) then there else if a.in_time then rest else there

-- The shared memory of utests/inter/consumer.cpp behind the loop and the test for it.
unfoldable pub consumer_memory :
    (os : Answers) (header : ℕ) (attempts : List Attempt) (again : Attempt) → Shared
consumer_memory os header attempts again =
    let memory = wait attempts (shared_memory os 0 header).0 in
    (dereference again.answers memory again.header).0

-- The queue and the test on what the consumer has of the shared memory.
unfoldable pub consume_from : Shared → (there : TxQueueStatus) (argv : List Text) → Option Launch
consume_from memory there argv =
    if memory.map_buffer == nullptr
    then some (exits minus_one)
    else launch_on (tx_queue_mp there memory.map_buffer memory.size) argv

unfoldable pub main_consumer :
    (os : Answers) (header : ℕ) (attempts : List Attempt) (again : Attempt) (there : TxQueueStatus)
    (argv : List Text)
    → Option Launch
unfolding consumer_memory consume_from
main_consumer os header attempts again there argv =
    consume_from (consumer_memory os header attempts again) there argv

-- "generate random data": `dis_byte gen` is what the generator gives in each turn.
abbrev pub sample_data : (dis_byte : ℕ → ℕ) (i size : ℕ) → List ℕ
sample_data dis_byte i zero = []
sample_data dis_byte i (suc size) = dis_byte i % 256 ∷ sample_data dis_byte (i + 1) size

-- What `transmision` of utests/intra/main.cpp returns, when both jobs have ended with these hashes.
unfoldable pub transmision_result : Verification → (producer consumer : Hashes) → ℕ
transmision_result Verification.unverified producer consumer = 0
transmision_result v producer consumer =
    if not (same_text (get_hash_str v producer) (get_hash_str v consumer)) then 1 else 0
