-- ===== src/Jobs/Run/Parts.antt =====
-- The parts of what passes the queue in a run: the start time, if it is announced, and the mark
-- behind the data; and what holds before each side has started its job.
use tx_queue.Base.{
  ℕ, ◌^◌, ◌<◌, ◌≡◌, refl, sym, ap, ◌∙◌, ◌⊎◌, inl, inr, List, [], ◌∷◌, ◌++◌, append_assoc, Option,
  none, some, arith, length, length-append, append_inj,
}
use tx_queue.Queue.{BaseTxQueue}
use tx_queue.Jobs.{bytes_of_u64}
use tx_queue.Jobs.Run.{
  TransmitPc, announcing, stamping, stamped, finished, ReceivePc, unstarted, reading_stamp,
  closing_stamp, stopped,
}

-- The chunk of length 0 that ends the data, once it is sent, and once it is received.
abbrev pub marks : TransmitPc → List (List ℕ)
marks finished = [] ∷ []
marks _ = []

abbrev pub read_marks : ReceivePc → List (List ℕ)
read_marks stopped = [] ∷ []
read_marks _ = []

-- The bytes of the start time.
abbrev pub stamp_of : Option ℕ → List ℕ
stamp_of none = []
stamp_of (some t) = bytes_of_u64 t

-- The start time, once it is sent, and once it is received.
abbrev pub lead : Option ℕ → TransmitPc → List ℕ
lead announced announcing = []
lead announced stamping = []
lead announced stamped = []
lead announced _ = stamp_of announced

abbrev pub read_lead : Option ℕ → ReceivePc → List ℕ
read_lead announced unstarted = []
read_lead announced reading_stamp = []
read_lead announced (closing_stamp _) = []
read_lead announced _ = stamp_of announced

abbrev pub sends : Option ℕ → TransmitPc → List ℕ × List (List ℕ)
sends announced pc = (lead announced pc, marks pc)

abbrev pub gets : Option ℕ → ReceivePc → List ℕ × List (List ℕ)
gets announced pc = (read_lead announced pc, read_marks pc)

-- A start time that is announced is not 0, fits 64 bits, and finds room on the queue.
abbrev pub Announces : BaseTxQueue → Option ℕ → Type 0
Announces q none = Unit
Announces q (some t) = (0 < t) × (t < 2 ^ 64) × (8 < q.capacity)

abbrev pub IsGiven : Option ℕ → Type 0
IsGiven announced = (t : ℕ) × (announced ≡ some t)

-- Before the producer's job nothing is sent.
abbrev pub Before : Option ℕ → TransmitPc → (sent pending : List ℕ) → Type 0
Before announced announcing sent pending = IsGiven announced × (sent ≡ [])
Before announced stamping sent pending = IsGiven announced × (sent ≡ [])
Before announced stamped sent pending =
    IsGiven announced × (sent ≡ []) × (pending ≡ stamp_of announced)
Before announced _ sent pending = Unit

-- Before the consumer's job nothing is received; then it has the start time that was announced.
abbrev pub Starts : Option ℕ → ReceivePc → (start_time : ℕ) (received : List ℕ) → Type 0
Starts announced unstarted start_time received = IsGiven announced × (received ≡ [])
Starts announced reading_stamp start_time received = IsGiven announced × (received ≡ [])
Starts announced (closing_stamp timestamp) start_time received =
    IsGiven announced × (received ≡ []) × (0 < timestamp → start_time ≡ timestamp)
Starts announced _ start_time received = (t : ℕ) → announced ≡ some t → start_time ≡ t

pub lead-cases :
    (announced : Option ℕ) (pc : TransmitPc) (sent pending : List ℕ)
    → Before announced pc sent pending
    → (lead announced pc ≡ stamp_of announced) ⊎ ((sent ≡ []) × (lead announced pc ≡ []))
lead-cases announced TransmitPc.announcing sent pending b = inr (b.1, refl)
lead-cases announced TransmitPc.stamping sent pending b = inr (b.1, refl)
lead-cases announced TransmitPc.stamped sent pending b = inr (b.1, refl)
lead-cases announced TransmitPc.looping sent pending b = inl refl
lead-cases announced (TransmitPc.sizing _) sent pending b = inl refl
lead-cases announced (TransmitPc.filling _) sent pending b = inl refl
lead-cases announced (TransmitPc.closing _) sent pending b = inl refl
lead-cases announced TransmitPc.signaling sent pending b = inl refl
lead-cases announced TransmitPc.marking sent pending b = inl refl
lead-cases announced (TransmitPc.marked _) sent pending b = inl refl
lead-cases announced TransmitPc.finished sent pending b = inl refl

pub nil_of_length : (bytes : List ℕ) → length bytes ≡ 0 → bytes ≡ []
nil_of_length [] e = refl
nil_of_length (b ∷ bytes) e = absurd (omega arith)

-- Behind the start time on both sides, what is not received is the jobs' alone.
pub behind_lead :
    (front stamp sent received job_sent job_received bytes : List ℕ)
    → (front ≡ stamp) ⊎ ((sent ≡ []) × (front ≡ []))
    → sent ≡ front ++ job_sent
    → received ≡ stamp ++ job_received
    → sent ≡ received ++ bytes
    → job_sent ≡ job_received ++ bytes
behind_lead front stamp sent received job_sent job_received bytes (inl same) sent_is received_is e =
    (append_inj front job_sent stamp (job_received ++ bytes) (ap length same) (
      sym sent_is ∙ e ∙ ap (λ t. t ++ bytes) received_is ∙ append_assoc stamp job_received bytes)).1
behind_lead front stamp sent received job_sent job_received bytes (inr (empty, _)) sent_is
      received_is e =
    nil_of_length job_sent
      (omega (arith, ap length empty, ap length sent_is, length-append front job_sent))
    ∙ sym (
        nil_of_length (job_received ++ bytes) (
          omega (
            arith,
            ap length empty,
            ap length e,
            ap length received_is,
            length-append received bytes,
            length-append stamp job_received,
            length-append job_received bytes,
          )))
