-- ===== src/Jobs/Run/Invariant.antt =====
-- What holds while the two jobs run: what is sent and received is chunks in a row, and an open
-- transaction holds as much of the next one as its job has come to.
use tx_queue.Base.{
  ℕ, ◌≤◌, ◌<◌, ◌^◌, ◌≡◌, refl, true, false, not, List, [], ◌++◌, Option, none, some, length, take,
  subst,
}
use tx_queue.Memory.{Memory}
use tx_queue.Queue.{BaseTxQueue}
use tx_queue.Write.{TxWrite}
use tx_queue.Read.{TxRead}
use tx_queue.Channel.{Reach, here}
use tx_queue.Jobs.{TransmitJob, bytes_of_u64, u64_of_bytes, frame, chunk_size, chunk}
use tx_queue.Jobs.Run.{
  TransmitPc, announcing, stamping, stamped, looping, sizing, filling, closing, signaling, marking,
  marked, finished, ReceivePc, unstarted, reading_stamp, closing_stamp, awaiting, reading_size,
  reading_chunk, closing_read, stopped, Run, begin,
}
use tx_queue.Jobs.Run.Parts.{
  stamp_of, lead, sends, gets, Announces, Before, Starts, lead-cases, behind_lead,
}
use tx_queue.Jobs.Run.Flow.{Flow, begin-Progress}

-- What the jobs are given: sizes are drawn up to `high` and never 0, and the data can be counted.
pub record Setup (low high : ℕ) (src_data : List ℕ) : Type 0 where
  pub some_bytes : 0 < low
  pub size_fits : high < 2 ^ 64
  pub data_fits : length src_data < 2 ^ 64

-- The open write transaction, if it is valid, has written `bytes`.
abbrev pub HasWritten : Option TxWrite → (pending bytes : List ℕ) → Type 0
HasWritten writer pending bytes =
    (tx : TxWrite) × (writer ≡ some tx) × (tx.invalidated ≡ false → pending ≡ bytes)

abbrev pub HasTaken : Option TxRead → Type 0 → Type 0
HasTaken reader P = (tx : TxRead) × (reader ≡ some tx) × (tx.invalidated ≡ false → P)

module _ {S : Type 0} where
  pub record Drawn (low high : ℕ) (job : TransmitJob S) (drawn : ℕ) : Type 0 where
    pub from : low ≤ drawn
    pub up_to : drawn ≤ high
    pub more : job.total_data < length job.src_data

  abbrev pub AllSent : TransmitJob S → Type 0
  AllSent job = job.total_data ≡ length job.src_data

  abbrev pub WriterIs :
      (low high : ℕ) → TransmitPc → TransmitJob S → Option TxWrite → (pending : List ℕ) → Type 0
  WriterIs low high announcing job writer pending = writer ≡ none
  WriterIs low high stamping job writer pending =
      (tx : TxWrite) × (writer ≡ some tx) × (tx.invalidated ≡ false) × (pending ≡ [])
  WriterIs low high stamped job writer pending =
      (tx : TxWrite) × (writer ≡ some tx) × (tx.invalidated ≡ false)
  WriterIs low high looping job writer pending = writer ≡ none
  WriterIs low high (sizing drawn) job writer pending =
      Drawn low high job drawn × HasWritten writer pending []
  WriterIs low high (filling drawn) job writer pending =
      Drawn low high job drawn × HasWritten writer pending (bytes_of_u64 (chunk_size job drawn))
  WriterIs low high (closing drawn) job writer pending =
      Drawn low high job drawn × HasWritten writer pending (frame (chunk job drawn))
  WriterIs low high signaling job writer pending = AllSent job × (writer ≡ none)
  WriterIs low high marking job writer pending = AllSent job × HasWritten writer pending []
  WriterIs low high (marked ok) job writer pending =
      AllSent job
      × (tx : TxWrite) × (writer ≡ some tx)
      × (tx.invalidated ≡ not ok)
      × (ok ≡ true → pending ≡ frame [])
  WriterIs low high finished job writer pending = AllSent job × (writer ≡ none)

-- The size that eight bytes taken say, and the bytes taken behind them.
pub record Taken (taken buffer : List ℕ) (size : ℕ) : Type 0 where
  pub first : List ℕ
  pub bytes : List ℕ
  pub taken_eq : taken ≡ first ++ bytes
  pub eight : length first ≡ 8
  pub said : u64_of_bytes first ≡ size
  pub as_said : length bytes ≡ size
  pub in_buffer : take size buffer ≡ bytes

abbrev pub ReaderIs : ReceivePc → Option TxRead → (taken buffer : List ℕ) → Type 0
ReaderIs unstarted reader taken buffer = reader ≡ none
ReaderIs reading_stamp reader taken buffer = HasTaken reader (taken ≡ [])
ReaderIs (closing_stamp timestamp) reader taken buffer =
    (tx : TxRead) × (reader ≡ some tx)
    × (tx.invalidated ≡ false → (length taken ≡ 8) × (u64_of_bytes taken ≡ timestamp))
    × (tx.invalidated ≡ true → timestamp ≡ 0)
ReaderIs awaiting reader taken buffer = reader ≡ none
ReaderIs reading_size reader taken buffer = HasTaken reader (taken ≡ [])
ReaderIs (reading_chunk size) reader taken buffer =
    HasTaken reader ((length taken ≡ 8) × (u64_of_bytes taken ≡ size))
ReaderIs (closing_read size) reader taken buffer = HasTaken reader (Taken taken buffer size)
ReaderIs stopped reader taken buffer = reader ≡ none

module _ {S : Type 0} (update : S → List ℕ → S) where
  pub record RunInv (q : BaseTxQueue) (m : Memory) (low high : ℕ) (start_hash : S)
      (src_data : List ℕ) (r : Run S) : Type 0 where
    pub reach : Reach q m r.system
    pub same_source : r.transmit.src_data ≡ src_data
    pub same_buffer : length r.receive.buffer ≡ high
    pub writer_is : WriterIs low high r.transmit_pc r.transmit r.system.writer r.system.pending
    pub reader_is : ReaderIs r.receive_pc r.system.reader r.system.taken r.receive.buffer
    pub flow :
        Flow update high start_hash src_data r.system.sent r.system.received r.transmit.total_data
          r.transmit.hash r.receive.total_data r.receive.hash
          (sends r.announced r.transmit_pc)
          (gets r.announced r.receive_pc)
    pub announces : Announces q r.announced
    pub before : Before r.announced r.transmit_pc r.system.sent r.system.pending
    pub starts : Starts r.announced r.receive_pc r.start_time r.system.received

  pub begin-RunInv :
      {q : BaseTxQueue} (announced : Option ℕ)
      → Announces q announced
      → (m : Memory) (low : ℕ) (h : S) (src_data buffer : List ℕ)
      → RunInv q m low (length buffer) h src_data (begin announced m src_data buffer h)
  begin-RunInv none announces m low h src_data buffer = record {
    reach = here;
    same_source = refl;
    same_buffer = refl;
    writer_is = refl;
    reader_is = refl;
    flow = record {
      job_sent = [];
      job_received = [];
      sent_is = refl;
      received_is = refl;
      progress = begin-Progress update (length buffer) h src_data;
    };
    announces = announces;
    before = tt;
    starts = λ t e. absurd (cc);
  }
  begin-RunInv (some t) announces m low h src_data buffer = record {
    reach = here;
    same_source = refl;
    same_buffer = refl;
    writer_is = refl;
    reader_is = refl;
    flow = record {
      job_sent = [];
      job_received = [];
      sent_is = refl;
      received_is = refl;
      progress = begin-Progress update (length buffer) h src_data;
    };
    announces = announces;
    before = ((t, refl), refl);
    starts = ((t, refl), refl);
  }

  module _ {q : BaseTxQueue} {m : Memory} {low high : ℕ} {h : S} {src_data : List ℕ} {r : Run S}
      (inv : RunInv q m low high h src_data r) where
    pub writer_at :
        (pc : TransmitPc)
        → r.transmit_pc ≡ pc
        → WriterIs low high pc r.transmit r.system.writer r.system.pending
    writer_at pc at =
        subst (λ t. WriterIs low high t r.transmit r.system.writer r.system.pending) at
          inv.writer_is

    pub reader_at :
        (pc : ReceivePc)
        → r.receive_pc ≡ pc
        → ReaderIs pc r.system.reader r.system.taken r.receive.buffer
    reader_at pc at =
        subst (λ t. ReaderIs t r.system.reader r.system.taken r.receive.buffer) at inv.reader_is

    pub sending_at :
        {send : List ℕ × List (List ℕ)}
        → sends r.announced r.transmit_pc ≡ send
        → Flow update high h src_data r.system.sent r.system.received r.transmit.total_data
            r.transmit.hash r.receive.total_data r.receive.hash send
            (gets r.announced r.receive_pc)
    sending_at at =
        subst
          (λ t.
            Flow update high h src_data r.system.sent r.system.received r.transmit.total_data
              r.transmit.hash r.receive.total_data r.receive.hash t (gets r.announced r.receive_pc))
          at inv.flow

    pub receiving_at :
        {get : List ℕ × List (List ℕ)}
        → gets r.announced r.receive_pc ≡ get
        → Flow update high h src_data r.system.sent r.system.received r.transmit.total_data
            r.transmit.hash r.receive.total_data r.receive.hash
            (sends r.announced r.transmit_pc)
            get
    receiving_at at =
        subst
          (λ t.
            Flow update high h src_data r.system.sent r.system.received r.transmit.total_data
              r.transmit.hash r.receive.total_data r.receive.hash (sends r.announced r.transmit_pc)
              t)
          at inv.flow

    pub not_yet_at :
        (pc : TransmitPc)
        → r.transmit_pc ≡ pc
        → Before r.announced pc r.system.sent r.system.pending
    not_yet_at pc at =
        subst (λ t. Before r.announced t r.system.sent r.system.pending) at inv.before

    pub time_at :
        (pc : ReceivePc) → r.receive_pc ≡ pc → Starts r.announced pc r.start_time r.system.received
    time_at pc at = subst (λ t. Starts r.announced t r.start_time r.system.received) at inv.starts

    -- What is not received, where the consumer's job is started, is in order behind its own.
    pub job_in_order :
        {mark : List (List ℕ)}
        (f : Flow update high h src_data r.system.sent r.system.received r.transmit.total_data
          r.transmit.hash r.receive.total_data r.receive.hash
          (sends r.announced r.transmit_pc)
          (stamp_of r.announced, mark))
        (bytes : List ℕ)
        → r.system.sent ≡ r.system.received ++ bytes
        → f.job_sent ≡ f.job_received ++ bytes
    job_in_order f bytes split =
        behind_lead (lead r.announced r.transmit_pc) (stamp_of r.announced) r.system.sent
          r.system.received f.job_sent f.job_received bytes
          (lead-cases r.announced r.transmit_pc r.system.sent r.system.pending inv.before) f.sent_is
          f.received_is split
