-- ===== src/Read.antt =====
-- `tx_read_t` of include/tx-queue.h and include/tx-queue.inl: the consumer's transaction.
-- A member function takes what its atomic loads return, and returns what it stores.
pub mod Copy
pub mod Laws
pub mod Variants
use Prim.Native.Nat.{bit_and}
use tx_queue.Base.{
  ℕ, ◌+◌, Bool, true, false, not, ◌&&◌, List, [], ◌∷◌, ◌++◌, map, ℤ, minus_one, ◌==ℤ◌, ltb,
  if◌then◌else◌, length,
}
use tx_queue.Words.{add64, sub64}
use tx_queue.Memory.{Memory, memcpy_from}
use tx_queue.Queue.{BaseTxQueue, is_ok}

pub record TxRead : Type 0 where
  pub storage : ℕ
  pub head : ℕ
  pub cached_tail : ℕ
  pub capacity : ℕ
  pub invalidated : Bool

-- What a call reads from outside the transaction: the acquire load of `tail_`, the relaxed load of
-- `producer_core_`, and the number of the core that the thread runs on.
pub record ReadLoads : Type 0 where
  pub tail : ℕ
  pub producer_core : ℤ
  pub current_core : ℤ

-- What a call leaves: its result, the transaction, the caller's buffer, the `consumer_core_` of the
-- status words (which the consumer alone writes), and whether the thread yielded.
pub record ReadOut : Type 0 where
  pub ok : Bool
  pub tx : TxRead
  pub buffer : List ℕ
  pub consumer_core : ℤ
  pub yielded : Bool

-- The constructor. `head` and `tail` are what its two relaxed loads return.
unfoldable pub begin_read : (q : BaseTxQueue) (head tail : ℕ) → TxRead
begin_read q head tail = record {
  storage = q.storage;
  head = head;
  cached_tail = tail;
  capacity = q.capacity;
  invalidated = not (is_ok q);
}

-- `operator bool`
unfoldable pub is_valid : TxRead → Bool
is_valid tx = not tx.invalidated

-- `(cached_tail_ - head_ + capacity_) & (capacity_ - 1)`
unfoldable pub available_data : TxRead → ℕ
available_data tx = bit_and (add64 (sub64 tx.cached_tail tx.head) tx.capacity) (sub64 tx.capacity 1)

-- "there is data, hence, read": the bytes of one copy, or of two round the end of the storage.
unfoldable pub copy_out : TxRead → Memory → (size : ℕ) → List ℕ
copy_out tx m size =
    let first_chunk_size = sub64 tx.capacity tx.head in
    if ltb tx.capacity (add64 tx.head size)
    then memcpy_from m (tx.storage + tx.head) first_chunk_size
      ++ memcpy_from m tx.storage (sub64 size first_chunk_size)
    else memcpy_from m (tx.storage + tx.head) size

-- The end of `imp_read`, once there is data.
unfoldable pub read_data : Memory → ℤ → TxRead → (size : ℕ) → ReadOut
read_data m consumer_core tx size = record {
  ok = true;
  tx = record tx { head = bit_and (add64 tx.head size) (sub64 tx.capacity 1) };
  buffer = copy_out tx m size;
  consumer_core = if not (consumer_core ==ℤ minus_one) then minus_one else consumer_core;
  yielded = false;
}

-- The inner branch of `imp_read`, where the tail that was loaded anew leaves too little data.
unfoldable pub read_short : ReadLoads → TxRead → (buffer : List ℕ) → ReadOut
read_short loads tx buffer = record {
  ok = false;
  tx = record tx { invalidated = true };
  buffer = buffer;
  consumer_core = loads.current_core;
  yielded = not (loads.producer_core ==ℤ minus_one) && (loads.producer_core ==ℤ loads.current_core);
}

-- A call that does nothing.
unfoldable pub refuse : ℤ → TxRead → (buffer : List ℕ) → ReadOut
refuse consumer_core tx buffer = record {
  ok = false;
  tx = tx;
  buffer = buffer;
  consumer_core = consumer_core;
  yielded = false;
}

-- "sync the head if no space"
unfoldable pub resync : ReadLoads → TxRead → TxRead
resync loads tx = record tx { cached_tail = loads.tail }

-- The buffer is the caller's `_size` bytes.
unfoldable pub imp_read : ReadLoads → Memory → ℤ → TxRead → (buffer : List ℕ) → ReadOut
unfolding refuse
imp_read loads m consumer_core tx buffer =
    if tx.invalidated
    then refuse consumer_core tx buffer
    else if ltb (available_data tx) (length buffer)
    then (let synced = resync loads tx in
        if ltb (available_data synced) (length buffer)
        then read_short loads synced buffer
        else read_data m consumer_core synced (length buffer))
    else read_data m consumer_core tx (length buffer)

unfoldable pub invalidate : TxRead → TxRead
invalidate tx = record tx { invalidated = true }

-- The destructor: the value of `head_` in the status words after it.
unfoldable pub end_read : TxRead → (head : ℕ) → ℕ
end_read tx head = if not tx.invalidated then tx.head else head

-- What the structured read leaves: the values, the transaction and the core number.
pub record Fields : Type 0 where
  pub all_read : Bool
  pub tx : TxRead
  pub values : List (List ℕ)
  pub consumer_core : ℤ

-- The fold `(read(args) && ...)` over the members of a tuple, each given by the bytes that it was
-- initialised with and by what the loads of its read return: it stops at the first failure.
unfoldable pub read_each : Memory → ℤ → TxRead → List (ReadLoads × List ℕ) → Fields
read_each m core tx [] = record { all_read = true; tx = tx; values = []; consumer_core = core }
read_each m core tx ((loads, value) ∷ more) =
    let r = imp_read loads m core tx value in
    let others = read_each m r.consumer_core r.tx more in
    if r.ok then record others { values = r.buffer ∷ others.values } else record {
      all_read = false;
      tx = r.tx;
      values = value ∷ map (λ f. f.1) more;
      consumer_core = r.consumer_core;
    }

-- `read<ARGS...>()`: the tuple with what was read, or a default one if any read failed. The
-- default values are those that the members were initialised with.
unfoldable pub read_fields : Memory → ℤ → TxRead → List (ReadLoads × List ℕ) → Fields
unfolding read_each
read_fields m core tx fields =
    let r = read_each m core tx fields in
    if r.all_read then r else record r { values = map (λ f. f.1) fields }
