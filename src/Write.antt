-- ===== src/Write.antt =====
-- `tx_write_t` of include/tx-queue.h and include/tx-queue.inl: the producer's transaction.
-- A member function takes what its atomic loads return, and returns what it stores.
pub mod Copy
pub mod Laws
pub mod Variants
use Prim.Native.Nat.{bit_and}
use tx_queue.Base.{
  ℕ, ◌+◌, ◌-◌, Bool, true, false, not, ◌&&◌, List, [], ◌∷◌, map, ℤ, minus_one, ◌==ℤ◌, ltb,
  if◌then◌else◌, length, take, drop,
}
use mathlib.Core.List.{flatten}
use tx_queue.Words.{add64, sub64}
use tx_queue.Memory.{Memory, memcpy_to}
use tx_queue.Queue.{BaseTxQueue, is_ok}

pub record TxWrite : Type 0 where
  pub storage : ℕ
  pub tail : ℕ
  pub cached_head : ℕ
  pub capacity : ℕ
  pub invalidated : Bool

-- What a call reads from outside the transaction: the acquire load of `head_`, the relaxed load of
-- `consumer_core_`, and the number of the core that the thread runs on.
pub record WriteLoads : Type 0 where
  pub head : ℕ
  pub consumer_core : ℤ
  pub current_core : ℤ

-- What a call leaves: its result, the transaction, the memory, the `producer_core_` of the status
-- words (which the producer alone writes), and whether the thread yielded.
pub record Written : Type 0 where
  pub ok : Bool
  pub tx : TxWrite
  pub memory : Memory
  pub producer_core : ℤ
  pub yielded : Bool

-- The constructor. `tail` and `head` are what its two relaxed loads return.
unfoldable pub begin_write : (q : BaseTxQueue) (tail head : ℕ) → TxWrite
begin_write q tail head = record {
  storage = q.storage;
  tail = tail;
  cached_head = head;
  capacity = q.capacity;
  invalidated = not (is_ok q);
}

-- `operator bool`
unfoldable pub is_valid : TxWrite → Bool
is_valid tx = not tx.invalidated

-- `(cached_head_ - tail_ - 1 + capacity_) & (capacity_ - 1)`
unfoldable pub available_space : TxWrite → ℕ
available_space tx =
    bit_and (add64 (sub64 (sub64 tx.cached_head tx.tail) 1) tx.capacity) (sub64 tx.capacity 1)

-- "there is room, hence, write": one copy, or two round the end of the storage.
unfoldable pub copy_in : TxWrite → Memory → List ℕ → Memory
copy_in tx m buffer =
    let first_chunk_size = sub64 tx.capacity tx.tail in
    if ltb tx.capacity (add64 tx.tail (length buffer))
    then memcpy_to (memcpy_to m (tx.storage + tx.tail) (take first_chunk_size buffer)) tx.storage
        (drop first_chunk_size buffer)
    else memcpy_to m (tx.storage + tx.tail) buffer

-- The end of `imp_write`, once there is room.
unfoldable pub write_room : Memory → ℤ → TxWrite → List ℕ → Written
write_room m producer_core tx buffer = record {
  ok = true;
  tx = record tx { tail = bit_and (add64 tx.tail (length buffer)) (sub64 tx.capacity 1) };
  memory = copy_in tx m buffer;
  producer_core = if not (producer_core ==ℤ minus_one) then minus_one else producer_core;
  yielded = false;
}

-- The inner branch of `imp_write`, where the head that was loaded anew leaves no room either.
unfoldable pub write_full : WriteLoads → Memory → TxWrite → Written
write_full loads m tx = record {
  ok = false;
  tx = record tx { invalidated = true };
  memory = m;
  producer_core = loads.current_core;
  yielded = not (loads.consumer_core ==ℤ minus_one) && (loads.consumer_core ==ℤ loads.current_core);
}

-- A call that does nothing.
unfoldable pub refuse : Memory → ℤ → TxWrite → Written
refuse m producer_core tx = record {
  ok = false;
  tx = tx;
  memory = m;
  producer_core = producer_core;
  yielded = false;
}

-- "sync the head if no space"
unfoldable pub resync : WriteLoads → TxWrite → TxWrite
resync loads tx = record tx { cached_head = loads.head }

unfoldable pub imp_write : WriteLoads → Memory → ℤ → TxWrite → (buffer : List ℕ) → Written
unfolding refuse
imp_write loads m producer_core tx buffer =
    if tx.invalidated
    then refuse m producer_core tx
    else if ltb (available_space tx) (length buffer)
    then (let synced = resync loads tx in
        if ltb (available_space synced) (length buffer)
        then write_full loads m synced
        else write_room m producer_core synced buffer)
    else write_room m producer_core tx buffer

unfoldable pub invalidate : TxWrite → TxWrite
invalidate tx = record tx { invalidated = true }

-- The destructor: the value of `tail_` in the status words after it.
unfoldable pub end_write : TxWrite → (tail : ℕ) → ℕ
end_write tx tail = if not tx.invalidated then tx.tail else tail

-- What the overloads of `write` take: an object of some bytes, a string, an array of objects, and
-- an array of characters with the terminator as its last element.
pub data Item : Type 0 where
  object : List ℕ → Item
  text : List ℕ → Item
  array : List (List ℕ) → Item
  characters : List (List ℕ) → Item

unfoldable pub write_item : WriteLoads → Memory → ℤ → TxWrite → Item → Written
write_item loads m core tx (object bytes) = imp_write loads m core tx bytes
write_item loads m core tx (text bytes) = imp_write loads m core tx bytes
write_item loads m core tx (array elements) = imp_write loads m core tx (flatten elements)
write_item loads m core tx (characters elements) =
    if ltb 1 (length elements)
    then imp_write loads m core tx (flatten (take (length elements - 1) elements))
    else refuse m core tx

-- An argument behind the first of the variadic `write`, which is passed by value: an object or a
-- string. An array there arrives as a pointer. As the last argument it is an object, of which the bytes
-- of the address are sent; in front of others it picks the overload for a raw buffer, or none.
pub data Argument : Type 0 where
  by_value : List ℕ → Argument
  string_by_value : List ℕ → Argument

-- What the call with the rest of the arguments takes by reference.
abbrev pub item_of : Argument → Item
item_of (by_value bytes) = object bytes
item_of (string_by_value bytes) = text bytes

-- The variadic `write`, with what the loads of each part return: it stops at the first part that
-- is refused.
unfoldable pub write_items :
    Memory
    → ℤ
    → TxWrite
    → (first : WriteLoads × Item) (rest : List (WriteLoads × Argument)) → Written
write_items m core tx (loads, item) [] = write_item loads m core tx item
write_items m core tx (loads, item) ((loads', argument) ∷ rest) =
    let done = write_item loads m core tx item in
    let others =
      write_items done.memory done.producer_core done.tx (loads', item_of argument) rest in
    if not done.ok then done else others
