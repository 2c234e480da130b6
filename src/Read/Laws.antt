-- ===== src/Read/Laws.antt =====
-- `imp_read` on a transaction that stands at position `p` of the ring, when the producer was last
-- seen at position `t` and a load of `tail_` returns position `g`.
use tx_queue.Base.{
  ℕ, ◌+◌, ◌-◌, ◌%◌, ◌^◌, ◌≤◌, ◌<◌, ◌≡◌, refl, true, false, List, ℤ, pos, negsuc, minus_one, ◌==ℤ◌,
  arith, leb, le→leb, lt→leb, not, ◌&&◌, if◌then◌else◌, length, dec_le,
}
use native.Mathlib.Nat.{pow-le-pow_right}
use tx_queue.Words.Modular.{between_masked, advance_masked}
use tx_queue.Memory.{Memory}
use tx_queue.Memory.Ring.{ring}
use tx_queue.Queue.{BaseTxQueue, IsReady}
use tx_queue.Read.{
  TxRead, ReadLoads, ReadOut, available_data, resync, read_data, read_short, refuse, imp_read,
}
use tx_queue.Read.Copy.{copy_out-eq-ring}

-- The transaction has read up to position `p`, and the tail that it knows is position `t`.
pub record IsReading (q : BaseTxQueue) (t p : ℕ) (tx : TxRead) : Type 0 where
  pub same_storage : tx.storage ≡ q.storage
  pub same_capacity : tx.capacity ≡ q.capacity
  pub at_head : tx.head ≡ p % q.capacity
  pub at_tail : tx.cached_tail ≡ t % q.capacity
  pub behind : p ≤ t
  pub within : t < p + q.capacity

-- A read of `size` bytes that succeeded from position `p`, now knowing the tail at position `t`.
pub record Succeeds (q : BaseTxQueue) (t p : ℕ) (m : Memory) (size : ℕ) (r : ReadOut) : Type 0 where
  pub ok : r.ok ≡ true
  pub valid : r.tx.invalidated ≡ false
  pub bytes : r.buffer ≡ ring q.storage q.capacity m p size
  pub stands : IsReading q t (p + size) r.tx
  pub no_core : r.consumer_core ≡ minus_one
  pub no_yield : r.yielded ≡ false

-- A read that found too little data: the buffer is as it was, and the transaction will not commit.
pub record Refused (loads : ReadLoads) (buffer : List ℕ) (r : ReadOut) : Type 0 where
  pub ok : r.ok ≡ false
  pub invalid : r.tx.invalidated ≡ true
  pub untouched : r.buffer ≡ buffer
  pub core_noted : r.consumer_core ≡ loads.current_core
  pub yields :
      r.yielded
      ≡ (not (loads.producer_core ==ℤ minus_one) && (loads.producer_core ==ℤ loads.current_core))

-- The core number that a read which succeeds leaves: none.
cleared : (core : ℤ) → (if not (core ==ℤ minus_one) then minus_one else core) ≡ minus_one
cleared (pos n) = refl
cleared (negsuc n) = ground arith

module _ {q : BaseTxQueue} (ready : IsReady q) where
  small : q.capacity ≤ 2 ^ 63
  small = rw ready.power (pow-le-pow_right {n = 2} (omega arith) {j = 63} ready.small)

  -- The masked difference is the number of bytes between the head and the tail.
  pub available_data-eq : (t p : ℕ) (tx : TxRead) → IsReading q t p tx → available_data tx ≡ t - p
  unfolding available_data
  available_data-eq t p tx w =
      rw (w.same_capacity, w.at_tail, w.at_head)
        (between_masked q.capacity p t w.behind w.within ready.log ready.small ready.power)

  read_data-Succeeds :
      (m : Memory) (core : ℤ) (t p : ℕ) (tx : TxRead) (size : ℕ)
      → IsReading q t p tx
      → p + size ≤ t
      → tx.invalidated ≡ false
      → Succeeds q t p m size (read_data m core tx size)
  unfolding read_data
  read_data-Succeeds m core t p tx size w fits valid = record {
    ok = refl;
    valid = valid;
    bytes =
        copy_out-eq-ring q.storage q.capacity p small m size (omega (arith, w.within)) tx
          w.same_storage w.same_capacity w.at_head;
    stands = record {
      same_storage = w.same_storage;
      same_capacity = w.same_capacity;
      at_head =
          rw (w.same_capacity, w.at_head)
            (advance_masked q.capacity ready.log p size ready.small ready.power
              (omega (arith, w.within)));
      at_tail = w.at_tail;
      behind = fits;
      within = omega (arith, w.within);
    };
    no_core = cleared core;
    no_yield = refl;
  }

  module _ (loads : ReadLoads) (m : Memory) (core : ℤ) (t g p : ℕ) (tx : TxRead) (buffer : List ℕ)
      (valid : tx.invalidated ≡ false) (w : IsReading q t p tx) (later : t ≤ g)
      (bounded : g < p + q.capacity) (loaded : loads.tail ≡ g % q.capacity) where
    -- The position that the transaction takes for the tail afterwards.
    abbrev pub seen_after : ℕ
    seen_after = if leb (p + length buffer) t then t else g

    synced : IsReading q g p (resync loads tx)
    unfolding resync
    synced = record {
      same_storage = w.same_storage;
      same_capacity = w.same_capacity;
      at_head = w.at_head;
      at_tail = loaded;
      behind = omega (arith, w.behind);
      within = bounded;
    }

    result : ReadOut
    result = imp_read loads m core tx buffer

    -- The three ways through `imp_read` of a valid transaction.
    at_once : p + length buffer ≤ t → result ≡ read_data m core tx (length buffer)
    unfolding result imp_read
    at_once fits = ground (arith, available_data-eq t p tx w)

    after_sync :
        t < p + length buffer
        → p + length buffer ≤ g
        → result ≡ read_data m core (resync loads tx) (length buffer)
    unfolding result imp_read
    after_sync short fits =
        ground (arith, available_data-eq t p tx w, available_data-eq g p (resync loads tx) synced)

    too_little : g < p + length buffer → result ≡ read_short loads (resync loads tx) buffer
    unfolding result imp_read
    too_little short =
        ground (arith, available_data-eq t p tx w, available_data-eq g p (resync loads tx) synced)

    -- A read of a valid transaction, of no more bytes than its load of the tail would show, succeeds,
    -- whatever older tail the transaction knew: it gives the bytes of the ring behind those that it
    -- had read, no core is noted, and it knows the newer tail only if the older one showed too
    -- little.
    pub imp_read-Succeeds :
        p + length buffer ≤ g
        → Succeeds q seen_after p m (length buffer) (imp_read loads m core tx buffer)
    unfolding result resync
    imp_read-Succeeds fits = elim (dec_le (p + length buffer) t) [
      | yes old ↦
          rw (at_once old, le→leb (p + length buffer) t old)
            (read_data-Succeeds m core t p tx (length buffer) w old valid)
      | no new ↦
          rw (after_sync (omega arith) fits, lt→leb (p + length buffer) t (omega arith))
            (read_data-Succeeds m core g p (resync loads tx) (length buffer) synced fits valid)
    ]

    -- A read of a valid transaction, of more bytes than its load of the tail shows, fails: the buffer
    -- is as before, the transaction is invalidated, the core is noted, and the thread yields exactly
    -- when the producer has noted the same core.
    pub imp_read-Refused :
        g < p + length buffer → Refused loads buffer (imp_read loads m core tx buffer)
    unfolding result read_short
    imp_read-Refused short =
        rw (too_little short)
          (record { ok = refl; invalid = refl; untouched = refl; core_noted = refl; yields = refl })

-- A transaction that was invalidated is left as it is, and so is the buffer.
pub imp_read-refuse :
    (loads : ReadLoads) (m : Memory) (core : ℤ) (tx : TxRead) (buffer : List ℕ)
    → tx.invalidated ≡ true
    → imp_read loads m core tx buffer ≡ refuse core tx buffer
unfolding imp_read
imp_read-refuse loads m core tx buffer bad = ground arith
