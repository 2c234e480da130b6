-- ===== src/Write/Laws.antt =====
-- `imp_write` on a transaction that stands at position `p` of the ring, when the consumer was last
-- seen at position `h` and a load of `head_` returns position `g`.
use tx_queue.Base.{
  ℕ, ◌+◌, ◌-◌, ◌%◌, ◌^◌, ◌≤◌, ◌<◌, ◌≡◌, refl, true, false, List, ℤ, pos, negsuc, minus_one, ◌==ℤ◌,
  arith, ltb, lt→ltb, le→ltb, not, ◌&&◌, if◌then◌else◌, length, dec_lt,
}
use native.Mathlib.Nat.{pow-le-pow_right}
use tx_queue.Words.Modular.{room_masked, advance_masked}
use tx_queue.Memory.{Memory}
use tx_queue.Memory.Ring.{ring_put}
use tx_queue.Queue.{BaseTxQueue, IsReady}
use tx_queue.Write.{
  TxWrite, WriteLoads, Written, available_space, resync, write_room, write_full, refuse, imp_write,
}
use tx_queue.Write.Copy.{copy_in-eq-ring_put}

-- The transaction has written up to position `p`, and the head that it knows is position `h`.
pub record IsWriting (q : BaseTxQueue) (h p : ℕ) (tx : TxWrite) : Type 0 where
  pub same_storage : tx.storage ≡ q.storage
  pub same_capacity : tx.capacity ≡ q.capacity
  pub at_tail : tx.tail ≡ p % q.capacity
  pub at_head : tx.cached_head ≡ h % q.capacity
  pub behind : h ≤ p
  pub room : p < h + q.capacity

-- A write that succeeded from position `p`, now knowing the head at position `h`.
pub record Succeeds (q : BaseTxQueue) (h p : ℕ) (m : Memory) (buffer : List ℕ) (r : Written)
    : Type 0 where
  pub ok : r.ok ≡ true
  pub valid : r.tx.invalidated ≡ false
  pub stored : r.memory ≡ ring_put q.storage q.capacity m p buffer
  pub stands : IsWriting q h (p + length buffer) r.tx
  pub no_core : r.producer_core ≡ minus_one
  pub no_yield : r.yielded ≡ false

-- A write that found no room: it touched no memory, and the transaction will not commit.
pub record Refused (loads : WriteLoads) (m : Memory) (r : Written) : Type 0 where
  pub ok : r.ok ≡ false
  pub invalid : r.tx.invalidated ≡ true
  pub untouched : r.memory ≡ m
  pub core_noted : r.producer_core ≡ loads.current_core
  pub yields :
      r.yielded
      ≡ (not (loads.consumer_core ==ℤ minus_one) && (loads.consumer_core ==ℤ loads.current_core))

-- The core number that a write which succeeds leaves: none.
cleared : (core : ℤ) → (if not (core ==ℤ minus_one) then minus_one else core) ≡ minus_one
cleared (pos n) = refl
cleared (negsuc n) = ground arith

module _ {q : BaseTxQueue} (ready : IsReady q) where
  small : q.capacity ≤ 2 ^ 63
  small = rw ready.power (pow-le-pow_right {n = 2} (omega arith) {j = 63} ready.small)

  -- The masked difference is the number of bytes between the tail and one byte behind the head.
  pub available_space-eq :
      (h p : ℕ) (tx : TxWrite) → IsWriting q h p tx → available_space tx ≡ h + q.capacity - 1 - p
  unfolding available_space
  available_space-eq h p tx w =
      rw (w.same_capacity, w.at_tail, w.at_head)
        (room_masked q.capacity h p w.behind w.room ready.log ready.small ready.power)

  -- Once there is room, the buffer stands at the positions from `p` on.
  write_room-Succeeds :
      (m : Memory) (core : ℤ) (h p : ℕ) (tx : TxWrite) (buffer : List ℕ)
      → IsWriting q h p tx
      → p + length buffer < h + q.capacity
      → tx.invalidated ≡ false
      → Succeeds q h p m buffer (write_room m core tx buffer)
  unfolding write_room
  write_room-Succeeds m core h p tx buffer w fits valid = record {
    ok = refl;
    valid = valid;
    stored =
        copy_in-eq-ring_put q.storage q.capacity p small m buffer (omega (arith, w.behind)) tx
          w.same_storage w.same_capacity w.at_tail;
    stands = record {
      same_storage = w.same_storage;
      same_capacity = w.same_capacity;
      at_tail =
          rw (w.same_capacity, w.at_tail)
            (advance_masked q.capacity ready.log p (length buffer) ready.small ready.power
              (omega (arith, w.behind)));
      at_head = w.at_head;
      behind = omega (arith, w.behind);
      room = fits;
    };
    no_core = cleared core;
    no_yield = refl;
  }

  module _ (loads : WriteLoads) (m : Memory) (core : ℤ) (h g p : ℕ) (tx : TxWrite) (buffer : List ℕ)
      (valid : tx.invalidated ≡ false) (w : IsWriting q h p tx) (later : h ≤ g) (bounded : g ≤ p)
      (loaded : loads.head ≡ g % q.capacity) where
    -- The position that the transaction takes for the head afterwards.
    abbrev pub seen_after : ℕ
    seen_after = if ltb (p + length buffer) (h + q.capacity) then h else g

    synced : IsWriting q g p (resync loads tx)
    unfolding resync
    synced = record {
      same_storage = w.same_storage;
      same_capacity = w.same_capacity;
      at_tail = w.at_tail;
      at_head = loaded;
      behind = bounded;
      room = omega (arith, w.room);
    }

    result : Written
    result = imp_write loads m core tx buffer

    -- The three ways through `imp_write` of a valid transaction.
    at_once : p + length buffer < h + q.capacity → result ≡ write_room m core tx buffer
    unfolding result imp_write
    at_once fits = ground (arith, available_space-eq h p tx w)

    after_sync :
        h + q.capacity ≤ p + length buffer
        → p + length buffer < g + q.capacity
        → result ≡ write_room m core (resync loads tx) buffer
    unfolding result imp_write
    after_sync full fits = ground (
      arith,
      available_space-eq h p tx w,
      available_space-eq g p (resync loads tx) synced,
      w.room,
    )

    no_room : g + q.capacity ≤ p + length buffer → result ≡ write_full loads m (resync loads tx)
    unfolding result imp_write
    no_room full = ground (
      arith,
      available_space-eq h p tx w,
      available_space-eq g p (resync loads tx) synced,
      w.room,
    )

    -- A write of a valid transaction whose bytes fit in front of the head that its load would return
    -- succeeds, whatever older head the transaction knew: the bytes stand in the ring behind what it
    -- had written, all else in memory is as before, no core is noted, and it knows the newer head
    -- only if the older one left too little room.
    pub imp_write-Succeeds :
        p + length buffer < g + q.capacity
        → Succeeds q seen_after p m buffer (imp_write loads m core tx buffer)
    unfolding result resync
    imp_write-Succeeds fits = elim (dec_lt (p + length buffer) (h + q.capacity)) [
      | yes old ↦
          rw (at_once old, lt→ltb _ _ old) (write_room-Succeeds m core h p tx buffer w old valid)
      | no new ↦
          rw
            (
              after_sync (omega arith) fits,
              le→ltb (p + length buffer) (h + q.capacity) (omega arith),
            )
            (write_room-Succeeds m core g p (resync loads tx) buffer synced fits valid)
    ]

    -- A write of a valid transaction whose bytes do not fit in front of the head that its load
    -- returns fails: memory is as before, the transaction is invalidated, the core is noted, and the
    -- thread yields exactly when the consumer has noted the same core.
    pub imp_write-Refused :
        g + q.capacity ≤ p + length buffer → Refused loads m (imp_write loads m core tx buffer)
    unfolding result write_full
    imp_write-Refused full =
        rw (no_room full)
          (record { ok = refl; invalid = refl; untouched = refl; core_noted = refl; yields = refl })

-- A transaction that was invalidated is left as it is, and so is everything else.
pub imp_write-refuse :
    (loads : WriteLoads) (m : Memory) (core : ℤ) (tx : TxWrite) (buffer : List ℕ)
    → tx.invalidated ≡ true
    → imp_write loads m core tx buffer ≡ refuse m core tx
unfolding imp_write
imp_write-refuse loads m core tx buffer bad = ground arith
