-- ===== src/Write/Variants.antt =====
-- The overloads of `write` and the variadic one.
use mathlib.Core.List.{flatten}
use tx_queue.Base.{
  ℕ, ◌+◌, ◌-◌, ◌%◌, ◌≤◌, ◌<◌, ◌≡◌, refl, sym, ap, ◌∙◌, true, false, List, [], ◌∷◌, ◌++◌, append-nil,
  arith, ltb, lt→ltb, if◌then◌else◌, length, take, length-append, ℤ,
}
use tx_queue.Memory.{Memory}
use tx_queue.Memory.Ring.{ring_put, ring_put-append}
use tx_queue.Queue.{BaseTxQueue, IsReady}
use tx_queue.Write.{
  TxWrite, WriteLoads, Written, Item, Argument, by_value, string_by_value, item_of, object, text,
  array, characters, imp_write, write_item, write_items,
}
use tx_queue.Write.Laws.{IsWriting, Succeeds, imp_write-Succeeds}

-- The bytes that an overload sends. Of an array of characters the last is left out.
abbrev pub item_bytes : Item → List ℕ
item_bytes (object bytes) = bytes
item_bytes (text bytes) = bytes
item_bytes (array elements) = flatten elements
item_bytes (characters elements) = flatten (take (length elements - 1) elements)

abbrev pub all_bytes : List (WriteLoads × Argument) → List ℕ
all_bytes [] = []
all_bytes ((_, argument) ∷ rest) = item_bytes (item_of argument) ++ all_bytes rest

-- An array of characters with nothing but the terminator is refused.
abbrev pub IsWritable : Item → Type 0
IsWritable (characters elements) = 1 < length elements
IsWritable _ = Unit

-- The load of the head for each argument behind the first returns `head`.
abbrev pub AllLoad : (head : ℕ) → List (WriteLoads × Argument) → Type 0
AllLoad head [] = Unit
AllLoad head ((loads, _) ∷ rest) = (loads.head ≡ head) × AllLoad head rest

item_of-IsWritable : (argument : Argument) → IsWritable (item_of argument)
item_of-IsWritable (by_value bytes) = tt
item_of-IsWritable (string_by_value bytes) = tt

write_item-eq :
    (loads : WriteLoads) (m : Memory) (core : ℤ) (tx : TxWrite) (item : Item)
    → IsWritable item
    → write_item loads m core tx item ≡ imp_write loads m core tx (item_bytes item)
unfolding write_item
write_item-eq loads m core tx (object bytes) w = refl
write_item-eq loads m core tx (text bytes) w = refl
write_item-eq loads m core tx (array elements) w = refl
write_item-eq loads m core tx (characters elements) w = rw (lt→ltb 1 (length elements) w)

-- All parts were written from position `p` on, one behind the other.
pub record AllWritten (q : BaseTxQueue) (g p : ℕ) (m : Memory) (bytes : List ℕ) (r : Written)
    : Type 0 where
  pub ok : r.ok ≡ true
  pub valid : r.tx.invalidated ≡ false
  pub stored : r.memory ≡ ring_put q.storage q.capacity m p bytes
  pub seen : ℕ
  pub not_newer : seen ≤ g
  pub stands : IsWriting q seen (p + length bytes) r.tx

module _ {q : BaseTxQueue} (ready : IsReady q) (g : ℕ) where
  -- One part of any kind.
  write_item-AllWritten :
      (loads : WriteLoads) (m : Memory) (core : ℤ) (h p : ℕ) (tx : TxWrite) (item : Item)
      → tx.invalidated ≡ false
      → IsWriting q h p tx
      → h ≤ g
      → g ≤ p
      → loads.head ≡ g % q.capacity
      → IsWritable item
      → p + length (item_bytes item) < g + q.capacity
      → AllWritten q g p m (item_bytes item) (write_item loads m core tx item)
  write_item-AllWritten loads m core h p tx item valid w later bounded loaded writable fits =
      rw (write_item-eq loads m core tx item writable) (record {
        ok = done.ok;
        valid = done.valid;
        stored = done.stored;
        seen = known;
        not_newer = ground arith;
        stands = done.stands;
      })
    where
      known : ℕ
      known = if ltb (p + length (item_bytes item)) (h + q.capacity) then h else g

      done : Succeeds q known p m (item_bytes item) (imp_write loads m core tx (item_bytes item))
      done =
          imp_write-Succeeds ready loads m core h g p tx (item_bytes item) valid w later bounded
            loaded fits

  AllWritten-append :
      (p : ℕ) (m : Memory) (xs ys : List ℕ) (first r : Written)
      → AllWritten q g p m xs first
      → AllWritten q g (p + length xs) first.memory ys r
      → AllWritten q g p m (xs ++ ys) r
  AllWritten-append p m xs ys first r done others = record {
    ok = others.ok;
    valid = others.valid;
    stored =
        others.stored
        ∙ ap (λ t. ring_put q.storage q.capacity t (p + length xs) ys) done.stored
        ∙ sym (ring_put-append q.storage q.capacity m p xs ys);
    seen = others.seen;
    not_newer = others.not_newer;
    stands = rw further others.stands;
  }
    where
      further : p + length (xs ++ ys) ≡ p + length xs + length ys
      further = omega (arith, length-append xs ys)

  -- A variadic write of a valid transaction on a ready queue, its first argument of any kind but an
  -- empty literal and the others objects or strings, whose bytes fit together in front of the head
  -- that all its loads return, succeeds: the bytes of all arguments stand in the ring from the tail
  -- on, one argument behind the other, the tail of the transaction is behind the last, and it stays
  -- valid.
  pub write_items-AllWritten :
      (m : Memory) (core : ℤ) (h p : ℕ) (tx : TxWrite) (loads : WriteLoads) (item : Item)
      (rest : List (WriteLoads × Argument))
      → tx.invalidated ≡ false
      → IsWriting q h p tx
      → h ≤ g
      → g ≤ p
      → loads.head ≡ g % q.capacity
      → IsWritable item
      → AllLoad (g % q.capacity) rest
      → p + length (item_bytes item ++ all_bytes rest) < g + q.capacity
      → AllWritten q g p m
          (item_bytes item ++ all_bytes rest)
          (write_items m core tx (loads, item) rest)
  unfolding write_items
  write_items-AllWritten m core h p tx loads item [] valid w later bounded loaded writable all
        fits =
      rw (append-nil (item_bytes item)) (
        write_item-AllWritten loads m core h p tx item valid w later bounded loaded writable
          (omega (arith, ap length (append-nil (item_bytes item)))))
  write_items-AllWritten m core h p tx loads item ((loads', argument) ∷ rest) valid w later bounded
        loaded writable all fits =
      let bytes = all_bytes ((loads', argument) ∷ rest) in
      let total = length-append (item_bytes item) bytes in
      let first = write_item loads m core tx item in
      let done : AllWritten q g p m (item_bytes item) first =
        write_item-AllWritten loads m core h p tx item valid w later bounded loaded writable
          (omega (arith, total)) in
      let others =
        write_items-AllWritten first.memory first.producer_core done.seen
          (p + length (item_bytes item)) first.tx loads' (item_of argument) rest done.valid
          done.stands done.not_newer (omega arith) all.0 (item_of-IsWritable argument) all.1
          (omega (arith, total)) in
      rw (done.ok) (AllWritten-append p m (item_bytes item) bytes first _ done others)
