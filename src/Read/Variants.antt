-- ===== src/Read/Variants.antt =====
-- The structured read, which fills the members of a tuple one after the other.
use tx_queue.Base.{
  ℕ, ◌+◌, ◌%◌, ◌≤◌, ◌<◌, ◌≡◌, refl, ap₂, true, false, List, [], ◌∷◌, map, arith, leb, if◌then◌else◌,
  length, ℤ, dec_le,
}
use tx_queue.Memory.{Memory}
use tx_queue.Memory.Ring.{ring}
use tx_queue.Queue.{BaseTxQueue, IsReady}
use tx_queue.Read.{TxRead, ReadLoads, Fields, imp_read, read_each, read_fields}
use tx_queue.Read.Laws.{IsReading, imp_read-Succeeds, imp_read-Refused}

-- The bytes that the members have together.
abbrev pub total_size : List (ReadLoads × List ℕ) → ℕ
total_size [] = 0
total_size ((_, value) ∷ fields) = length value + total_size fields

-- Each load of the tail returns `tail`.
abbrev pub AllLoad : (tail : ℕ) → List (ReadLoads × List ℕ) → Type 0
AllLoad tail [] = Unit
AllLoad tail ((loads, _) ∷ fields) = (loads.tail ≡ tail) × AllLoad tail fields

-- The values at consecutive positions, each as long as the member that it is for.
abbrev pub values_at :
    (base capacity : ℕ) → Memory → (p : ℕ) → List (ReadLoads × List ℕ) → List (List ℕ)
values_at base capacity m p [] = []
values_at base capacity m p ((_, value) ∷ fields) =
    ring base capacity m p (length value) ∷ values_at base capacity m (p + length value) fields

-- All members were read from position `p` on, one behind the other.
pub record AllRead (q : BaseTxQueue) (g p size : ℕ) (values : List (List ℕ)) (r : Fields)
    : Type 0 where
  pub all_read : r.all_read ≡ true
  pub valid : r.tx.invalidated ≡ false
  pub values_eq : r.values ≡ values
  pub seen : ℕ
  pub not_newer : seen ≤ g
  pub stands : IsReading q seen (p + size) r.tx

module _ {q : BaseTxQueue} (ready : IsReady q) (g : ℕ) (m : Memory) where
  read_each-AllRead :
      (fields : List (ReadLoads × List ℕ)) (core : ℤ) (t p : ℕ) (tx : TxRead)
      → tx.invalidated ≡ false
      → IsReading q t p tx
      → t ≤ g
      → g < p + q.capacity
      → AllLoad (g % q.capacity) fields
      → p + total_size fields ≤ g
      → AllRead q g p
          (total_size fields)
          (values_at q.storage q.capacity m p fields)
          (read_each m core tx fields)
  unfolding read_each
  read_each-AllRead [] core t p tx valid w later bounded all fits =
      let none_more : p + 0 ≡ p = omega arith in
      record {
        all_read = refl;
        valid = valid;
        values_eq = refl;
        seen = t;
        not_newer = later;
        stands = rw none_more w;
      }
  read_each-AllRead ((loads, value) ∷ fields) core t p tx valid w later bounded all fits =
      let r = imp_read loads m core tx value in
      let done =
        imp_read-Succeeds ready loads m core t g p tx value valid w later bounded all.0
          (omega arith) in
      let others =
        read_each-AllRead fields r.consumer_core (if leb (p + length value) t then t else g)
          (p + length value) r.tx done.valid done.stands (ground arith) (omega arith) all.1
          (omega arith) in
      let further : p + (length value + total_size fields) ≡ p + length value + total_size fields =
        omega arith in
      rw (done.ok) (record {
        all_read = others.all_read;
        valid = others.valid;
        values_eq = ap₂ ◌∷◌ done.bytes others.values_eq;
        seen = others.seen;
        not_newer = others.not_newer;
        stands = rw further others.stands;
      })

  -- A structured read of a valid transaction, of no more bytes than the tail that all its loads
  -- return shows, fills every member with the bytes at its place, and stands behind the last.
  pub read_fields-AllRead :
      (fields : List (ReadLoads × List ℕ)) (core : ℤ) (t p : ℕ) (tx : TxRead)
      → tx.invalidated ≡ false
      → IsReading q t p tx
      → t ≤ g
      → g < p + q.capacity
      → AllLoad (g % q.capacity) fields
      → p + total_size fields ≤ g
      → AllRead q g p
          (total_size fields)
          (values_at q.storage q.capacity m p fields)
          (read_fields m core tx fields)
  unfolding read_fields
  read_fields-AllRead fields core t p tx valid w later bounded all fits =
      let done = read_each-AllRead fields core t p tx valid w later bounded all fits in
      rw (done.all_read) done

  read_each-short :
      (fields : List (ReadLoads × List ℕ)) (core : ℤ) (t p : ℕ) (tx : TxRead)
      → tx.invalidated ≡ false
      → IsReading q t p tx
      → t ≤ g
      → g < p + q.capacity
      → AllLoad (g % q.capacity) fields
      → g < p + total_size fields
      → let r = read_each m core tx fields in (r.all_read ≡ false) × (r.tx.invalidated ≡ true)
  unfolding read_each
  read_each-short [] core t p tx valid w later bounded all short = absurd (omega (arith, w.behind))
  read_each-short ((loads, value) ∷ fields) core t p tx valid w later bounded all short =
      elim (dec_le (p + length value) g) [
        | yes fits ↦
            let done =
              imp_read-Succeeds ready loads m core t g p tx value valid w later bounded all.0
                fits in
            rw (done.ok) (
              read_each-short fields (imp_read loads m core tx value).consumer_core
                (if leb (p + length value) t then t else g) (p + length value)
                (imp_read loads m core tx value).tx done.valid done.stands (ground arith)
                (omega arith) all.1 (omega arith))
        | no full ↦
            let failed =
              imp_read-Refused ready loads m core t g p tx value valid w later bounded all.0
                (omega arith) in
            rw (failed.ok) (refl, failed.invalid)
      ]

  -- A structured read of a valid transaction, of more bytes than the tail that all its loads return
  -- shows, gives the default values, not some of those read, and leaves a transaction that will not
  -- commit.
  read_fields-short :
      (fields : List (ReadLoads × List ℕ)) (core : ℤ) (t p : ℕ) (tx : TxRead)
      → tx.invalidated ≡ false
      → IsReading q t p tx
      → t ≤ g
      → g < p + q.capacity
      → AllLoad (g % q.capacity) fields
      → g < p + total_size fields
      → let r = read_fields m core tx fields in
        (r.values ≡ map (λ f. f.1) fields) × (r.tx.invalidated ≡ true)
  unfolding read_fields
  read_fields-short fields core t p tx valid w later bounded all short =
      let failed = read_each-short fields core t p tx valid w later bounded all short in
      rw (failed.0) (refl, failed.1)
