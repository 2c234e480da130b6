-- ===== src/Channel/Invariant.antt =====
-- What holds in every state of the system: the storage holds the bytes that are sent and not yet
-- received, then those of the open write transaction, and neither side runs into the other.
use tx_queue.Base.{
  ℕ, zero, suc, ◌+◌, ◌%◌, ◌≤◌, ◌<◌, ◌≡◌, refl, sym, ap, ◌∙◌, inl, inr, false, List, [], ◌∷◌, ◌++◌,
  Option, none, some, arith, length, take, drop, length-append,
}
use native.Mathlib.Nat.{one-le-pow, zero-mod}
use tx_queue.Memory.{Memory}
use tx_queue.Memory.Ring.{ring, ring-append}
use tx_queue.Queue.{BaseTxQueue, IsReady}
use tx_queue.Write.{TxWrite}
use tx_queue.Write.Laws.{IsWriting}
use tx_queue.Read.{TxRead}
use tx_queue.Read.Laws.{IsReading}
use tx_queue.Channel.{System, IsIn, start}

-- No position of a log is beyond `n`.
abbrev pub AllUpTo : ℕ → List ℕ → Type 0
AllUpTo n [] = Unit
AllUpTo n (x ∷ xs) = (x ≤ n) × AllUpTo n xs

pub AllUpTo-le : {a b : ℕ} (log : List ℕ) → a ≤ b → AllUpTo a log → AllUpTo b log
AllUpTo-le [] h all = tt
AllUpTo-le (x ∷ log) h all = (omega arith, AllUpTo-le log h all.1)

pub le_of_IsIn : {n p : ℕ} (log : List ℕ) → AllUpTo n log → IsIn p log → p ≤ n
le_of_IsIn [] all i = absurd i
le_of_IsIn (x ∷ log) all (inl e) = omega arith
le_of_IsIn (x ∷ log) all (inr i) = le_of_IsIn log all.1 i

-- An open transaction that is valid stands where the record of it says.
abbrev pub WriterStands : BaseTxQueue → (h p : ℕ) → Option TxWrite → Type 0
WriterStands q h p none = Unit
WriterStands q h p (some tx) = tx.invalidated ≡ false → IsWriting q h p tx

abbrev pub ReaderStands : BaseTxQueue → (t p : ℕ) → Option TxRead → Type 0
ReaderStands q t p none = Unit
ReaderStands q t p (some tx) = tx.invalidated ≡ false → IsReading q t p tx

-- The numbers of bytes: sent, pending, received and taken, and what is known of the other side.
pub record Counts (capacity : ℕ) (sent pending received taken : List ℕ) (head_seen tail_seen : ℕ)
    : Type 0 where
  pub head_known : head_seen ≤ length received
  pub tail_known : tail_seen ≤ length sent
  pub taken_in : length received + length taken ≤ tail_seen
  pub room : length sent + length pending < head_seen + capacity

-- The bytes that are sent and neither received nor taken are `left`; they, the bytes taken and the
-- pending ones stand in the storage.
pub record Contents (base capacity : ℕ) (m : Memory) (sent pending received taken : List ℕ)
    : Type 0 where
  pub left : List ℕ
  pub split : sent ≡ received ++ (taken ++ left)
  pub taken_stored : ring base capacity m (length received) (length taken) ≡ taken
  pub left_stored : ring base capacity m (length received + length taken) (length left) ≡ left
  pub pending_stored : ring base capacity m (length sent) (length pending) ≡ pending

pub record Inv (q : BaseTxQueue) (s : System) : Type 0 where
  pub tail_at : s.status.tail ≡ length s.sent % q.capacity
  pub head_at : s.status.head ≡ length s.received % q.capacity
  pub tails_in : AllUpTo (length s.sent) s.tails
  pub heads_in : AllUpTo (length s.received) s.heads
  pub counts : Counts q.capacity s.sent s.pending s.received s.taken s.head_seen s.tail_seen
  pub contents : Contents q.storage q.capacity s.memory s.sent s.pending s.received s.taken
  pub writer_at : WriterStands q s.head_seen (length s.sent + length s.pending) s.writer
  pub reader_at : ReaderStands q s.tail_seen (length s.received + length s.taken) s.reader

module _ (base capacity : ℕ) (m : Memory) where
  -- A stretch of the ring that holds `xs` holds each part of `xs`.
  pub ring-take :
      (n p : ℕ) (xs : List ℕ)
      → n ≤ length xs
      → ring base capacity m p (length xs) ≡ xs
      → ring base capacity m p n ≡ take n xs
  ring-take zero p xs h e = refl
  ring-take (suc n) p [] h e = absurd (omega arith)
  ring-take (suc n) p (x ∷ xs) h e = ground (arith, ring-take n (p + 1) xs)

  pub ring-drop :
      (n p : ℕ) (xs : List ℕ)
      → n ≤ length xs
      → ring base capacity m p (length xs) ≡ xs
      → ring base capacity m (p + n) (length (drop n xs)) ≡ drop n xs
  ring-drop zero p xs h e = let same : p + zero ≡ p = omega arith in rw same e
  ring-drop (suc n) p [] h e = absurd (omega arith)
  ring-drop (suc n) p (x ∷ xs) h e =
      let same : p + suc n ≡ p + 1 + n = omega arith in
      rw same (ring-drop n (p + 1) xs (omega arith) (cc))

  -- Two stretches, one behind the other.
  pub ring-join :
      (p : ℕ) (xs ys : List ℕ)
      → ring base capacity m p (length xs) ≡ xs
      → ring base capacity m (p + length xs) (length ys) ≡ ys
      → ring base capacity m p (length (xs ++ ys)) ≡ xs ++ ys
  ring-join p xs ys ex ey =
      ap (ring base capacity m p) (length-append xs ys)
      ∙ ring-append base capacity m p (length xs) (length ys)
      ∙ ap (λ t. t ++ ring base capacity m (p + length xs) (length ys)) ex
      ∙ ap (λ t. xs ++ t) ey

module _ {q : BaseTxQueue} (ready : IsReady q) where
  pub capacity_pos : 0 < q.capacity
  capacity_pos = omega (arith, ready.power, one-le-pow ready.log 2)

  pub start-Inv : (m : Memory) → Inv q (start m)
  start-Inv m = record {
    tail_at = sym (zero-mod q.capacity);
    head_at = sym (zero-mod q.capacity);
    tails_in = omega arith;
    heads_in = omega arith;
    counts = omega (arith, capacity_pos);
    contents = record {
      left = [];
      split = refl;
      taken_stored = refl;
      left_stored = refl;
      pending_stored = refl;
    };
    writer_at = tt;
    reader_at = tt;
  }
