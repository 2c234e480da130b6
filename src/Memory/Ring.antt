-- ===== src/Memory/Ring.antt =====
-- A storage of `capacity` bytes seen as a ring: positions grow for ever, and position `p` stands at the
-- address `base + p % capacity`. Copies that go round the end are writes and reads at positions.
use tx_queue.Base.{
  ℕ, zero, suc, ◌+◌, ◌%◌, ◌≤◌, ◌<◌, ◌≡◌, refl, ap, ap₂, ◌∙◌, ◌⊎◌, List, [], ◌∷◌, ◌++◌, arith,
  length,
}
use native.Mathlib.Nat.{mod-lt}
use tx_queue.Words.Modular.{mod-add, mod-ne}
use tx_queue.Memory.{Memory, store, memcpy_to, memcpy_from}

module _ (base capacity : ℕ) where
  abbrev pub cell : ℕ → ℕ
  cell p = base + p % capacity

  -- The `n` bytes from position `p` on.
  abbrev pub ring : Memory → ℕ → ℕ → List ℕ
  ring m p zero = []
  ring m p (suc n) = m (cell p) ∷ ring m (p + 1) n

  -- Bytes put at the positions from `p` on.
  abbrev pub ring_put : Memory → ℕ → List ℕ → Memory
  ring_put m p [] = m
  ring_put m p (b ∷ bs) = ring_put (store m (cell p) b) (p + 1) bs

  pub length-ring : (m : Memory) (p n : ℕ) → length (ring m p n) ≡ n
  length-ring m p zero = refl
  length-ring m p (suc n) = ap suc (length-ring m (p + 1) n)

  pub ring-append : (m : Memory) (p a b : ℕ) → ring m p (a + b) ≡ ring m p a ++ ring m (p + a) b
  ring-append m p zero b = ap₂ (ring m) (omega arith) (omega arith)
  ring-append m p (suc a) b =
      let more : suc a + b ≡ suc (a + b) = omega arith in
      let next : p + 1 + a ≡ p + suc a = omega arith in
      ap (ring m p) more
      ∙ ap (λ t. m (cell p) ∷ t) (ring-append m (p + 1) a b)
      ∙ ap (λ t. ring m p (suc a) ++ ring m t b) next

  pub ring_put-append :
      (m : Memory) (p : ℕ) (xs ys : List ℕ)
      → ring_put m p (xs ++ ys) ≡ ring_put (ring_put m p xs) (p + length xs) ys
  ring_put-append m p [] ys = ap (λ t. ring_put m t ys) (omega arith)
  ring_put-append m p (x ∷ xs) ys =
      ring_put-append (store m (cell p) x) (p + 1) xs ys
      ∙ ap (λ t. ring_put (ring_put m p (x ∷ xs)) t ys) (omega arith)

  -- A copy that does not pass the end of the storage.
  pub memcpy_to-eq-ring_put :
      (m : Memory) (p : ℕ) (bs : List ℕ)
      → p % capacity + length bs ≤ capacity
      → memcpy_to m (cell p) bs ≡ ring_put m p bs
  unfolding memcpy_to
  memcpy_to-eq-ring_put m p [] h = refl
  memcpy_to-eq-ring_put m p (b ∷ []) h = refl
  memcpy_to-eq-ring_put m p (b ∷ c ∷ bs) h =
      let next : (p + 1) % capacity ≡ p % capacity + 1 = mod-add capacity p 1 (omega arith) in
      let at : cell p + 1 ≡ cell (p + 1) = omega arith in
      ap (λ t. memcpy_to (store m (cell p) b) t (c ∷ bs)) at
      ∙ memcpy_to-eq-ring_put (store m (cell p) b) (p + 1) (c ∷ bs) (omega arith)

  pub memcpy_from-eq-ring :
      (m : Memory) (p n : ℕ) → p % capacity + n ≤ capacity → memcpy_from m (cell p) n ≡ ring m p n
  unfolding memcpy_from
  memcpy_from-eq-ring m p zero h = refl
  memcpy_from-eq-ring m p (suc zero) h = refl
  memcpy_from-eq-ring m p (suc (suc n)) h =
      let next : (p + 1) % capacity ≡ p % capacity + 1 = mod-add capacity p 1 (omega arith) in
      let at : cell p + 1 ≡ cell (p + 1) = omega arith in
      ap (λ t. m (cell p) ∷ t)
        (ap (λ t. memcpy_from m t (suc n)) at ∙ memcpy_from-eq-ring m (p + 1) (suc n) (omega arith))

  ring-store :
      (m : Memory) (r v p n : ℕ)
      → p + n ≤ r
      → r < p + capacity
      → ring (store m (cell r) v) p n ≡ ring m p n
  unfolding store
  ring-store m r v p zero h g = refl
  ring-store m r v p (suc n) h g =
      let apart = mod-ne capacity p r (omega arith) g in
      ap₂ ◌∷◌ (ground arith) (ring-store m r v (p + 1) n (omega arith) (omega arith))

  -- Bytes put behind a stretch of positions, less than one round on, leave it alone.
  pub ring-ring_put_before :
      (m : Memory) (r : ℕ) (bs : List ℕ) (p n : ℕ)
      → p + n ≤ r
      → r + length bs ≤ p + capacity
      → ring (ring_put m r bs) p n ≡ ring m p n
  ring-ring_put_before m r [] p n h g = refl
  ring-ring_put_before m r (b ∷ bs) p n h g =
      ring-ring_put_before (store m (cell r) b) (r + 1) bs p n (omega arith) (omega arith)
      ∙ ring-store m r b p n h (omega arith)

  -- What was put is read back, if it goes round no more than once.
  pub ring-ring_put_self :
      (m : Memory) (p : ℕ) (bs : List ℕ)
      → length bs ≤ capacity
      → ring (ring_put m p bs) p (length bs) ≡ bs
  ring-ring_put_self m p [] h = refl
  ring-ring_put_self m p (b ∷ bs) h =
      ap₂ ◌∷◌ first (ring-ring_put_self (store m (cell p) b) (p + 1) bs (omega arith))
    where
      kept : ring (ring_put m p (b ∷ bs)) p 1 ≡ ring (store m (cell p) b) p 1
      kept = ring-ring_put_before (store m (cell p) b) (p + 1) bs p 1 (omega arith) (omega arith)

      first : ring_put m p (b ∷ bs) (cell p) ≡ b
      first = unfold store in ground (arith, kept)

  -- Bytes outside the storage are never touched.
  pub ring_put-outside :
      (m : Memory) (p : ℕ) (bs : List ℕ) (x : ℕ)
      → 0 < capacity
      → (x < base) ⊎ (base + capacity ≤ x)
      → ring_put m p bs x ≡ m x
  unfolding store
  ring_put-outside m p [] x c h = refl
  ring_put-outside m p (b ∷ bs) x c h =
      ring_put-outside (store m (cell p) b) (p + 1) bs x c h ∙ ground (arith, mod-lt p c)
