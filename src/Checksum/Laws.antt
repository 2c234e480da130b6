-- ===== src/Checksum/Laws.antt =====
-- What the checksum computes, and when it ends.
use tx_queue.Base.{
  ℕ, zero, suc, ◌+◌, ◌%◌, ◌^◌, ◌≤◌, ◌<◌, ◌≡◌, refl, sym, ap, true, false, ◌∙◌, List, [], ◌∷◌, ◌++◌,
  none, some, arith, length, length-append, get_or, ltb, lt→ltb, le→ltb, append_assoc, append-nil,
}
use tx_queue.Words.{add32}
use tx_queue.Checksum.{Status, update_from, update}

abbrev pub sum : List ℕ → ℕ
sum [] = 0
sum (b ∷ bs) = b + sum bs

pub sum-append : (xs ys : List ℕ) → sum (xs ++ ys) ≡ sum xs + sum ys
sum-append [] ys = omega arith
sum-append (x ∷ xs) ys = omega (arith, sum-append xs ys)

get_or-append : (xs ys : List ℕ) (y : ℕ) → get_or (xs ++ y ∷ ys) (length xs) 0 ≡ y
get_or-append [] ys y = refl
get_or-append (x ∷ xs) ys y = get_or-append xs ys y

-- From behind the first bytes, the loop adds up the others.
update_from_lem :
    (read left : List ℕ) (c : ℕ)
    → length (read ++ left) < 2 ^ 32
    → c < 2 ^ 32
    → update_from (suc (length left)) (length read) (record { checksum = c }) (read ++ left)
      ≡ some (record { checksum = (c + sum left) % 2 ^ 32 })
unfolding update_from
update_from_lem read [] c small fits =
    let last : ltb (length read) (length (read ++ [])) ≡ false =
      le→ltb (length read) (length (read ++ [])) (omega (arith, ap length (append-nil read))) in
    rw last (ap (λ n. some (record { checksum = n })) (omega arith))
update_from_lem read (b ∷ left) c small fits =
    let sizes = length-append read (b ∷ left) in
    let more : ltb (length read) (length (read ++ b ∷ left)) ≡ true =
      lt→ltb (length read) (length (read ++ b ∷ left)) (omega (arith, sizes)) in
    let next : add32 (length read) 1 ≡ length (read ++ b ∷ []) =
      omega (arith, length-append read (b ∷ []), sizes) in
    let same : read ++ b ∷ left ≡ (read ++ b ∷ []) ++ left =
      sym (append_assoc read (b ∷ []) left) in
    let ih =
      update_from_lem (read ++ b ∷ []) left (add32 c b)
        (omega (arith, length-append read (b ∷ []), length-append (read ++ b ∷ []) left, sizes))
        (omega arith) in
    rw (more, get_or-append read left b, next, same)
      (ih ∙ ap (λ n. some (record { checksum = n })) (omega arith))

-- A buffer of fewer than 2 ^ 32 bytes: `update` ends, and has added the bytes modulo 2 ^ 32.
pub update_lem :
    (c : ℕ) (buffer : List ℕ)
    → c < 2 ^ 32
    → length buffer < 2 ^ 32
    → update (record { checksum = c }) buffer
      ≡ some (record { checksum = (c + sum buffer) % 2 ^ 32 })
unfolding update
update_lem c buffer fits small = update_from_lem [] buffer c small fits

-- A buffer of 2 ^ 32 bytes or more: the loop never ends, however many turns it is given.
pub update_diverges :
    (fuel : ℕ) (s : Status) (buffer : List ℕ)
    → 2 ^ 32 ≤ length buffer
    → update_from fuel 0 s buffer ≡ none
unfolding update_from
update_diverges fuel s buffer large = go fuel 0 s (omega arith)
  where
    go : (fuel i : ℕ) (s : Status) → i < 2 ^ 32 → update_from fuel i s buffer ≡ none
    go zero i s small = refl
    go (suc fuel) i s small =
        let turn : ltb i (length buffer) ≡ true = lt→ltb i (length buffer) (omega arith) in
        rw turn (go fuel (add32 i 1) _ (omega arith))

-- What is computed does not depend on how a buffer of fewer than 2 ^ 32 bytes is split.
pub update_split :
    (c : ℕ) (xs ys : List ℕ)
    → c < 2 ^ 32
    → length (xs ++ ys) < 2 ^ 32
    → (s : Status) × (update (record { checksum = c }) xs ≡ some s)
      × (update s ys ≡ update (record { checksum = c }) (xs ++ ys))
update_split c xs ys fits small = (
  record { checksum = (c + sum xs) % 2 ^ 32 },
  update_lem c xs fits (omega (arith, length-append xs ys)),
  update_lem ((c + sum xs) % 2 ^ 32) ys (omega arith) (omega (arith, length-append xs ys))
      ∙ ap (λ n. some (record { checksum = n })) (omega (arith, sum-append xs ys))
      ∙ sym (update_lem c (xs ++ ys) fits small),
)
