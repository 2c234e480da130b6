-- ===== src/Jobs/Run/Verified.antt =====
-- The verification of the two jobs with checksum.h and sha256.h: what is hashed chunk by chunk on
-- both sides is the hash of the whole data.
use tx_queue.Base.{
  length-take, ℕ, ◌+◌, ◌%◌, ◌<◌, ◌^◌, ◌≡◌, refl, sym, ap, ◌∙◌, List, [], ◌∷◌, Option, some, arith,
  length, length-append, take_all,
}
use tx_queue.Memory.{Memory}
use tx_queue.Queue.{BaseTxQueue, IsReady}
use tx_queue.Checksum.Laws.{sum, sum-append, update_lem}
use tx_queue.Sha256
use tx_queue.Sha256.Blocks.{
  IsBetween, initial-IsBetween, absorb_all, absorb_all-append, absorb_all-IsBetween,
  update-absorb_all,
}
use tx_queue.Jobs.Hashes.{
  Verification, unverified, checksum, sha256, Hashes, initial_hashes, with_checksum, with_sha256,
  update_hashes,
}
use tx_queue.Jobs.Run.{stopped, Run, begin, RunReach}
use tx_queue.Jobs.Run.Frames.{joined}
use tx_queue.Jobs.Run.Parts.{Announces}
use tx_queue.Jobs.Run.Flow.{hash_all}
use tx_queue.Jobs.Run.Invariant.{Setup}
use tx_queue.Jobs.Run.Safety.{received_is_prefix, stopped_has_all}

hash_all-sha256 :
    (h : Hashes) (cs : List (List ℕ))
    → IsBetween h.sha256_hash_status
    → hash_all (update_hashes sha256) (some h) cs
      ≡ some (record h { sha256_hash_status = absorb_all h.sha256_hash_status (joined cs) })
hash_all-sha256 h [] between = refl
hash_all-sha256 h (c ∷ cs) between =
    let s = h.sha256_hash_status in
    ap (λ o. hash_all (update_hashes sha256) (with_sha256 h o) cs) (update-absorb_all s c between)
    ∙ hash_all-sha256 (record h { sha256_hash_status = absorb_all s c }) cs
        (absorb_all-IsBetween s c between)
    ∙ ap (λ t. some (record h { sha256_hash_status = t })) (sym (absorb_all-append s c (joined cs)))

abbrev pub summed : Hashes → ℕ → Hashes
summed h n = record h { checksum_hash_status = record { checksum = n } }

hash_all-checksum :
    (h : Hashes) (cs : List (List ℕ))
    → h.checksum_hash_status.checksum < 2 ^ 32
    → length (joined cs) < 2 ^ 32
    → hash_all (update_hashes checksum) (some h) cs
      ≡ some (summed h ((h.checksum_hash_status.checksum + sum (joined cs)) % 2 ^ 32))
hash_all-checksum h [] fits small = ap (λ n. some (summed h n)) (omega arith)
hash_all-checksum h (d ∷ cs) fits small =
    let c = h.checksum_hash_status.checksum in
    ap (λ o. hash_all (update_hashes checksum) (with_checksum h o) cs)
      (update_lem c d fits (omega (arith, length-append d (joined cs))))
    ∙ hash_all-checksum (summed h ((c + sum d) % 2 ^ 32)) cs (omega arith)
        (omega (arith, length-append d (joined cs)))
    ∙ ap (λ n. some (summed h n)) (omega (arith, sum-append d (joined cs)))

hash_all-unverified :
    (h : Hashes) (cs : List (List ℕ)) → hash_all (update_hashes unverified) (some h) cs ≡ some h
hash_all-unverified h [] = refl
hash_all-unverified h (c ∷ cs) = hash_all-unverified h cs

module _ {q : BaseTxQueue} (ready : IsReady q) {m : Memory} {low : ℕ} {src_data buffer : List ℕ}
    {announced : Option ℕ} (announces : Announces q announced)
    (setup : Setup low (length buffer) src_data) where
  -- In such a run with any verification both jobs end with hashes, and with the same.
  pub both_hashed :
      (v : Verification) {r : Run (Option Hashes)}
      → length src_data < 2 ^ 32
      → RunReach
          (update_hashes v)
          q
          low
          (length buffer)
          (begin announced m src_data buffer (some initial_hashes))
          r
      → r.receive_pc ≡ stopped
      → (h : Hashes) × (r.receive.hash ≡ some h) × (r.transmit.hash ≡ some h)
  both_hashed v {r} small run at =
      let (chunks, _, whole, hashed, _) = received_is_prefix ready announces setup run in
      let (_, all, same) = stopped_has_all ready announces setup run at in
      let short : length (joined chunks) < 2 ^ 32 =
        omega (arith, ap length whole, length-take r.receive.total_data src_data) in
      let (h, ended) = ends v chunks short in (h, hashed ∙ ended, sym same ∙ hashed ∙ ended)
    where
      ends :
          (v : Verification) (cs : List (List ℕ))
          → length (joined cs) < 2 ^ 32
          → (h : Hashes) × (hash_all (update_hashes v) (some initial_hashes) cs ≡ some h)
      ends unverified cs short = (_, hash_all-unverified initial_hashes cs)
      ends checksum cs short = (_, hash_all-checksum initial_hashes cs (omega arith) short)
      ends sha256 cs short = (_, hash_all-sha256 initial_hashes cs initial-IsBetween)

  -- Once the consumer's job has ended, in a run of both jobs with the verification SHA256 on a ready
  -- queue, in any interleaving, in one process or with a start time passed first (not 0, of 64 bits,
  -- on a queue of more than 8 bytes), with chunk sizes drawn between a least one above 0 and the size of
  -- the buffer that receives, and data whose length fits 64 bits: the status of SHA-256 on both
  -- sides is what one update with the whole data leaves, whatever the chunks were.
  pub sha256_verified :
      {r : Run (Option Hashes)}
      → RunReach
          (update_hashes sha256)
          q
          low
          (length buffer)
          (begin announced m src_data buffer (some initial_hashes))
          r
      → r.receive_pc ≡ stopped
      → (r.receive.hash ≡ with_sha256 initial_hashes (Sha256.update Sha256.initial src_data))
        × (r.transmit.hash ≡ with_sha256 initial_hashes (Sha256.update Sha256.initial src_data))
  sha256_verified {r} run at =
      let (chunks, _, whole, hashed, _) = received_is_prefix ready announces setup run in
      let (_, all, same) = stopped_has_all ready announces setup run at in
      let all_data : joined chunks ≡ src_data =
        whole ∙ take_all r.receive.total_data src_data (omega (arith, all)) in
      let got : r.receive.hash
          ≡ with_sha256 initial_hashes (Sha256.update Sha256.initial src_data) =
        hashed
        ∙ hash_all-sha256 initial_hashes chunks initial-IsBetween
        ∙ ap (λ t. with_sha256 initial_hashes (some (absorb_all Sha256.initial t))) all_data
        ∙ ap (with_sha256 initial_hashes)
            (sym (update-absorb_all Sha256.initial src_data initial-IsBetween)) in
      (got, sym same ∙ got)

  -- The same with the verification CHECKSUM, for data of less than 2 ^ 32 bytes: both sides have the
  -- sum of the bytes, modulo 2 ^ 32.
  pub checksum_verified :
      {r : Run (Option Hashes)}
      → length src_data < 2 ^ 32
      → RunReach
          (update_hashes checksum)
          q
          low
          (length buffer)
          (begin announced m src_data buffer (some initial_hashes))
          r
      → r.receive_pc ≡ stopped
      → (r.receive.hash ≡ some (summed initial_hashes (sum src_data % 2 ^ 32)))
        × (r.transmit.hash ≡ some (summed initial_hashes (sum src_data % 2 ^ 32)))
  checksum_verified {r} small run at =
      let (chunks, _, whole, hashed, _) = received_is_prefix ready announces setup run in
      let (_, all, same) = stopped_has_all ready announces setup run at in
      let all_data : joined chunks ≡ src_data =
        whole ∙ take_all r.receive.total_data src_data (omega (arith, all)) in
      let got : r.receive.hash ≡ some (summed initial_hashes (sum src_data % 2 ^ 32)) =
        hashed
        ∙ hash_all-checksum initial_hashes chunks (omega arith) (omega (arith, ap length all_data))
        ∙ ap (λ t. some (summed initial_hashes ((0 + sum t) % 2 ^ 32))) all_data
        ∙ ap (λ n. some (summed initial_hashes n)) (omega arith) in
      (got, sym same ∙ got)
