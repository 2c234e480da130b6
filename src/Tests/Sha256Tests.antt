-- ===== src/Tests/Sha256Tests.antt =====
-- The digests at the standard's test vectors, and the theorems at the first of them.
use tx_queue.Base.{ℕ, ◌+◌, ◌/◌, ◌%◌, ◌<◌, ◌≡◌, refl, List, [], ◌∷◌, ◌++◌, some}
use tx_queue.Sha256
use tx_queue.Sha256.{Status, Digest, initial, update, to_digest, padded}
use tx_queue.Sha256.Compress
use tx_queue.Sha256.Blocks.{initial-IsBetween, absorb_all, absorb_all-IsBetween, update-absorb_all}
use tx_queue.Sha256.Padding.{put_all, zero_bytes, high_first, padded-put_all}

abbrev abc : List ℕ
abc = 0x61 ∷ 0x62 ∷ 0x63 ∷ []

-- "abcdbcdecdefdefgefghfghighijhijkijkljklmklmnlmnomnopnopq"
abbrev two_blocks : List ℕ
two_blocks =
    0x61 ∷ 0x62 ∷ 0x63 ∷ 0x64 ∷ 0x62 ∷ 0x63 ∷ 0x64 ∷ 0x65 ∷ 0x63 ∷ 0x64 ∷ 0x65 ∷ 0x66 ∷ 0x64 ∷ 0x65
    ∷ 0x66 ∷ 0x67 ∷ 0x65 ∷ 0x66 ∷ 0x67 ∷ 0x68 ∷ 0x66 ∷ 0x67 ∷ 0x68 ∷ 0x69 ∷ 0x67 ∷ 0x68 ∷ 0x69
    ∷ 0x6a ∷ 0x68 ∷ 0x69 ∷ 0x6a ∷ 0x6b ∷ 0x69 ∷ 0x6a ∷ 0x6b ∷ 0x6c ∷ 0x6a ∷ 0x6b ∷ 0x6c ∷ 0x6d
    ∷ 0x6b ∷ 0x6c ∷ 0x6d ∷ 0x6e ∷ 0x6c ∷ 0x6d ∷ 0x6e ∷ 0x6f ∷ 0x6d ∷ 0x6e ∷ 0x6f ∷ 0x70 ∷ 0x6e
    ∷ 0x6f ∷ 0x70 ∷ 0x71 ∷ []

digest_of_abc :
    (s : Status) × (update initial abc ≡ some s)
    × (to_digest s ≡ record {
      a = 0xBA7816BF8F01CFEA;
      b = 0x414140DE5DAE2223;
      c = 0xB00361A396177A9C;
      d = 0xB410FF61F20015AD;
    })
unfolding Sha256.update Sha256.update_from Sha256.update_turn Sha256.flush Sha256.to_digest
    Sha256.padded Sha256.add_tag Sha256.add_zeros Sha256.after_end_zeros Sha256.add_length
    Sha256.swapped_bytes Sha256.process_block Compress.compress Compress.load_words
    Compress.extend_words Compress.rounds Compress.round Compress.sigma0 Compress.sigma1
    Compress.sigma0_256 Compress.sigma1_256 Compress.ch Compress.maj Compress.rotr
digest_of_abc = (_, refl, refl)

digest_of_two_blocks :
    (s : Status) × (update initial two_blocks ≡ some s)
    × (to_digest s ≡ record {
      a = 0x248D6A61D20638B8;
      b = 0xE5C026930C3E6039;
      c = 0xA33CE45964FF2167;
      d = 0xF6ECEDD419DB06C1;
    })
unfolding Sha256.update Sha256.update_from Sha256.update_turn Sha256.flush Sha256.to_digest
    Sha256.padded Sha256.add_tag Sha256.add_zeros Sha256.after_end_zeros Sha256.add_length
    Sha256.swapped_bytes Sha256.process_block Compress.compress Compress.load_words
    Compress.extend_words Compress.rounds Compress.round Compress.sigma0 Compress.sigma1
    Compress.sigma0_256 Compress.sigma1_256 Compress.ch Compress.maj Compress.rotr
digest_of_two_blocks = (_, refl, refl)

update-absorb_all_example : update initial abc ≡ some (absorb_all initial abc)
update-absorb_all_example = update-absorb_all initial abc initial-IsBetween

padded-put_all_example :
    let s = absorb_all initial abc in
    (zeros : ℕ) × (zeros < 64)
    × ((s.total_num_bits / 8 + 1 + zeros + 8) % 64 ≡ 0)
    × ((padded s).h ≡ (put_all s (0x80 ∷ zero_bytes zeros ++ high_first 8 s.total_num_bits)).h)
padded-put_all_example =
    padded-put_all (absorb_all initial abc) (absorb_all-IsBetween initial abc initial-IsBetween)
