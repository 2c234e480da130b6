-- ===== src/Jobs/Run/Intake.antt =====
-- What the end of a transaction and the end of a turn do to what the jobs count and to the chunks
-- that are received.
use tx_queue.Base.{
  subst, ap₂, ℕ, ◌+◌, ◌^◌, ◌≤◌, ◌<◌, ◌≡◌, refl, sym, ap, ◌∙◌, List, [], ◌∷◌, ◌++◌, append_assoc,
  append-nil, append_inj, arith, length, length-append, take,
}
use tx_queue.Jobs.{bytes_of_u64, u64_of_bytes, frame}
use tx_queue.Jobs.Run.{TransmitPc}
use tx_queue.Jobs.Run.Frames.{
  frames, joined, AllFit, frames-append, joined-append, frames_snoc, joined_snoc, AllFit-append,
  AllFit-right, AllFull-append, first_size, first_chunk, length-bytes_of_u64,
}
use tx_queue.Jobs.Run.Parts.{marks}
use tx_queue.Jobs.Run.Flow.{hash_all-append, Progress}

-- The mark at the end is an empty chunk.
pub marks-fit : (high : ℕ) (pc : TransmitPc) → (joined (marks pc) ≡ []) × AllFit high (marks pc)
marks-fit high TransmitPc.announcing = (refl, tt)
marks-fit high TransmitPc.stamping = (refl, tt)
marks-fit high TransmitPc.stamped = (refl, tt)
marks-fit high TransmitPc.looping = (refl, tt)
marks-fit high (TransmitPc.sizing _) = (refl, tt)
marks-fit high (TransmitPc.filling _) = (refl, tt)
marks-fit high (TransmitPc.closing _) = (refl, tt)
marks-fit high TransmitPc.signaling = (refl, tt)
marks-fit high TransmitPc.marking = (refl, tt)
marks-fit high (TransmitPc.marked _) = (refl, tt)
marks-fit high TransmitPc.finished = (refl, omega arith)

module _ {S : Type 0} {update : S → List ℕ → S} {high : ℕ} {h : S} {src_data : List ℕ}
    {sent received : List ℕ} {total : ℕ} {hash : S} {got_total : ℕ} {got_hash : S}
    {mark : List (List ℕ)} (fits : (joined mark ≡ []) × AllFit high mark)
    (p : Progress update high h src_data sent received total hash got_total got_hash mark []) where
  abbrev rest : List (List ℕ)
  rest = p.rest

  got_all : p.got ++ [] ≡ p.got
  got_all = append-nil p.got

  -- What is sent and not received is chunks in a row.
  rest-frames : {bytes : List ℕ} → sent ≡ received ++ bytes → frames p.rest ≡ bytes
  rest-frames {bytes} more =
      let whole : frames (p.got ++ []) ++ frames p.rest ≡ received ++ bytes =
        sym (frames-append (p.got ++ []) p.rest) ∙ ap frames (sym p.split) ∙ sym p.sent_eq ∙ more in
      (append_inj (frames (p.got ++ [])) (frames p.rest) received bytes
        (ap length (sym p.received_eq)) whole).1

  rest-AllFit : AllFit high p.rest
  rest-AllFit =
      AllFit-right high (p.got ++ []) p.rest
        (subst (AllFit high) p.split (AllFit-append high p.chunks mark p.fit fits.1))

  pub size_fits :
      high < 2 ^ 64
      → (taken left : List ℕ) → sent ≡ received ++ (taken ++ left)
      → length taken ≡ 8
      → u64_of_bytes taken ≤ high
  size_fits small taken left more eight =
      let (c, ds, split, said, _) =
        first_size p.rest taken left small rest-AllFit (rest-frames more) eight in
      let fit = subst (AllFit high) split rest-AllFit in omega (arith, said, fit.0)

  -- Behind a size that was taken there is a chunk of this size.
  pub chunk_there :
      high < 2 ^ 64
      → (taken left : List ℕ) → sent ≡ received ++ (taken ++ left)
      → length taken ≡ 8
      → u64_of_bytes taken ≤ length left
  chunk_there small taken left more eight =
      let (c, ds, _, said, behind) =
        first_size p.rest taken left small rest-AllFit (rest-frames more) eight in
      omega (arith, said, ap length behind, length-append c (frames ds))

  -- Where there is anything there is a size.
  pub size_there : (bytes : List ℕ) → sent ≡ received ++ bytes → 0 < length bytes → 8 ≤ length bytes
  size_there bytes more some_bytes = go p.rest (rest-frames more)
    where
      go : (cs : List (List ℕ)) → frames cs ≡ bytes → 8 ≤ length bytes
      go [] e = absurd (omega (arith, ap length e))
      go (c ∷ cs) e = omega (
        arith,
        ap length e,
        length-append (frame c) (frames cs),
        length-append (bytes_of_u64 (length c)) c,
        length-bytes_of_u64 (length c),
      )

  -- A chunk and its size are received.
  pub take_chunk :
      high < 2 ^ 64
      → {taken : List ℕ} (first bytes left : List ℕ) → sent ≡ received ++ (taken ++ left)
      → taken ≡ first ++ bytes
      → length first ≡ 8
      → length bytes ≡ u64_of_bytes first
      → (0 < length bytes
          → Progress update high h src_data sent
              (received ++ taken)
              total
              hash
              (got_total + length bytes)
              (update got_hash bytes)
              mark
              [])
        × (bytes ≡ []
            → Progress update high h src_data sent
                (received ++ taken)
                total
                hash
                got_total
                got_hash
                mark
                ([] ∷ []))
  take_chunk small {taken} first bytes left more parts eight size = (another, last)
    where
      found : (ds : List (List ℕ)) × (p.rest ≡ bytes ∷ ds) × (first ++ bytes ≡ frame bytes)
      found =
          first_chunk p.rest first bytes left small rest-AllFit
            (rest-frames (more ∙ ap (λ t. received ++ (t ++ left)) parts)) eight size

      received_more : received ++ taken ≡ frames (p.got ++ bytes ∷ [])
      received_more =
          ap₂ ◌++◌ (p.received_eq ∙ ap frames got_all) (parts ∙ found.2)
          ∙ sym (frames_snoc p.got bytes)

      split_more : p.chunks ++ mark ≡ (p.got ++ bytes ∷ []) ++ found.0
      split_more =
          p.split ∙ ap₂ ◌++◌ got_all found.1 ∙ sym (append_assoc p.got (bytes ∷ []) found.0)

      another :
          0 < length bytes
          → Progress update high h src_data sent
              (received ++ taken)
              total
              hash
              (got_total + length bytes)
              (update got_hash bytes)
              mark
              []
      another pos = record {
        chunks = p.chunks;
        got = p.got ++ bytes ∷ [];
        rest = found.0;
        sent_eq = p.sent_eq;
        received_eq = received_more ∙ ap frames (sym (append-nil (p.got ++ bytes ∷ [])));
        split = split_more ∙ ap (λ t. t ++ found.0) (sym (append-nil (p.got ++ bytes ∷ [])));
        full = p.full;
        got_full = AllFull-append p.got (bytes ∷ []) p.got_full (pos, tt);
        fit = p.fit;
        joined_eq = p.joined_eq;
        within = p.within;
        hashed = p.hashed;
        got_hashed =
            ap (λ t. update t bytes) p.got_hashed ∙ sym (hash_all-append update h p.got bytes);
        got_counted =
            ap (λ t. t + length bytes) p.got_counted
            ∙ sym (length-append (joined p.got) bytes)
            ∙ ap length (sym (joined_snoc p.got bytes));
      }

      last :
          bytes ≡ []
          → Progress update high h src_data sent
              (received ++ taken)
              total
              hash
              got_total
              got_hash
              mark
              ([] ∷ [])
      last none_left = record {
        chunks = p.chunks;
        got = p.got;
        rest = found.0;
        sent_eq = p.sent_eq;
        received_eq = received_more ∙ ap (λ t. frames (p.got ++ t ∷ [])) none_left;
        split = split_more ∙ ap (λ t. (p.got ++ t ∷ []) ++ found.0) none_left;
        full = p.full;
        got_full = p.got_full;
        fit = p.fit;
        joined_eq = p.joined_eq;
        within = p.within;
        hashed = p.hashed;
        got_hashed = p.got_hashed;
        got_counted = p.got_counted;
      }

-- What is received is the start of the data.
pub got_first :
    {S : Type 0} {update : S → List ℕ → S} {high : ℕ} {h : S} {src_data sent received : List ℕ}
    {total : ℕ} {hash : S} {got_total : ℕ} {got_hash : S} {mark got_mark : List (List ℕ)}
    (p : Progress update high h src_data sent received total hash got_total got_hash mark got_mark)
    → joined mark ≡ []
    → joined got_mark ≡ []
    → (more : List ℕ) × (take total src_data ≡ joined p.got ++ more)
got_first {mark = mark} {got_mark = got_mark} p empty got_empty = (
  joined p.rest,
  sym p.joined_eq
      ∙ sym (append-nil (joined p.chunks))
      ∙ ap (λ t. joined p.chunks ++ t) (sym empty)
      ∙ sym (joined-append p.chunks mark)
      ∙ ap joined p.split
      ∙ joined-append (p.got ++ got_mark) p.rest
      ∙ ap (λ t. t ++ joined p.rest)
          (joined-append p.got got_mark
            ∙ ap (λ t. joined p.got ++ t) got_empty
            ∙ append-nil (joined p.got)),
)
