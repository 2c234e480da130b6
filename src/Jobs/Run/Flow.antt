-- ===== src/Jobs/Run/Flow.antt =====
-- What a run sends and receives: the start time and then chunks in a row, those that are received
-- being the first of those that are sent, with what both jobs count and hash of them.
use tx_queue.Base.{
  ℕ, ◌≤◌, ◌≡◌, refl, ap, ◌∙◌, List, [], ◌∷◌, ◌++◌, append_assoc, arith, length, take,
}
use tx_queue.Jobs.Run.Frames.{frames, joined, AllFit, AllFull}

module _ {S : Type 0} (update : S → List ℕ → S) where
  abbrev pub hash_all : S → List (List ℕ) → S
  hash_all h [] = h
  hash_all h (c ∷ cs) = hash_all (update h c) cs

  pub hash_all-append :
      (h : S) (cs : List (List ℕ)) (c : List ℕ)
      → hash_all h (cs ++ c ∷ []) ≡ update (hash_all h cs) c
  hash_all-append h [] c = refl
  hash_all-append h (d ∷ cs) c = hash_all-append (update h d) cs c

  -- The chunks that are sent, and those of them that are received, with the marks at the end.
  pub record Progress (high : ℕ) (start_hash : S) (src_data sent received : List ℕ) (total : ℕ)
      (hash : S) (got_total : ℕ) (got_hash : S) (mark got_mark : List (List ℕ)) : Type 0 where
    pub chunks : List (List ℕ)
    pub got : List (List ℕ)
    pub rest : List (List ℕ)
    pub sent_eq : sent ≡ frames (chunks ++ mark)
    pub received_eq : received ≡ frames (got ++ got_mark)
    pub split : chunks ++ mark ≡ (got ++ got_mark) ++ rest
    pub full : AllFull chunks
    pub got_full : AllFull got
    pub fit : AllFit high chunks
    pub joined_eq : joined chunks ≡ take total src_data
    pub within : total ≤ length src_data
    pub hashed : hash ≡ hash_all start_hash chunks
    pub got_hashed : got_hash ≡ hash_all start_hash got
    pub got_counted : got_total ≡ length (joined got)

  -- The start time and then the chunks, on both sides.
  pub record Flow (high : ℕ) (start_hash : S) (src_data sent received : List ℕ) (total : ℕ)
      (hash : S) (got_total : ℕ) (got_hash : S) (send get : List ℕ × List (List ℕ)) : Type 0 where
    pub job_sent : List ℕ
    pub job_received : List ℕ
    pub sent_is : sent ≡ send.0 ++ job_sent
    pub received_is : received ≡ get.0 ++ job_received
    pub progress :
        Progress high start_hash src_data job_sent job_received total hash got_total got_hash send.1
          get.1

  module _ (high : ℕ) (h : S) (src_data : List ℕ) where
    pub begin-Progress : Progress high h src_data [] [] 0 h 0 h [] []
    begin-Progress = record {
      chunks = [];
      got = [];
      rest = [];
      sent_eq = refl;
      received_eq = refl;
      split = refl;
      full = tt;
      got_full = tt;
      fit = tt;
      joined_eq = refl;
      within = omega arith;
      hashed = refl;
      got_hashed = refl;
      got_counted = refl;
    }

  module _ {high : ℕ} {h : S} {src_data sent received : List ℕ} {total : ℕ} {hash : S}
      {got_total : ℕ} {got_hash : S} {send get : List ℕ × List (List ℕ)}
      (f : Flow high h src_data sent received total hash got_total got_hash send get) where
    -- More is sent by the producer's job.
    pub more_sent :
        (bytes : List ℕ) {mark : List (List ℕ)} {total' : ℕ} {hash' : S}
        → Progress high h src_data
            (f.job_sent ++ bytes)
            f.job_received
            total'
            hash'
            got_total
            got_hash
            mark
            get.1
        → Flow high h src_data
            (sent ++ bytes)
            received
            total'
            hash'
            got_total
            got_hash
            (send.0, mark)
            get
    more_sent bytes p = record {
      job_sent = f.job_sent ++ bytes;
      job_received = f.job_received;
      sent_is = ap (λ t. t ++ bytes) f.sent_is ∙ append_assoc send.0 f.job_sent bytes;
      received_is = f.received_is;
      progress = p;
    }

    -- More is received by the consumer's job.
    pub more_received :
        (bytes : List ℕ) {mark : List (List ℕ)} {got_total' : ℕ} {got_hash' : S}
        → Progress high h src_data f.job_sent
            (f.job_received ++ bytes)
            total
            hash
            got_total'
            got_hash'
            send.1
            mark
        → Flow high h src_data sent
            (received ++ bytes)
            total
            hash
            got_total'
            got_hash'
            send
            (get.0, mark)
    more_received bytes p = record {
      job_sent = f.job_sent;
      job_received = f.job_received ++ bytes;
      sent_is = f.sent_is;
      received_is = ap (λ t. t ++ bytes) f.received_is ∙ append_assoc get.0 f.job_received bytes;
      progress = p;
    }
