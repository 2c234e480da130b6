-- ===== src/Jobs/Run/Frames.antt =====
-- Chunks in a row on the queue, each behind its size, and how they come apart again.
use tx_queue.Base.{
  ℕ, ◌^◌, ◌≤◌, ◌<◌, ◌≡◌, refl, sym, ap, ap₂, ◌∙◌, List, [], ◌∷◌, ◌++◌, append_assoc, append-nil,
  arith, length, length-append, append_inj,
}
use tx_queue.Jobs.{bytes_of_u64, u64_of_bytes, frame}
use tx_queue.Jobs.Receive.{u64_of_bytes-bytes_of_u64}

abbrev pub frames : List (List ℕ) → List ℕ
frames [] = []
frames (c ∷ cs) = frame c ++ frames cs

abbrev pub joined : List (List ℕ) → List ℕ
joined [] = []
joined (c ∷ cs) = c ++ joined cs

abbrev pub AllFit : (high : ℕ) → List (List ℕ) → Type 0
AllFit high [] = Unit
AllFit high (c ∷ cs) = (length c ≤ high) × AllFit high cs

-- No chunk is empty.
abbrev pub AllFull : List (List ℕ) → Type 0
AllFull [] = Unit
AllFull (c ∷ cs) = (0 < length c) × AllFull cs

pub frames-append : (cs ds : List (List ℕ)) → frames (cs ++ ds) ≡ frames cs ++ frames ds
frames-append [] ds = refl
frames-append (c ∷ cs) ds =
    ap (λ t. frame c ++ t) (frames-append cs ds)
    ∙ sym (append_assoc (frame c) (frames cs) (frames ds))

pub joined-append : (cs ds : List (List ℕ)) → joined (cs ++ ds) ≡ joined cs ++ joined ds
joined-append [] ds = refl
joined-append (c ∷ cs) ds =
    ap (λ t. c ++ t) (joined-append cs ds) ∙ sym (append_assoc c (joined cs) (joined ds))

pub frames_snoc : (cs : List (List ℕ)) (c : List ℕ) → frames (cs ++ c ∷ []) ≡ frames cs ++ frame c
frames_snoc cs c = frames-append cs (c ∷ []) ∙ ap (λ t. frames cs ++ t) (append-nil (frame c))

pub joined_snoc : (cs : List (List ℕ)) (c : List ℕ) → joined (cs ++ c ∷ []) ≡ joined cs ++ c
joined_snoc cs c = joined-append cs (c ∷ []) ∙ ap (λ t. joined cs ++ t) (append-nil c)

pub AllFit-append :
    (high : ℕ) (cs ds : List (List ℕ)) → AllFit high cs → AllFit high ds → AllFit high (cs ++ ds)
AllFit-append high [] ds f g = g
AllFit-append high (c ∷ cs) ds f g = (f.0, AllFit-append high cs ds f.1 g)

pub AllFit-right : (high : ℕ) (cs ds : List (List ℕ)) → AllFit high (cs ++ ds) → AllFit high ds
AllFit-right high [] ds f = f
AllFit-right high (c ∷ cs) ds f = AllFit-right high cs ds f.1

pub AllFull-append : (cs ds : List (List ℕ)) → AllFull cs → AllFull ds → AllFull (cs ++ ds)
AllFull-append [] ds f g = g
AllFull-append (c ∷ cs) ds f g = (f.0, AllFull-append cs ds f.1 g)

pub length-bytes_of_u64 : (x : ℕ) → length (bytes_of_u64 x) ≡ 8
unfolding bytes_of_u64
length-bytes_of_u64 x = refl

-- What eight bytes in front of chunks in a row are: the size of the first of them.
pub first_size :
    {high : ℕ} (cs : List (List ℕ)) (first left : List ℕ)
    → high < 2 ^ 64
    → AllFit high cs
    → frames cs ≡ first ++ left
    → length first ≡ 8
    → (c : List ℕ) × (ds : List (List ℕ)) × (cs ≡ c ∷ ds)
      × (u64_of_bytes first ≡ length c)
      × (left ≡ c ++ frames ds)
first_size [] first left small f e n = absurd (omega (arith, ap length e, length-append first left))
first_size (c ∷ cs) first left small f e n =
    let whole : bytes_of_u64 (length c) ++ (c ++ frames cs) ≡ first ++ left =
      sym (append_assoc (bytes_of_u64 (length c)) c (frames cs)) ∙ e in
    let (same, rest) =
      append_inj (bytes_of_u64 (length c)) (c ++ frames cs) first left
        (length-bytes_of_u64 (length c) ∙ sym n) whole in
    (
      c,
      cs,
      refl,
      ap u64_of_bytes (sym same) ∙ u64_of_bytes-bytes_of_u64 (length c) (omega (arith, f.0)),
      sym rest,
    )

-- Eight bytes and as many more as they say, in front of chunks in a row: the first chunk.
pub first_chunk :
    {high : ℕ} (cs : List (List ℕ)) (first bytes left : List ℕ)
    → high < 2 ^ 64
    → AllFit high cs
    → frames cs ≡ (first ++ bytes) ++ left
    → length first ≡ 8
    → length bytes ≡ u64_of_bytes first
    → (ds : List (List ℕ)) × (cs ≡ bytes ∷ ds) × (first ++ bytes ≡ frame bytes)
first_chunk cs first bytes left small f e n size =
    let (c, ds, split, said, rest) =
      first_size cs first (bytes ++ left) small f (e ∙ append_assoc first bytes left) n in
    let (same, _) = append_inj bytes left c (frames ds) (size ∙ said) rest in
    let taken : frames (bytes ∷ ds) ≡ (first ++ bytes) ++ left =
      ap (λ t. frames (t ∷ ds)) same ∙ ap frames (sym split) ∙ e in
    let (head, _) =
      append_inj (frame bytes) (frames ds) (first ++ bytes) left
        (length-append (bytes_of_u64 (length bytes)) bytes
          ∙ omega (arith, length-bytes_of_u64 (length bytes), length-append first bytes))
        taken in
    (ds, split ∙ ap (λ t. t ∷ ds) (sym same), sym head)

full-ne-empty : (c : List ℕ) → 0 < length c → [] ≡ c → ⊥
full-ne-empty [] h e = absurd (omega arith)
full-ne-empty (x ∷ c) h e = cc

-- Two ways to cut chunks before an empty one: it is the first empty one in both.
pub cut_at_empty :
    (cs got rest : List (List ℕ))
    → AllFull cs
    → AllFull got
    → cs ++ [] ∷ [] ≡ got ++ ([] ∷ rest)
    → cs ≡ got
cut_at_empty [] [] rest f g e = refl
cut_at_empty [] (d ∷ got) rest f g e = absurd (full-ne-empty d g.0 (cc))
cut_at_empty (c ∷ cs) [] rest f g e = absurd (full-ne-empty c f.0 (cc))
cut_at_empty (c ∷ cs) (d ∷ got) rest f g e = ap₂ ◌∷◌ (cc) (cut_at_empty cs got rest f.1 g.1 (cc))

-- Chunks that are not empty have no empty one among them.
pub none_empty : (cs got rest : List (List ℕ)) → AllFull cs → cs ≡ got ++ ([] ∷ rest) → ⊥
none_empty [] [] rest f e = cc
none_empty [] (d ∷ got) rest f e = cc
none_empty (c ∷ cs) [] rest f e = full-ne-empty c f.0 (cc)
none_empty (c ∷ cs) (d ∷ got) rest f e = none_empty cs got rest f.1 (cc)
