-- ===== src/Transport/Framing/RoundTrip.antt =====
-- Frames that were written behind their lengths are read back, however the bytes are cut.
use pure_reactive_protocol.Prelude.{
  ℕ, ◌+◌, ◌≤◌, ◌≡◌, refl, sym, ap, ◌∙◌, true, false, List, [], ◌∷◌, ◌++◌, append_assoc, All, length,
  length-append, ltb, ◌==◌, arith,
}
use pure_reactive_protocol.Failure.{Result, ok, ◌>>=◌, >>=-eq-ok}
use pure_reactive_protocol.Bytes.{be32-set_u32, set_u32}
use pure_reactive_protocol.Transport.Framing.{
  awaiting, filling, emit, Format, is_bad_length, length_prefixed, rsocket_prefixed,
  encode_length_prefixed_frame, encode_rsocket_length_prefixed_frame, set_u24,
  rsocket_max_frame_bytes,
}
use pure_reactive_protocol.Transport.Framing.Single.{feed}
use pure_reactive_protocol.Transport.Framing.Chunks.{concat, push_all, push_all-feed}

-- The bytes of a list of frames, each encoded.
abbrev pub encode_all : (List ℕ → Result (List ℕ)) → List (List ℕ) → Result (List ℕ)
encode_all encode [] = ok []
encode_all encode (frame ∷ frames) = do
  bs ← encode frame
  others ← encode_all encode frames
  ok (bs ++ others)

module _ (format : Format) (max_frame_bytes : ℕ) where
  feed_body :
      (total : ℕ) (received frame rest : List ℕ)
      → length received + length frame ≡ total
      → 1 ≤ length frame
      → feed format max_frame_bytes (filling total received) (frame ++ rest)
        ≡ emit (received ++ frame) (feed format max_frame_bytes (awaiting []) rest)
  unfolding feed
  feed_body total received [] rest all some = ground arith
  feed_body total received (x ∷ []) rest all some = ground (arith, length-append received (x ∷ []))
  feed_body total received (x ∷ y ∷ ys) rest all some =
      let filled = received ++ x ∷ [] in
      let short : (length filled == total) ≡ false =
        ground (arith, length-append received (x ∷ [])) in
      rw short (
        feed_body total filled (y ∷ ys) rest (omega (arith, length-append received (x ∷ [])))
          (omega arith)
        ∙ ap (λ frame. emit frame (feed format max_frame_bytes (awaiting []) rest))
            (append_assoc received (x ∷ []) (y ∷ ys)))

  feed_prefix :
      (prefix first rest : List ℕ)
      → length prefix + length first ≡ format.width
      → 1 ≤ length first
      → is_bad_length format max_frame_bytes (format.read_length (prefix ++ first)) ≡ false
      → feed format max_frame_bytes (awaiting prefix) (first ++ rest)
        ≡ feed format max_frame_bytes (filling (format.read_length (prefix ++ first)) []) rest
  unfolding feed
  feed_prefix prefix [] rest all some good = ground arith
  feed_prefix prefix (x ∷ []) rest all some good = ground (arith, length-append prefix (x ∷ []))
  feed_prefix prefix (x ∷ y ∷ ys) rest all some good =
      let filled = prefix ++ x ∷ [] in
      let whole : filled ++ y ∷ ys ≡ prefix ++ x ∷ y ∷ ys = append_assoc prefix (x ∷ []) (y ∷ ys) in
      let short : ltb (length filled) format.width ≡ true =
        ground (arith, length-append prefix (x ∷ [])) in
      rw short (
        feed_prefix filled (y ∷ ys) rest (omega (arith, length-append prefix (x ∷ [])))
          (omega arith)
          (ap (λ p. is_bad_length format max_frame_bytes (format.read_length p)) whole ∙ good)
        ∙ ap (λ p. feed format max_frame_bytes (filling (format.read_length p) []) rest) whole)

-- What an encoder does, when it does not throw.
record IsPrefixed (format : Format) (frame bs : List ℕ) : Type 0 where
  prefix : List ℕ
  joined : bs ≡ prefix ++ frame
  full : length prefix ≡ format.width
  read : format.read_length prefix ≡ length frame
  nonempty : 1 ≤ length frame

module _ (format : Format) (max_frame_bytes : ℕ) (wide : 1 ≤ format.width)
    (encode : List ℕ → Result (List ℕ))
    (prefixed : (frame bs : List ℕ) → encode frame ≡ ok bs → IsPrefixed format frame bs) where
  feed_frame :
      (frame bs rest : List ℕ)
      → encode frame ≡ ok bs
      → length frame ≤ max_frame_bytes
      → feed format max_frame_bytes (awaiting []) (bs ++ rest)
        ≡ emit frame (feed format max_frame_bytes (awaiting []) rest)
  feed_frame frame bs rest made fits =
      let p = prefixed frame bs made in
      let good : is_bad_length format max_frame_bytes (format.read_length p.prefix) ≡ false =
        rw p.read (ground (arith, p.nonempty)) in
      ap (λ s. feed format max_frame_bytes (awaiting []) (s ++ rest)) p.joined
      ∙ ap (feed format max_frame_bytes (awaiting [])) (append_assoc p.prefix frame rest)
      ∙ feed_prefix format max_frame_bytes [] p.prefix (frame ++ rest) (omega (arith, p.full))
          (omega (arith, p.full)) good
      ∙ ap (λ n. feed format max_frame_bytes (filling n []) (frame ++ rest)) p.read
      ∙ feed_body format max_frame_bytes (length frame) [] frame rest (omega arith) p.nonempty

  feed_frames :
      (frames : List (List ℕ)) (bs : List ℕ)
      → encode_all encode frames ≡ ok bs
      → All (λ frame. length frame ≤ max_frame_bytes) frames
      → feed format max_frame_bytes (awaiting []) bs ≡ (awaiting [], ok frames)
  unfolding feed
  feed_frames [] bs made fit = ground arith
  feed_frames (frame ∷ frames) bs made fit =
      let (one, e1, h1) = >>=-eq-ok (encode frame) _ made in
      let (others, e2, h2) = >>=-eq-ok (encode_all encode frames) _ h1 in
      let same : one ++ others ≡ bs = ground arith in
      ap (feed format max_frame_bytes (awaiting [])) (sym same)
      ∙ feed_frame frame one others e1 fit.0
      ∙ ap (emit frame) (feed_frames frames others e2 fit.1)

  -- For the chunks of a connection in which the frames were written.
  push_encoded :
      (frames chunks : List (List ℕ))
      → encode_all encode frames ≡ ok (concat chunks)
      → All (λ frame. length frame ≤ max_frame_bytes) frames
      → push_all format max_frame_bytes (awaiting []) chunks ≡ (awaiting [], ok frames)
  push_encoded frames chunks made fit =
      push_all-feed format max_frame_bytes (awaiting []) chunks wide (omega arith)
      ∙ feed_frames frames (concat chunks) made fit

length_prefixed-IsPrefixed :
    (frame bs : List ℕ)
    → encode_length_prefixed_frame frame ≡ ok bs
    → IsPrefixed length_prefixed frame bs
unfolding encode_length_prefixed_frame
length_prefixed-IsPrefixed frame bs made = record {
  prefix = set_u32 (length frame);
  joined = ground arith;
  full = refl;
  read = be32-set_u32 (length frame) (ground arith);
  nonempty = ground arith;
}

rsocket_prefixed-IsPrefixed :
    (frame bs : List ℕ)
    → encode_rsocket_length_prefixed_frame frame ≡ ok bs
    → IsPrefixed rsocket_prefixed frame bs
unfolding encode_rsocket_length_prefixed_frame
rsocket_prefixed-IsPrefixed frame bs made = record {
  prefix = set_u24 (length frame);
  joined = ground arith;
  full = refl;
  read = let small : length frame ≤ rsocket_max_frame_bytes = ground arith in omega (arith, small);
  nonempty = ground arith;
}

-- However the bytes of frames are cut into chunks, a fresh decoder returns exactly those frames, in
-- order, and is fresh again, if each frame is within its bound.
pub push_all-encode_length_prefixed :
    (max_frame_bytes : ℕ) (frames chunks : List (List ℕ))
    → encode_all encode_length_prefixed_frame frames ≡ ok (concat chunks)
    → All (λ frame. length frame ≤ max_frame_bytes) frames
    → push_all length_prefixed max_frame_bytes (awaiting []) chunks ≡ (awaiting [], ok frames)
push_all-encode_length_prefixed max_frame_bytes frames chunks made fit =
    push_encoded length_prefixed max_frame_bytes (omega arith) encode_length_prefixed_frame
      length_prefixed-IsPrefixed frames chunks made fit

-- With the three-byte lengths of RSocket: however the bytes of frames are cut into chunks, a fresh
-- decoder returns exactly those frames, in order, and is fresh again, if each is within its bound.
pub push_all-encode_rsocket :
    (max_frame_bytes : ℕ) (frames chunks : List (List ℕ))
    → encode_all encode_rsocket_length_prefixed_frame frames ≡ ok (concat chunks)
    → All (λ frame. length frame ≤ max_frame_bytes) frames
    → push_all rsocket_prefixed max_frame_bytes (awaiting []) chunks ≡ (awaiting [], ok frames)
push_all-encode_rsocket max_frame_bytes frames chunks made fit =
    push_encoded rsocket_prefixed max_frame_bytes (omega arith) encode_rsocket_length_prefixed_frame
      rsocket_prefixed-IsPrefixed frames chunks made fit
