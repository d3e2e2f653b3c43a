-- ===== src/Transport/Framing/Chunks.antt =====
-- A decoder reads the same frames however the bytes are cut into chunks.
use pure_reactive_protocol.Prelude.{
  ℕ, ◌≤◌, ◌≡◌, refl, sym, ap, ◌∙◌, List, [], ◌∷◌, ◌++◌, length, length-append, ltb, ◌==◌, arith,
  inl, inr, Bool-cases,
}
use pure_reactive_protocol.Failure.{ok, err}
use pure_reactive_protocol.Transport.Framing.{
  Decoder, awaiting, filling, Pushed, emit, Format, is_bad_length, push_chunk,
}
use pure_reactive_protocol.Transport.Framing.Single.{IsBetween, feed, push_chunk-feed}

abbrev pub prepend : List (List ℕ) → Pushed → Pushed
prepend frames (d, err e) = (d, err e)
prepend frames (d, ok more) = (d, ok (frames ++ more))

-- A call after another, if that did not throw.
abbrev pub after : Pushed → (Decoder → Pushed) → Pushed
after (d, err e) next = (d, err e)
after (d, ok frames) next = prepend frames (next d)

abbrev pub concat : List (List ℕ) → List ℕ
concat [] = []
concat (chunk ∷ chunks) = chunk ++ concat chunks

prepend-nil : (r : Pushed) → prepend [] r ≡ r
prepend-nil (d, err e) = refl
prepend-nil (d, ok frames) = refl

after_same :
    (r : Pushed) (next other : Decoder → Pushed)
    → next r.0 ≡ other r.0
    → after r next ≡ after r other
after_same (d, err e) next other same = refl
after_same (d, ok frames) next other same = ap (prepend frames) same

emit-prepend :
    (frame : List ℕ) (frames : List (List ℕ)) (r : Pushed)
    → prepend (frame ∷ frames) r ≡ emit frame (prepend frames r)
emit-prepend frame frames (d, err e) = refl
emit-prepend frame frames (d, ok more) = refl

after-emit :
    (frame : List ℕ) (r : Pushed) (next : Decoder → Pushed)
    → after (emit frame r) next ≡ emit frame (after r next)
after-emit frame (d, err e) next = refl
after-emit frame (d, ok frames) next = emit-prepend frame frames (next d)

emit_decoder : (frame : List ℕ) (r : Pushed) → (emit frame r).0 ≡ r.0
emit_decoder frame (d, err e) = refl
emit_decoder frame (d, ok frames) = refl

module _ (format : Format) (max_frame_bytes : ℕ) where
  -- A decoder stays between two calls.
  feed-IsBetween :
      (d : Decoder) (chunk : List ℕ)
      → 1 ≤ format.width
      → IsBetween format d
      → IsBetween format (feed format max_frame_bytes d chunk).0
  unfolding feed
  feed-IsBetween d [] wide h = h
  feed-IsBetween (awaiting prefix) (x ∷ xs) wide h =
      let filled = prefix ++ x ∷ [] in
      elim (Bool-cases (ltb (length filled) format.width)) [
        | inl short ↦ rw short (feed-IsBetween (awaiting filled) xs wide (ground arith))
        | inr full ↦
            elim (Bool-cases (is_bad_length format max_frame_bytes (format.read_length filled))) [
              | inl bad ↦ rw (full, bad) (omega arith)
              | inr good ↦
                  rw (full, good)
                    (feed-IsBetween (filling (format.read_length filled) []) xs wide (ground arith))
            ]
      ]
  feed-IsBetween (filling total received) (x ∷ xs) wide h =
      let filled = received ++ x ∷ [] in
      elim (Bool-cases (length filled == total)) [
        | inl full ↦
            rw (full, emit_decoder filled (feed format max_frame_bytes (awaiting []) xs))
              (feed-IsBetween (awaiting []) xs wide (omega arith))
        | inr short ↦ rw short (
            feed-IsBetween (filling total filled) xs wide
              (ground (arith, length-append received (x ∷ []))))
      ]

  feed-append :
      (d : Decoder) (a b : List ℕ)
      → feed format max_frame_bytes d (a ++ b)
        ≡ after (feed format max_frame_bytes d a) (λ d'. feed format max_frame_bytes d' b)
  unfolding feed
  feed-append d [] b = sym (prepend-nil (feed format max_frame_bytes d b))
  feed-append (awaiting prefix) (x ∷ xs) b =
      let filled = prefix ++ x ∷ [] in
      elim (Bool-cases (ltb (length filled) format.width)) [
        | inl short ↦ rw short (feed-append (awaiting filled) xs b)
        | inr full ↦
            elim (Bool-cases (is_bad_length format max_frame_bytes (format.read_length filled))) [
              | inl bad ↦ rw (full, bad) refl
              | inr good ↦
                  rw (full, good) (feed-append (filling (format.read_length filled) []) xs b)
            ]
      ]
  feed-append (filling total received) (x ∷ xs) b =
      let filled = received ++ x ∷ [] in
      elim (Bool-cases (length filled == total)) [
        | inl full ↦ rw full (
            ap (emit filled) (feed-append (awaiting []) xs b)
            ∙ sym (
                after-emit filled (feed format max_frame_bytes (awaiting []) xs)
                  (λ d'. feed format max_frame_bytes d' b)))
        | inr short ↦ rw short (feed-append (filling total filled) xs b)
      ]

  -- The chunks of a connection, one call of `push` for each, up to the first error.
  unfoldable pub push_all : Decoder → List (List ℕ) → Pushed
  push_all d [] = (d, ok [])
  push_all d (chunk ∷ chunks) =
      after (push_chunk format max_frame_bytes d chunk) (λ d'. push_all d' chunks)

  pub push_all-feed :
      (d : Decoder) (chunks : List (List ℕ))
      → 1 ≤ format.width
      → IsBetween format d
      → push_all d chunks ≡ feed format max_frame_bytes d (concat chunks)
  unfolding push_all feed
  push_all-feed d [] wide h = refl
  push_all-feed d (chunk ∷ chunks) wide h =
      ap (λ r. after r (λ d'. push_all d' chunks))
        (push_chunk-feed format max_frame_bytes d chunk wide h)
      ∙ after_same (feed format max_frame_bytes d chunk) (λ d'. push_all d' chunks)
          (λ d'. feed format max_frame_bytes d' (concat chunks))
          (push_all-feed (feed format max_frame_bytes d chunk).0 chunks wide
            (feed-IsBetween d chunk wide h))
      ∙ sym (feed-append d chunk (concat chunks))

  -- From a decoder between two calls, the chunks of a connection leave the same decoder and give
  -- the same frames, or the same error, as one chunk of all their bytes.
  pub push_all-concat :
      (d : Decoder) (chunks : List (List ℕ))
      → 1 ≤ format.width
      → IsBetween format d
      → push_all d chunks ≡ push_chunk format max_frame_bytes d (concat chunks)
  push_all-concat d chunks wide h =
      push_all-feed d chunks wide h
      ∙ sym (push_chunk-feed format max_frame_bytes d (concat chunks) wide h)
