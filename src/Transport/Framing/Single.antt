-- ===== src/Transport/Framing/Single.antt =====
-- The decoder of src/transport/framing.ts and src/compatibility/rsocket-v1/framing.ts, byte by byte.
use pure_reactive_protocol.Prelude.{
  ℕ, zero, suc, ◌-◌, ◌≤◌, ◌<◌, ◌≡◌, refl, sym, ap, ◌∙◌, min, true, false, List, [], ◌∷◌, ◌++◌,
  append-nil, append_assoc, length, take, drop, length-append, length-take, length-drop, ltb, ◌==◌,
  if◌then◌else◌, arith, inl, inr, Bool-cases,
}
use pure_reactive_protocol.Failure.{ok, err}
use pure_reactive_protocol.Transport.Framing.{
  Decoder, awaiting, filling, Pushed, emit, Format, collect, fill_by, fill, open_frame,
  is_bad_length, push_loop, push_chunk,
}

-- A decoder between two calls.
abbrev pub IsBetween : Format → Decoder → Type 0
IsBetween format (awaiting prefix) = length prefix < format.width
IsBetween format (filling total received) = length received < total

module _ (format : Format) (max_frame_bytes : ℕ) where
  -- The decoder that takes one byte at a time.
  unfoldable pub feed : Decoder → List ℕ → Pushed
  feed d [] = (d, ok [])
  feed (awaiting prefix) (x ∷ xs) =
      let filled = prefix ++ x ∷ [] in
      let more = feed (awaiting filled) xs in
      let body = feed (filling (format.read_length filled) []) xs in
      if ltb (length filled) format.width
      then more
      else if is_bad_length format max_frame_bytes (format.read_length filled)
      then (awaiting [], err format.bad)
      else body
  feed (filling total received) (x ∷ xs) =
      let filled = received ++ x ∷ [] in
      let next = feed (awaiting []) xs in
      let more = feed (filling total filled) xs in
      if length filled == total then emit filled next else more

  fill-feed :
      (total : ℕ) (received chunk : List ℕ)
      → length received < total
      → feed (filling total received) chunk ≡ fill format max_frame_bytes feed total received chunk
  unfolding fill fill_by feed
  fill-feed total received [] h = ground (arith, append-nil received, length-append received [])
  fill-feed total received (x ∷ xs) h = elim (Bool-cases (length (received ++ x ∷ []) == total)) [
    | inl full ↦
        let one : min (total - length received) (suc (length xs)) ≡ 1 =
          ground (arith, length-append received (x ∷ [])) in
        ap (fill_by format max_frame_bytes feed total received (x ∷ xs)) (sym one)
    | inr short ↦
        let filled = received ++ x ∷ [] in
        let copy = min (total - length filled) (length xs) in
        let room : length filled < total = ground (arith, length-append received (x ∷ [])) in
        let more : min (total - length received) (suc (length xs)) ≡ suc copy =
          omega (arith, length-append received (x ∷ []), room) in
        rw short (
          fill-feed total filled xs room
          ∙ ap
              (λ all.
                if length all == total
                then emit all (feed (awaiting []) (drop copy xs))
                else feed (filling total all) (drop copy xs))
              (append_assoc received (x ∷ []) (take copy xs))
          ∙ ap (fill_by format max_frame_bytes feed total received (x ∷ xs)) (sym more))
  ]

  collect_full :
      (prefix chunk : List ℕ)
      → ltb (length prefix) format.width ≡ false
      → collect format max_frame_bytes prefix chunk ≡ (prefix, chunk)
  unfolding collect
  collect_full prefix [] full = refl
  collect_full prefix (x ∷ xs) full = rw full refl

  open_frame-feed :
      (prefix rest : List ℕ)
      → (if is_bad_length format max_frame_bytes (format.read_length prefix)
          then (awaiting [], err format.bad)
          else feed (filling (format.read_length prefix) []) rest)
        ≡ open_frame format max_frame_bytes feed prefix rest
  unfolding open_frame
  open_frame-feed prefix rest =
      elim (Bool-cases (is_bad_length format max_frame_bytes (format.read_length prefix))) [
        | inl bad ↦ rw bad refl
        | inr good ↦ rw good (fill-feed (format.read_length prefix) [] rest (ground arith))
      ]

  collect-feed :
      (prefix chunk : List ℕ)
      → length prefix < format.width
      → feed (awaiting prefix) chunk ≡ (
          let (filled, rest) = collect format max_frame_bytes prefix chunk in
          if ltb (length filled) format.width
          then (awaiting filled, ok [])
          else open_frame format max_frame_bytes feed filled rest)
  unfolding feed collect
  collect-feed prefix [] h = ground arith
  collect-feed prefix (x ∷ xs) h =
      let inside : ltb (length prefix) format.width ≡ true = ground arith in
      elim (Bool-cases (ltb (length (prefix ++ x ∷ [])) format.width)) [
        | inl short ↦ rw (inside, short) (collect-feed (prefix ++ x ∷ []) xs (ground arith))
        | inr full ↦
            rw (inside, full, collect_full (prefix ++ x ∷ []) xs full, full)
              (open_frame-feed (prefix ++ x ∷ []) xs)
      ]

  -- What the loop needs to know of its continuation.
  fill_again :
      (again : Decoder → List ℕ → Pushed) (fuel total : ℕ) (received chunk : List ℕ)
      → length received < total
      → length chunk - min (total - length received) (length chunk) ≤ fuel
      → ((d : Decoder) (rest : List ℕ)
          → IsBetween format d
          → length rest ≤ fuel
          → again d rest ≡ feed d rest)
      → 1 ≤ format.width
      → fill format max_frame_bytes again total received chunk
        ≡ fill format max_frame_bytes feed total received chunk
  unfolding fill fill_by
  fill_again again fuel total received chunk h left same wide =
      let copy = min (total - length received) (length chunk) in
      let filled = received ++ take copy chunk in
      let shorter : length (drop copy chunk) ≤ fuel = omega (arith, length-drop copy chunk) in
      elim (Bool-cases (length filled == total)) [
        | inl full ↦ rw (full, same (awaiting []) (drop copy chunk) (omega arith) shorter) refl
        | inr short ↦
            let room : length filled < total =
              ground (arith, length-append received (take copy chunk), length-take copy chunk) in
            rw (short, same (filling total filled) (drop copy chunk) room shorter) refl
      ]

  collect_shorter :
      (prefix chunk : List ℕ)
      → length (collect format max_frame_bytes prefix chunk).1 ≤ length chunk
  unfolding collect
  collect_shorter prefix [] = omega arith
  collect_shorter prefix (x ∷ xs) = ground (arith, collect_shorter (prefix ++ x ∷ []) xs)

  collect_takes :
      (prefix : List ℕ) (x : ℕ) (xs : List ℕ)
      → length prefix < format.width
      → length (collect format max_frame_bytes prefix (x ∷ xs)).1 ≤ length xs
  unfolding collect
  collect_takes prefix x xs h = ground (arith, collect_shorter (prefix ++ x ∷ []) xs)

  open_again :
      (again : Decoder → List ℕ → Pushed) (fuel : ℕ) (prefix rest : List ℕ)
      → length rest ≤ fuel
      → ((d : Decoder) (later : List ℕ)
          → IsBetween format d
          → length later ≤ fuel
          → again d later ≡ feed d later)
      → 1 ≤ format.width
      → open_frame format max_frame_bytes again prefix rest
        ≡ open_frame format max_frame_bytes feed prefix rest
  unfolding open_frame
  open_again again fuel prefix rest left same wide =
      elim (Bool-cases (is_bad_length format max_frame_bytes (format.read_length prefix))) [
        | inl bad ↦ rw bad refl
        | inr good ↦ rw good (
            fill_again again fuel (format.read_length prefix) [] rest (ground arith) (omega arith)
              same wide)
      ]

  -- The loop reads what the decoder of single bytes reads.
  push_loop-feed :
      (fuel : ℕ) (d : Decoder) (chunk : List ℕ)
      → 1 ≤ format.width
      → IsBetween format d
      → length chunk ≤ fuel
      → push_loop format max_frame_bytes fuel d chunk ≡ feed d chunk
  unfolding push_loop feed
  push_loop-feed zero d [] wide h left = refl
  push_loop-feed zero d (x ∷ xs) wide h left = ground arith
  push_loop-feed (suc fuel) d [] wide h left = refl
  push_loop-feed (suc fuel) (filling total received) (x ∷ xs) wide h left =
      fill_again (push_loop format max_frame_bytes fuel) fuel total received (x ∷ xs) h
        (omega arith) (λ d rest h' left'. push_loop-feed fuel d rest wide h' left') wide
      ∙ sym (fill-feed total received (x ∷ xs) h)
  push_loop-feed (suc fuel) (awaiting prefix) (x ∷ xs) wide h left =
      let parts = collect format max_frame_bytes prefix (x ∷ xs) in
      ap (λ r. if ltb (length parts.0) format.width then (awaiting parts.0, ok []) else r)
        (open_again (push_loop format max_frame_bytes fuel) fuel parts.0 parts.1
          (omega (arith, collect_takes prefix x xs h))
          (λ d rest h' left'. push_loop-feed fuel d rest wide h' left') wide)
      ∙ sym (collect-feed prefix (x ∷ xs) h)

  -- `push` with the decoder as it is between two calls.
  pub push_chunk-feed :
      (d : Decoder) (chunk : List ℕ)
      → 1 ≤ format.width
      → IsBetween format d
      → push_chunk format max_frame_bytes d chunk ≡ feed d chunk
  unfolding push_chunk
  push_chunk-feed d chunk wide h = push_loop-feed (length chunk) d chunk wide h (omega arith)
