-- ===== src/Tests/Carriers.antt =====
-- Chunks of a connection, and the queue behind it.
use pure_reactive_protocol.Prelude.{ℕ, ◌≡◌, refl, inl, false, none, List, [], ◌∷◌, arith}
use pure_reactive_protocol.Failure.{ok}
use pure_reactive_protocol.Transport.Framing.{
  awaiting, filling, length_prefixed, rsocket_prefixed, encode_length_prefixed_frame,
  encode_rsocket_length_prefixed_frame, push_chunk,
}
use pure_reactive_protocol.Transport.Framing.Chunks.{concat, push_all, push_all-concat}
use pure_reactive_protocol.Transport.Framing.RoundTrip.{
  encode_all, push_all-encode_length_prefixed, push_all-encode_rsocket,
}
use pure_reactive_protocol.Transport.Incoming.{IncomingFrameQueue, empty_incoming}
use pure_reactive_protocol.Transport.Incoming.Bounds.{
  IsBounded, Request, tries, throws, waits, resumes, nexts_frame, ends, run_requests,
  run_requests-IsBounded, AreWithin, ArePushers,
}

-- Two frames, cut inside a length, inside a frame, and with an empty chunk.
abbrev two_frames : List (List ℕ)
two_frames = (7 ∷ 8 ∷ 9 ∷ []) ∷ (5 ∷ []) ∷ []

abbrev chunks : List (List ℕ)
chunks = (0 ∷ 0 ∷ []) ∷ (0 ∷ 3 ∷ 7 ∷ []) ∷ [] ∷ (8 ∷ 9 ∷ 0 ∷ 0 ∷ 0 ∷ 1 ∷ 5 ∷ []) ∷ []

abbrev rsocket_chunks : List (List ℕ)
rsocket_chunks = (0 ∷ 0 ∷ []) ∷ (3 ∷ 7 ∷ []) ∷ (8 ∷ 9 ∷ 0 ∷ 0 ∷ 1 ∷ 5 ∷ []) ∷ []

two_frames_encode : encode_all encode_length_prefixed_frame two_frames ≡ ok (concat chunks)
unfolding encode_length_prefixed_frame
two_frames_encode = refl

two_frames_encode_rsocket :
    encode_all encode_rsocket_length_prefixed_frame two_frames ≡ ok (concat rsocket_chunks)
unfolding encode_rsocket_length_prefixed_frame
two_frames_encode_rsocket = refl

push_all-encode_length_prefixed_example :
    push_all length_prefixed 16 (awaiting []) chunks ≡ (awaiting [], ok two_frames)
push_all-encode_length_prefixed_example =
    push_all-encode_length_prefixed 16 two_frames chunks two_frames_encode
      (omega arith, (omega arith, tt))

push_all-encode_rsocket_example :
    push_all rsocket_prefixed 16 (awaiting []) rsocket_chunks ≡ (awaiting [], ok two_frames)
push_all-encode_rsocket_example =
    push_all-encode_rsocket 16 two_frames rsocket_chunks two_frames_encode_rsocket
      (omega arith, (omega arith, tt))

push_all-concat_example :
    push_all length_prefixed 16 (filling 3 (7 ∷ [])) ((8 ∷ []) ∷ (9 ∷ 0 ∷ []) ∷ [])
    ≡ push_chunk length_prefixed 16 (filling 3 (7 ∷ [])) (8 ∷ 9 ∷ 0 ∷ [])
push_all-concat_example =
    push_all-concat length_prefixed 16 (filling 3 (7 ∷ [])) ((8 ∷ []) ∷ (9 ∷ 0 ∷ []) ∷ [])
      (omega arith) (omega arith)

-- A queue with room for one frame, a producer that waits for space, and a late one.
abbrev narrow_queue : IncomingFrameQueue
narrow_queue = record (empty_incoming 4) { max_buffered_frames = 1 }

narrow_queue-IsBounded : IsBounded narrow_queue
unfolding AreWithin ArePushers
narrow_queue-IsBounded = record {
  counted = refl;
  frames_fit = omega arith;
  bytes_fit = omega arith;
  values_fit = tt;
  waiting_fit = tt;
  woken_fit = tt;
  no_idle_value = inl refl;
  no_late_waiter = inl refl;
}

abbrev requests : List Request
requests =
    tries (1 ∷ 2 ∷ [])
    ∷ waits 1 (3 ∷ [])
    ∷ nexts_frame 2
    ∷ resumes
    ∷ throws (4 ∷ [])
    ∷ ends none false
    ∷ tries []
    ∷ nexts_frame 3
    ∷ []

run_requests-IsBounded_example : IsBounded (run_requests narrow_queue requests)
run_requests-IsBounded_example = run_requests-IsBounded narrow_queue requests narrow_queue-IsBounded
