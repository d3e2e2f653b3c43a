-- ===== src/Transport/Framing.antt =====
-- src/transport/framing.ts and src/compatibility/rsocket-v1/framing.ts: frames behind a length prefix.
-- The two decoders have the same loop; they differ in the width of the prefix, how it is read, the
-- bound, and the error, which are parameters here.
pub mod Single
pub mod Chunks
pub mod RoundTrip
use pure_reactive_protocol.Prelude.{
  ℕ, zero, suc, ◌-◌, ◌+◌, ◌/◌, ◌%◌, ◌*◌, min, Bool, ◌||◌, not, List, [], ◌∷◌, ◌++◌, length, take,
  drop, ltb, leb, ◌==◌, if◌then◌else◌, codes,
}
use pure_reactive_protocol.Failure.{
  Failure, Result, ok, err, ◌>>=◌, ◌>>◌, throw_if, range_error, protocol_violation, coded,
}
use pure_reactive_protocol.Bytes.{set_u32, get_u8, get_u32}

-- `prefix` counts while no frame is under way, and a frame of `total` bytes once its length is known.
pub data Decoder : Type 0 where
  awaiting : List ℕ → Decoder
  filling : ℕ → List ℕ → Decoder

-- What a call of `push` leaves and returns; a throw drops the frames of the call.
abbrev pub Pushed : Type 0
Pushed = Decoder × Result (List (List ℕ))

-- `frames.push(this.frame)`, with what the loop does afterwards.
abbrev pub emit : List ℕ → Pushed → Pushed
emit frame (d, err e) = (d, err e)
emit frame (d, ok frames) = (d, ok (frame ∷ frames))

-- `bufferedBytes`.
abbrev pub buffered_bytes : Decoder → ℕ
buffered_bytes (awaiting prefix) = length prefix
buffered_bytes (filling total received) = length received

pub record Format : Type 0 where
  pub width : ℕ
  pub read_length : List ℕ → ℕ
  pub bad : Failure

module _ (format : Format) (max_frame_bytes : ℕ) where
  -- The bytes of the prefix that are there, and what follows them.
  unfoldable pub collect : List ℕ → List ℕ → List ℕ × List ℕ
  collect prefix [] = (prefix, [])
  collect prefix (x ∷ xs) =
      let more = collect (prefix ++ x ∷ []) xs in
      if ltb (length prefix) format.width then more else (prefix, x ∷ xs)

  -- The second half of the loop's body, for a frame under way, with `copy` bytes to be taken; `again`
  -- is the loop.
  unfoldable pub fill_by : (Decoder → List ℕ → Pushed) → ℕ → List ℕ → List ℕ → ℕ → Pushed
  fill_by again total received chunk copy =
      let filled = received ++ take copy chunk in
      if length filled == total
      then emit filled (again (awaiting []) (drop copy chunk))
      else again (filling total filled) (drop copy chunk)

  unfoldable pub fill : (Decoder → List ℕ → Pushed) → ℕ → List ℕ → List ℕ → Pushed
  fill again total received chunk =
      fill_by again total received chunk (min (total - length received) (length chunk))

  abbrev pub is_bad_length : ℕ → Bool
  is_bad_length n = n == 0 || ltb max_frame_bytes n

  unfoldable pub open_frame : (Decoder → List ℕ → Pushed) → List ℕ → List ℕ → Pushed
  open_frame again prefix rest =
      if is_bad_length (format.read_length prefix)
      then (awaiting [], err format.bad)
      else fill again (format.read_length prefix) [] rest

  -- The loop, with the bytes of the chunk that are left.
  unfoldable pub push_loop : ℕ → Decoder → List ℕ → Pushed
  push_loop zero d chunk = (d, ok [])
  push_loop (suc fuel) d [] = (d, ok [])
  push_loop (suc fuel) (awaiting prefix) (x ∷ xs) =
      let (filled, rest) = collect prefix (x ∷ xs) in
      if ltb (length filled) format.width
      then (awaiting filled, ok [])
      else open_frame (push_loop fuel) filled rest
  push_loop (suc fuel) (filling total received) (x ∷ xs) =
      fill (push_loop fuel) total received (x ∷ xs)

  -- Each turn of the loop takes a byte at least.
  unfoldable pub push_chunk : Decoder → List ℕ → Pushed
  push_chunk d chunk = push_loop (length chunk) d chunk

-- `LengthPrefixedFrameDecoder`: four bytes, big-endian.
abbrev pub length_prefixed : Format
length_prefixed = record {
  width = 4;
  read_length = λ prefix. get_u32 prefix 0;
  bad = protocol_violation;
}

abbrev pub check_max_frame_bytes : ℕ → ℕ → Result (Unit {0})
check_max_frame_bytes bound max_frame_bytes =
    throw_if (leb max_frame_bytes 0 || ltb bound max_frame_bytes) range_error

unfoldable pub encode_length_prefixed_frame : List ℕ → Result (List ℕ)
encode_length_prefixed_frame frame = do
  throw_if (leb (length frame) 0) range_error
  throw_if (ltb 0xffffffff (length frame)) range_error
  ok (set_u32 (length frame) ++ frame)

abbrev pub rsocket_max_frame_bytes : ℕ
rsocket_max_frame_bytes = 0xffffff

-- `RSocketLengthPrefixedDecoder`: three bytes.
abbrev pub rsocket_prefixed : Format
rsocket_prefixed = record {
  width = 3;
  read_length = λ prefix. get_u8 prefix 0 * 65536 + get_u8 prefix 1 * 256 + get_u8 prefix 2;
  bad = coded (codes "RSOCKET_PROTOCOL_VIOLATION");
}

abbrev pub set_u24 : ℕ → List ℕ
set_u24 n = (n / 65536) % 256 ∷ (n / 256) % 256 ∷ n % 256 ∷ []

unfoldable pub encode_rsocket_length_prefixed_frame : List ℕ → Result (List ℕ)
encode_rsocket_length_prefixed_frame frame = do
  throw_if (leb (length frame) 0 || ltb rsocket_max_frame_bytes (length frame)) range_error
  ok (set_u24 (length frame) ++ frame)
