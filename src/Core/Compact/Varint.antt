-- ===== src/Core/Compact/Varint.antt =====
-- `varintBytes`, `writeVarint` and `readVarint` of src/core/compact.ts: groups of seven bits, lowest
-- first. The values are at most 64 bits wide, so that ten rounds of the writer's loop are enough. The
-- bit operations on a byte are written as arithmetic, and the reader's position as the input left.
use pure_reactive_protocol.Prelude.{
  ℕ, zero, suc, ◌+◌, ◌*◌, ◌/◌, ◌%◌, ◌≤◌, ◌<◌, ◌≡◌, ◌⊎◌, inl, inr, refl, ap, ◌∙◌, Bool, true, false,
  ◌&&◌, List, [], ◌∷◌, ◌++◌, All, length, ltb, ◌==◌, if◌then◌else◌, arith, Bool-cases,
}
use native.Mathlib.Nat.{div-add-mod}
use pure_reactive_protocol.Failure.{Result, ok, err, protocol_violation}

-- The loop of `varintBytes`, with the rounds that are left.
unfoldable pub count_groups : ℕ → ℕ → ℕ
count_groups zero value = 1
count_groups (suc rounds) value =
    let more = suc (count_groups rounds (value / 128)) in if ltb value 128 then 1 else more

unfoldable pub varint_bytes : ℕ → ℕ
varint_bytes value = count_groups 9 value

-- The loop of `writeVarint`.
unfoldable pub write_groups : ℕ → ℕ → List ℕ
write_groups zero value = value ∷ []
write_groups (suc rounds) value =
    let more = (value % 128 + 128) ∷ write_groups rounds (value / 128) in
    if ltb value 128 then value ∷ [] else more

unfoldable pub write_varint : ℕ → List ℕ
write_varint value = write_groups 9 value

-- The loop of `readVarint`, with the bytes that it may still take; the digit of the last is at most
-- `top`. `scale` is 2 to the number of bits read, and `later` says that a byte was read before.
unfoldable pub read_groups : ℕ → ℕ → Bool → ℕ → ℕ → List ℕ → Result (ℕ × List ℕ)
read_groups zero top later scale value input = err protocol_violation
read_groups (suc left) top later scale value [] = err protocol_violation
read_groups (suc left) top later scale value (byte ∷ rest) =
    let digit = byte % 128 in
    let more = read_groups left top true (128 * scale) (value + digit * scale) rest in
    if left == 0 && ltb top digit
    then err protocol_violation
    else if ltb byte 128
    then (if later && digit == 0 then err protocol_violation else ok (value + digit * scale, rest))
    else more

unfoldable pub read_varint_32 : List ℕ → Result (ℕ × List ℕ)
read_varint_32 input = read_groups 5 15 false 1 0 input

unfoldable pub read_varint_64 : List ℕ → Result (ℕ × List ℕ)
read_varint_64 input = read_groups 10 1 false 1 0 input

-- The numbers that `left + 1` groups hold, with the last at most `top`.
abbrev pub group_bound : ℕ → ℕ → ℕ
group_bound top zero = top + 1
group_bound top (suc left) = 128 * group_bound top left

length-write_groups :
    (rounds value : ℕ) → length (write_groups rounds value) ≡ count_groups rounds value
unfolding write_groups count_groups
length-write_groups zero value = refl
length-write_groups (suc rounds) value = ground (arith, length-write_groups rounds (value / 128))

-- `varintBytes` is the number of bytes that `writeVarint` writes.
pub length-write_varint : (value : ℕ) → length (write_varint value) ≡ varint_bytes value
unfolding write_varint varint_bytes
length-write_varint value = length-write_groups 9 value

split_scaled : (w scale : ℕ) → w * scale ≡ w % 128 * scale + w / 128 * (128 * scale)
split_scaled w scale = omega (arith, ap (λ (t : ℕ). t * scale) (div-add-mod w 128))

read-write_groups :
    (left rounds top : ℕ) (later : Bool) (scale value w : ℕ) (rest : List ℕ)
    → top ≤ 127
    → left ≤ rounds
    → w < group_bound top left
    → (later ≡ false) ⊎ (1 ≤ w)
    → read_groups (suc left) top later scale value (write_groups rounds w ++ rest)
      ≡ ok (value + w * scale, rest)
unfolding read_groups write_groups
read-write_groups zero zero top later scale value w rest ht hr hw first = ground arith
read-write_groups zero (suc rounds) top later scale value w rest ht hr hw first = ground arith
read-write_groups (suc left) zero top later scale value w rest ht hr hw first = elim hr [ ]
read-write_groups (suc left) (suc rounds) top later scale value w rest ht hr hw first =
    elim (Bool-cases (ltb w 128)) [
      | inl small ↦ ground arith
      | inr large ↦ ground (
        arith,
        split_scaled w scale,
        read-write_groups left rounds top true (128 * scale) (value + w % 128 * scale) (w / 128)
            rest ht (omega arith) (omega arith),
      )
    ]

-- What was written for a 64-bit number is read back, whatever follows it.
pub read-write_varint_64 :
    (w : ℕ) (rest : List ℕ)
    → w < 18446744073709551616
    → read_varint_64 (write_varint w ++ rest) ≡ ok (w, rest)
unfolding read_varint_64 write_varint
read-write_varint_64 w rest h =
    read-write_groups 9 9 1 false 1 0 w rest (omega arith) (omega arith) (omega arith) (inl refl)
    ∙ ap (λ n. ok (n, rest)) (omega arith)

pub read-write_varint_32 :
    (w : ℕ) (rest : List ℕ)
    → w < 4294967296
    → read_varint_32 (write_varint w ++ rest) ≡ ok (w, rest)
unfolding read_varint_32 write_varint
read-write_varint_32 w rest h =
    read-write_groups 4 9 15 false 1 0 w rest (omega arith) (omega arith) (omega arith) (inl refl)
    ∙ ap (λ n. ok (n, rest)) (omega arith)

-- A number that was read, with its groups: they are the ones that would be written for it.
record IsRead (left rounds top : ℕ) (later : Bool) (scale value : ℕ) (input : List ℕ) (result : ℕ)
    (rest : List ℕ) : Type 0 where
  number : ℕ
  added : result ≡ value + number * scale
  written : input ≡ write_groups rounds number ++ rest
  bounded : number < group_bound top left
  canonical : (later ≡ false) ⊎ (1 ≤ number)

group_bound_pos : (top left : ℕ) → 1 ≤ group_bound top left
group_bound_pos top zero = omega arith
group_bound_pos top (suc left) = omega (arith, group_bound_pos top left)

read_groups-IsRead :
    (left rounds top : ℕ) (later : Bool) (scale value : ℕ) (input : List ℕ) (result : ℕ)
    (rest : List ℕ)
    → top ≤ 127
    → left ≤ rounds
    → All (λ b. b < 256) input
    → read_groups (suc left) top later scale value input ≡ ok (result, rest)
    → IsRead left rounds top later scale value input result rest
unfolding read_groups write_groups
read_groups-IsRead left rounds top later scale value [] result rest ht hr hb h = ground arith
read_groups-IsRead zero zero top later scale value (byte ∷ bytes) result rest ht hr hb h = record {
  number = byte;
  added = ground arith;
  written = ground arith;
  bounded = ground arith;
  canonical = ground arith;
}
read_groups-IsRead zero (suc rounds) top later scale value (byte ∷ bytes) result rest ht hr hb h =
    record {
      number = byte;
      added = ground arith;
      written = ground arith;
      bounded = ground arith;
      canonical = ground arith;
    }
read_groups-IsRead (suc left) zero top later scale value (byte ∷ bytes) result rest ht hr hb h =
    elim hr [ ]
read_groups-IsRead (suc left) (suc rounds) top later scale value (byte ∷ bytes) result rest ht hr hb
      h =
    elim (Bool-cases (ltb byte 128)) [
      | inl last ↦ record {
        number = byte;
        added = ground arith;
        written = ground arith;
        bounded = ground (arith, group_bound_pos top left);
        canonical = ground arith;
      }
      | inr more ↦
          let rec : IsRead left rounds top true (128 * scale) (value + byte % 128 * scale) bytes
              result rest =
            read_groups-IsRead left rounds top true (128 * scale) (value + byte % 128 * scale) bytes
              result rest ht (omega arith) hb.1 (ground arith) in
          let pos : 1 ≤ rec.number = ground (arith, rec.canonical) in
          let w : ℕ = byte % 128 + 128 * rec.number in
          let low : w % 128 ≡ byte % 128 = omega arith in
          let high : w / 128 ≡ rec.number = omega arith in
          record {
            number = w;
            added = omega (
              arith,
              rec.added,
              split_scaled w scale,
              ap (λ (t : ℕ). t * scale) low,
              ap (λ (t : ℕ). t * (128 * scale)) high,
            );
            written = ground (arith, rec.written, low, high);
            bounded = omega (arith, rec.bounded);
            canonical = ground (arith, pos);
          }
    ]

-- A byte string that begins with a varint, as the reader takes it, begins with the one that the
-- writer makes of the number read: no number has two encodings.
pub read_varint_64-canonical :
    (input : List ℕ) (v : ℕ) (rest : List ℕ)
    → All (λ b. b < 256) input
    → read_varint_64 input ≡ ok (v, rest)
    → (input ≡ write_varint v ++ rest) × (v < 18446744073709551616)
unfolding read_varint_64 write_varint
read_varint_64-canonical input v rest hb h =
    let r : IsRead 9 9 1 false 1 0 input v rest =
      read_groups-IsRead 9 9 1 false 1 0 input v rest (omega arith) (omega arith) hb h in
    let same : r.number ≡ v = omega (arith, r.added) in
    (r.written ∙ ap (λ n. write_groups 9 n ++ rest) same, omega (arith, r.bounded, same))

pub read_varint_32-canonical :
    (input : List ℕ) (v : ℕ) (rest : List ℕ)
    → All (λ b. b < 256) input
    → read_varint_32 input ≡ ok (v, rest)
    → (input ≡ write_varint v ++ rest) × (v < 4294967296)
unfolding read_varint_32 write_varint
read_varint_32-canonical input v rest hb h =
    let r : IsRead 4 9 15 false 1 0 input v rest =
      read_groups-IsRead 4 9 15 false 1 0 input v rest (omega arith) (omega arith) hb h in
    let same : r.number ≡ v = omega (arith, r.added) in
    (r.written ∙ ap (λ n. write_groups 9 n ++ rest) same, omega (arith, r.bounded, same))
