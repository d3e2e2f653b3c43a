-- ===== src/Core/Session/Lane/Taken.antt =====
-- Writes that the lane took, and the loop after one that it did not.
use pure_reactive_protocol.Prelude.{
  ℕ, ◌+◌, ◌≡◌, refl, ap, ◌∙◌, Bool, true, false, Option, none, some, List, [], ◌∷◌, ltb,
  if◌then◌else◌,
}
use pure_reactive_protocol.Failure.{Failure, Result, ok, err}
use pure_reactive_protocol.Core.Limits.{max_u64}
use pure_reactive_protocol.Core.Attributes.{TextCodec}
use pure_reactive_protocol.Core.Frame.{ProtocolFrame}
use pure_reactive_protocol.Core.Session.State.{Session}
use pure_reactive_protocol.Core.Session.Lane.{
  Lane, Written, encode_for, write_frame_now, encoded_for, lane_answered, write_each, then_write,
}

-- A write that was not refused.
abbrev pub IsTaken : Session → List ℕ → Written → Type 0
IsTaken s bs w =
    (w.sent ≡ bs ∷ []) × (w.session ≡ record s { outgoing_sequence = s.outgoing_sequence + 1 })

lane_answered-IsTaken :
    (s : Session) (bs : List ℕ) (answer : Option Failure)
    → (lane_answered s bs answer).failure ≡ none
    → IsTaken s bs (lane_answered s bs answer)
unfolding lane_answered
lane_answered-IsTaken s bs none h = (refl, refl)
lane_answered-IsTaken s bs (some cause) h = cc

encoded_for-IsTaken :
    (lane : List ℕ → Option Failure) (s : Session) (encoded : Result (List ℕ))
    → (encoded_for lane s encoded).failure ≡ none
    → (bs : List ℕ) × (encoded ≡ ok bs) × IsTaken s bs (encoded_for lane s encoded)
unfolding encoded_for
encoded_for-IsTaken lane s (err e) h = cc
encoded_for-IsTaken lane s (ok bs) h = (bs, refl, lane_answered-IsTaken s bs (lane bs) h)

guarded-IsTaken :
    (over : Bool) (lane : List ℕ → Option Failure) (s : Session) (encoded : Result (List ℕ))
    (refusal : Written) (e : Failure)
    → refusal.failure ≡ some e
    → (if over then refusal else encoded_for lane s encoded).failure ≡ none
    → (bs : List ℕ) × (encoded ≡ ok bs)
      × IsTaken s bs (if over then refusal else encoded_for lane s encoded)
guarded-IsTaken true lane s encoded refusal e r h = cc
guarded-IsTaken false lane s encoded refusal e r h = encoded_for-IsTaken lane s encoded h

pub write_frame_now-IsTaken :
    (codec : TextCodec) (compact : Bool) (lane : Lane) (f : ProtocolFrame) (s : Session)
    → (write_frame_now codec compact lane f s).failure ≡ none
    → (bs : List ℕ) × (encode_for codec compact (record f { sequence = s.outgoing_sequence }) s
        ≡ ok bs)
      × IsTaken s bs (write_frame_now codec compact lane f s)
unfolding write_frame_now
write_frame_now-IsTaken codec compact none f s h = cc
write_frame_now-IsTaken codec compact (some lane) f s h =
    guarded-IsTaken (ltb max_u64 s.outgoing_sequence) lane s
      (encode_for codec compact (record f { sequence = s.outgoing_sequence }) s) _ _ refl h

-- After a throw the loop changes nothing.
pub write_each-failed :
    (codec : TextCodec) (compact : Bool) (lane : Lane) (frames : List ProtocolFrame) (w : Written)
    (e : Failure)
    → w.failure ≡ some e
    → write_each codec compact lane frames w ≡ w
unfolding write_each then_write
write_each-failed codec compact lane [] w e h = refl
write_each-failed codec compact lane (f ∷ frames) w e h =
    ap (λ failure. write_each codec compact lane frames (then_write codec compact lane f w failure))
      h
    ∙ write_each-failed codec compact lane frames w e h
