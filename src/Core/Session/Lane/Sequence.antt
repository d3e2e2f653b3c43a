-- ===== src/Core/Session/Lane/Sequence.antt =====
-- Frames that were written are read by the peer in order, with consecutive sequence numbers.
use pure_reactive_protocol.Prelude.{
  ℕ, suc, ◌+◌, ◌-◌, ◌≡◌, refl, sym, ap, subst, ◌∙◌, Bool, true, false, ◌&&◌, none, some, List, [],
  ◌∷◌, ◌++◌, append_assoc, append-nil, All, length, ltb, ◌==◌, ◌/=◌, if◌then◌else◌, arith,
  Option-cases, inl, inr,
}
use pure_reactive_protocol.Failure.{
  Failure, Result, ok, ◌>>=◌, >>=-eq-ok, throw_if, protocol_violation,
}
use pure_reactive_protocol.Bytes.{get_u8}
use pure_reactive_protocol.Core.Limits.{ProtocolLimits, max_u64}
use pure_reactive_protocol.Core.Limits.Exchange.{IsResolved}
use pure_reactive_protocol.Core.Attributes.{TextCodec, IsUtf8, IsSendable}
use pure_reactive_protocol.Core.Frame.{ProtocolFrame}
use pure_reactive_protocol.Core.Codec.Frames.{encode_frame, write_header}
use pure_reactive_protocol.Core.Codec.RoundTrip.{decode-encode_frame, encode_frame-eq-ok}
use pure_reactive_protocol.Core.Compact.Frames.{compact_frame_magic}
use pure_reactive_protocol.Core.Compact.RoundTrip.{decode-encode_compact_frame}
use pure_reactive_protocol.Core.Codec.Wider.{IsWider, decode_frame-IsWider}
use pure_reactive_protocol.Core.Compact.Wider.{decode_compact_frame-IsWider}
use pure_reactive_protocol.Core.Session.State.{Session, ready}
use pure_reactive_protocol.Core.Session.Lane.{
  Lane, Written, is_bootstrap, encode_for, write_frame_now, write_each, then_write,
  write_frames_now, decode_for,
}
use pure_reactive_protocol.Core.Session.Lane.Taken.{
  IsTaken, write_frame_now-IsTaken, write_each-failed,
}

encode_frame-magic :
    (codec : TextCodec) (f : ProtocolFrame) (limits : ProtocolLimits) (bs : List ℕ)
    → encode_frame codec f limits ≡ ok bs
    → (length bs /= 0 && get_u8 bs 0 == compact_frame_magic) ≡ false
unfolding write_header
encode_frame-magic codec f limits bs h =
    let (area, e, v, same) = encode_frame-eq-ok codec limits f bs h in rw same (ground arith)

decode_for-IsWider :
    (codec : TextCodec) (limits wider : ProtocolLimits) (compact : Bool) (raw : List ℕ)
    (f : ProtocolFrame)
    → IsWider limits wider
    → decode_for codec compact ready limits raw ≡ ok f
    → decode_for codec compact ready wider raw ≡ ok f
unfolding decode_for
decode_for-IsWider codec limits wider true raw f w h =
    decode_compact_frame-IsWider codec limits wider w raw f h
decode_for-IsWider codec limits wider false raw f w h =
    let (u, plain, h1) =
      >>=-eq-ok
        (throw_if (length raw /= 0 && get_u8 raw 0 == compact_frame_magic) protocol_violation) _
        h in
    rw plain (decode_frame-IsWider codec limits wider w raw f h1)

-- What the peer decodes, in order.
unfoldable pub decode_each :
    TextCodec → Bool → ProtocolLimits → List (List ℕ) → Result (List ProtocolFrame)
decode_each codec compact limits [] = ok []
decode_each codec compact limits (raw ∷ rest) = do
  f ← decode_for codec compact ready limits raw
  frames ← decode_each codec compact limits rest
  ok (f ∷ frames)

-- The frames with the sequence numbers from `first` on.
unfoldable pub numbered : ℕ → List ProtocolFrame → List ProtocolFrame
numbered first [] = []
numbered first (f ∷ frames) = record f { sequence = first } ∷ numbered (suc first) frames

module _ (codec : TextCodec) (utf8 : IsUtf8 codec) where
  decode_for-encode_for :
      (compact : Bool) (f : ProtocolFrame) (s : Session) (bs : List ℕ)
      → s.state ≡ ready
      → is_bootstrap ready f.kind f.stream_id ≡ false
      → IsResolved s.outbound_limits
      → All (λ item. IsSendable item.id) f.attributes
      → encode_for codec compact f s ≡ ok bs
      → decode_for codec compact ready s.outbound_limits bs ≡ ok f
  unfolding encode_for decode_for
  decode_for-encode_for true f s bs is_ready plain r sendable h =
      (decode-encode_compact_frame codec utf8 s.outbound_limits r f bs sendable
        (rw (is_ready, plain) at h)).1
  decode_for-encode_for false f s bs is_ready plain r sendable h =
      let encoded : encode_frame codec f s.outbound_limits ≡ ok bs = rw (is_ready, plain) at h in
      rw (encode_frame-magic codec f s.outbound_limits bs encoded)
        (decode-encode_frame codec utf8 s.outbound_limits f bs r sendable encoded).1

-- Frames that only a connected session sends, with attributes that arrive as they are sent.
abbrev pub IsPlain : ProtocolFrame → Type 0
IsPlain f =
    (is_bootstrap ready f.kind f.stream_id ≡ false) × All (λ item. IsSendable item.id) f.attributes

module _ (codec : TextCodec) (utf8 : IsUtf8 codec) (compact : Bool) (lane : Lane)
    (limits wider : ProtocolLimits) (r : IsResolved limits) (covers : IsWider limits wider) where
  abbrev Continues : List ProtocolFrame → Written → Written → Type 0
  Continues frames w later =
      (sent : List (List ℕ)) × (later.sent ≡ w.sent ++ sent)
      × (decode_each codec compact wider sent ≡ ok (numbered w.session.outgoing_sequence frames))
      × (later.session.outgoing_sequence ≡ w.session.outgoing_sequence + length frames)

  first_of_loop :
      (f : ProtocolFrame) (w : Written)
      → w.session.state ≡ ready
      → w.session.outbound_limits ≡ limits
      → IsPlain f
      → (write_frame_now codec compact lane f w.session).failure ≡ none
      → (bs : List ℕ) × IsTaken w.session bs (write_frame_now codec compact lane f w.session)
        × (decode_for codec compact ready wider bs
            ≡ ok (record f { sequence = w.session.outgoing_sequence }))
  first_of_loop f w is_ready same (plain, sendable) h =
      let (bs, encoded, taken) = write_frame_now-IsTaken codec compact lane f w.session h in
      (
        bs,
        taken,
        decode_for-IsWider codec w.session.outbound_limits wider compact bs
            (record f { sequence = w.session.outgoing_sequence })
            (subst (λ l. IsWider l wider) (sym same) covers)
            (decode_for-encode_for codec utf8 compact
              (record f { sequence = w.session.outgoing_sequence }) w.session bs is_ready plain
              (subst IsResolved (sym same) r) sendable encoded),
      )

  -- The loop goes on from where the first frame left it.
  continue_loop :
      (f : ProtocolFrame) (frames : List ProtocolFrame) (w next later : Written) (bs : List ℕ)
      → IsTaken w.session bs next
      → decode_for codec compact ready wider bs
        ≡ ok (record f { sequence = w.session.outgoing_sequence })
      → Continues frames (record next { sent = w.sent ++ next.sent }) later
      → Continues (f ∷ frames) w later
  unfolding decode_each numbered
  continue_loop f frames w next later bs (taken, after) read (sent, whole, decoded, last) =
      let count : next.session.outgoing_sequence ≡ w.session.outgoing_sequence + 1 =
        ap (λ (s : Session). s.outgoing_sequence) after in
      let decoded' : decode_each codec compact wider sent
          ≡ ok (numbered (suc w.session.outgoing_sequence) frames) =
        decoded ∙ ap (λ n. ok (numbered n frames)) (count ∙ omega arith) in
      (
        bs ∷ sent,
        whole ∙ ap (λ first. (w.sent ++ first) ++ sent) taken ∙ append_assoc w.sent (bs ∷ []) sent,
        rw (read, decoded') refl,
        omega (arith, last, count),
      )

  write_each-Continues :
      (frames : List ProtocolFrame) (w : Written)
      → w.failure ≡ none
      → w.session.state ≡ ready
      → w.session.outbound_limits ≡ limits
      → All IsPlain frames
      → (write_each codec compact lane frames w).failure ≡ none
      → Continues frames w (write_each codec compact lane frames w)
  unfolding write_each then_write
  write_each-Continues [] w none' is_ready same plain h =
      ([], sym (append-nil w.sent), unfold decode_each numbered in refl, omega arith)
  write_each-Continues (f ∷ frames) w none' is_ready same (plain, others) h =
      let next = write_frame_now codec compact lane f w.session in
      let w' : Written = record next { sent = w.sent ++ next.sent } in
      let step : then_write codec compact lane f w w.failure ≡ w' =
        ap (then_write codec compact lane f w) none' in
      let h' : (write_each codec compact lane frames w').failure ≡ none =
        subst (λ v. (write_each codec compact lane frames v).failure ≡ none) step h in
      let goal : Continues (f ∷ frames) w (write_each codec compact lane frames w') =
        elim (Option-cases next.failure) [
          | inl written ↦
              let (bs, taken, read) = first_of_loop f w is_ready same plain written in
              continue_loop f frames w next (write_each codec compact lane frames w') bs taken read
                (write_each-Continues frames w' written
                  (ap (λ (s : Session). s.state) taken.1 ∙ is_ready)
                  (ap (λ (s : Session). s.outbound_limits) taken.1 ∙ same) others h')
          | inr (e, failed) ↦
              let stuck : (write_each codec compact lane frames w').failure ≡ some e =
                ap (λ (v : Written). v.failure)
                  (write_each-failed codec compact lane frames w' e failed)
                ∙ failed in
              cc
        ] in
      subst (λ v. Continues (f ∷ frames) w (write_each codec compact lane frames v)) (sym step) goal

  abbrev Arrives : List ProtocolFrame → Session → Written → Type 0
  Arrives frames s w =
      (decode_each codec compact wider w.sent ≡ ok (numbered s.outgoing_sequence frames))
      × (w.session.outgoing_sequence ≡ s.outgoing_sequence + length frames)

  guarded_loop :
      (P : Written → Type 0) (over : Bool) (refusal w : Written) (e : Failure)
      → refusal.failure ≡ some e
      → (if over then refusal else w).failure ≡ none
      → (w.failure ≡ none → P w)
      → P (if over then refusal else w)
  guarded_loop P true refusal w e r h holds = cc
  guarded_loop P false refusal w e r h holds = holds h

  -- Of a ready session whose limits for sending are resolved: frames of a connected session, with
  -- sendable attribute ids, that `writeFrames` writes without a throw are decoded by a ready peer
  -- whose own limits are these or wider, in order, with the sequence numbers that follow on the
  -- session's own; and the session goes on after the last of them. That holds of both encodings.
  pub decode_each-write_frames_now :
      (frames : List ProtocolFrame) (s : Session)
      → s.state ≡ ready
      → s.outbound_limits ≡ limits
      → All IsPlain frames
      → (write_frames_now codec compact lane frames s).failure ≡ none
      → (decode_each codec compact wider (write_frames_now codec compact lane frames s).sent
          ≡ ok (numbered s.outgoing_sequence frames))
        × ((write_frames_now codec compact lane frames s).session.outgoing_sequence
            ≡ s.outgoing_sequence + length frames)
  unfolding write_frames_now
  decode_each-write_frames_now [] s is_ready same plain h =
      (unfold decode_each numbered in refl, omega arith)
  decode_each-write_frames_now (f ∷ frames) s is_ready same plain h =
      guarded_loop (Arrives (f ∷ frames) s)
        (ltb max_u64 (s.outgoing_sequence + suc (length frames) - 1)) _
        (write_each codec compact lane (f ∷ frames)
          (record { session = s; sent = []; failure = none }))
        _ refl h
        (λ written.
          let start : Written = record { session = s; sent = []; failure = none } in
          let (sent, whole, decoded, last) =
            write_each-Continues (f ∷ frames) start refl is_ready same plain written in
          (rw whole decoded, last))
