-- ===== src/Core/Session/Fragment/Delivery.antt =====
-- An item that was cut into frames arrives as it was sent.
use pure_reactive_protocol.Prelude.{
  ℕ, ◌+◌, ◌-◌, ◌*◌, ◌≤◌, ◌<◌, ◌≡◌, refl, ◌∙◌, ap, Bool, true, false, not, none, some, List, [], ◌∷◌,
  ◌++◌, length, ltb, leb, arith, inl, inr, Bool-cases, codes, take, drop, take-append-drop,
  length-take, length-drop,
}
use pure_reactive_protocol.Failure.{
  range_error, capability_mismatch, coded, ok, throw_if, >>=-eq-ok,
}
use pure_reactive_protocol.Core.Limits.{ProtocolLimits, frame_header_bytes}
use pure_reactive_protocol.Core.Attributes.{ProtocolAttribute, TextCodec}
use pure_reactive_protocol.Core.Frame.{ProtocolFrame, data_item}
use pure_reactive_protocol.Core.Codec.Frames.{encode_frame}
use pure_reactive_protocol.Core.Session.State.{
  Session, StreamState, ReassemblyState, StreamMessage, Host, plain_frame,
}
use pure_reactive_protocol.Core.Session.Table.{find_stream}
use pure_reactive_protocol.Core.Session.Receive.{
  deliver, handle_frame, dispatch, to_stream, handle_stream_frame, handle_data, accept_data,
  is_ready,
}
use pure_reactive_protocol.Core.Session.Fragment.{
  fragmented_frames, first_frame, fragments_from, fragment_count, item_frames, check_shapes,
  reserved_attribute_bytes, check_stream,
}
use pure_reactive_protocol.Core.Session.Fragment.Pieces.{
  payloads, payloads-fragments_from, fragments_from-AllPos, fragment_count_bounds,
}
use pure_reactive_protocol.Core.Session.Fragment.Reassembly.{
  handle_frames, handle_frames-cons, handle_frames-one, under_way, first_arrives, fragments_arrive,
  fragments_from-AllFragments,
}

-- A stream that may receive an item: open, with credit, and with no item under way.
pub record IsReceptive (s : Session) (st : StreamState) : Type 0 where
  pub session_ready : is_ready s.state ≡ true
  pub known : find_stream st.id s.streams ≡ some st
  pub inbound_open : st.inbound_closed ≡ false
  pub not_cancelled : st.cancelled ≡ false
  pub no_item : st.reassembly ≡ none
  pub has_credit : 1 ≤ st.inbound_credit

module _ (host : Host) (s : Session) (st : StreamState) (r : IsReceptive s st) (content : List ℕ)
    (attributes : List ProtocolAttribute)
    (fits : length content ≤ s.limits.max_inbound_item_bytes) where
  abbrev after_credit : StreamState
  after_credit = record st { inbound_credit = st.inbound_credit - 1; reassembly = none }

  abbrev message : StreamMessage
  message = record { content = content; attributes = attributes }

  fragmented_arrives :
      (first_bytes capacity : ℕ)
      → 1 ≤ capacity
      → first_bytes < length content
      → s.in_flight_reassembly_bytes + length content ≤ s.limits.max_in_flight_reassembly_bytes
      → host.reserves (length content) ≡ true
      → handle_frames host (fragmented_frames st.id content attributes first_bytes capacity) s
        ≡ deliver message after_credit s
  unfolding fragmented_frames first_frame
  fragmented_arrives first_bytes capacity room rest budget memory =
      let count = fragment_count (length content - first_bytes) capacity in
      let frames = fragments_from st.id content first_bytes capacity 0 count in
      let opened : ReassemblyState = record {
        total = length content;
        received = take first_bytes content;
        attributes = attributes;
      } in
      let bounds =
        fragment_count_bounds st.id content first_bytes capacity room
          (length content - first_bytes) in
      let pos =
        fragments_from-AllPos st.id content first_bytes capacity room 0 count (omega arith) in
      let start : first_bytes + 0 * capacity ≡ first_bytes = omega arith in
      let cut : payloads frames ≡ drop first_bytes content =
        payloads-fragments_from st.id content first_bytes capacity room 0 count (omega arith)
        ∙ ap (λ n. drop n content) start in
      let same : st ≡ record after_credit { inbound_credit = st.inbound_credit - 1 + 1 } =
        ground (arith, r.no_item, r.has_credit) in
      handle_frames-cons host (first_frame st.id content attributes first_bytes) frames s
        (under_way host s after_credit r.session_ready r.inbound_open r.not_cancelled opened)
        (first_arrives host s after_credit r.session_ready r.inbound_open r.not_cancelled
          (first_frame st.id content attributes first_bytes) refl refl refl (r.known ∙ ap some same)
          refl fits budget memory)
      ∙ fragments_arrive host s after_credit r.session_ready r.inbound_open r.not_cancelled frames
          opened (fragments_from-AllFragments st.id content first_bytes capacity 0 count pos)
          (omega (arith, length-take first_bytes content))
          (omega (
            arith,
            length-take first_bytes content,
            ap length cut,
            length-drop first_bytes content,
          ))
      ∙ ap (λ p. deliver (record { content = p; attributes = attributes }) after_credit s)
          (ap (◌++◌ (take first_bytes content)) cut ∙ take-append-drop first_bytes content)

  single_arrives :
      handle_frames host (plain_frame data_item st.id attributes content ∷ []) s
      ≡ deliver message after_credit s
  unfolding handle_frame dispatch to_stream handle_stream_frame handle_data accept_data
  single_arrives = handle_frames-one host _ s ∙ ground arith

-- The frames of an item: the whole in one, or the cut of an item that does not fit in one.
data IsCut (limits : ProtocolLimits) (id : ℕ) (content : List ℕ)
    (attributes : List ProtocolAttribute) (frames : List ProtocolFrame) : Type 0 where
  single :
      frames ≡ plain_frame data_item id attributes content ∷ []
      → IsCut limits id content attributes frames
  several :
      (first_bytes capacity : ℕ)
      → 1 ≤ capacity
      → first_bytes < length content
      → frames ≡ fragmented_frames id content attributes first_bytes capacity
      → IsCut limits id content attributes frames

item_frames-IsCut :
    (codec : TextCodec) (limits : ProtocolLimits) (max_item : ℕ) (compact supported : Bool)
    (streams : List StreamState) (id : ℕ) (content : List ℕ) (attributes : List ProtocolAttribute)
    (frames : List ProtocolFrame)
    → item_frames codec limits max_item compact supported streams id content attributes ≡ ok frames
    → (length content ≤ max_item) × IsCut limits id content attributes frames
unfolding item_frames
item_frames-IsCut codec limits max_item compact supported streams id content attributes frames
      made =
    let (u1, c1, h1) =
      >>=-eq-ok (throw_if (ltb max_item (length content)) (coded (codes "ITEM_TOO_LARGE"))) _
        made in
    let (n, c2, h2) = >>=-eq-ok (reserved_attribute_bytes codec limits compact attributes) _ h1 in
    let (u3, c3, h3) =
      >>=-eq-ok (throw_if (ltb limits.max_frame_bytes (frame_header_bytes + n)) range_error) _ h2 in
    let (u3', c3', h3') = >>=-eq-ok (check_stream (find_stream id streams)) _ h3 in
    let first_bytes = limits.max_frame_bytes - frame_header_bytes - n in
    let capacity = limits.max_frame_bytes - frame_header_bytes in
    (
      ground arith,
      elim (Bool-cases (leb (length content) first_bytes)) [
        | inl whole ↦
            let (bs, c4, h4) =
              >>=-eq-ok
                (encode_frame codec
                  (record (plain_frame data_item id attributes content) { sequence = 1 }) limits)
                _ (rw whole at h3') in
            single (ground arith)
        | inr larger ↦
            let h = rw larger at h3' in
            let (u4, c4, h4) = >>=-eq-ok (throw_if (not supported) capability_mismatch) _ h in
            let (u5, c5, h5) = >>=-eq-ok (throw_if (leb capacity 0) range_error) _ h4 in
            let (u6, c6, h6) =
              >>=-eq-ok (check_shapes codec limits id content attributes first_bytes capacity) _
                h5 in
            several first_bytes capacity (ground arith) (ground arith) (ground arith)
      ],
    )

-- For a peer whose item limit is the one that it announced: the frames that `writeDataItem` hands to
-- the writer for an item, one or many, with compact frames or without, are handled as one delivery
-- of the whole item, which takes one credit, provided that the stream is open with credit and no item
-- under way, and that the reassembly budget and the memory have room for the item.
pub item_arrives :
    (host : Host) (s : Session) (st : StreamState) (limits : ProtocolLimits)
    (compact supported : Bool) (streams : List StreamState) (content : List ℕ)
    (attributes : List ProtocolAttribute) (frames : List ProtocolFrame)
    → IsReceptive s st
    → s.in_flight_reassembly_bytes + length content ≤ s.limits.max_in_flight_reassembly_bytes
    → host.reserves (length content) ≡ true
    → item_frames host.codec limits s.limits.max_inbound_item_bytes compact supported streams st.id
        content attributes
      ≡ ok frames
    → handle_frames host frames s
      ≡ deliver
          (record { content = content; attributes = attributes })
          (record st { inbound_credit = st.inbound_credit - 1 })
          s
item_arrives host s st limits compact supported streams content attributes frames r budget memory
      made =
    let (fits, cut) =
      item_frames-IsCut host.codec limits s.limits.max_inbound_item_bytes compact supported streams
        st.id content attributes frames made in
    let same : record st { inbound_credit = st.inbound_credit - 1; reassembly = none }
        ≡ record st { inbound_credit = st.inbound_credit - 1 } =
      ground (arith, r.no_item) in
    arrives cut fits
    ∙ ap (λ t. deliver (record { content = content; attributes = attributes }) t s) same
  where
    arrives :
        IsCut limits st.id content attributes frames
        → length content ≤ s.limits.max_inbound_item_bytes
        → handle_frames host frames s
          ≡ deliver
              (record { content = content; attributes = attributes })
              (record st { inbound_credit = st.inbound_credit - 1; reassembly = none })
              s
    arrives (single e) fits =
        ap (λ fs. handle_frames host fs s) e ∙ single_arrives host s st r content attributes fits
    arrives (several first_bytes capacity room rest e) fits =
        ap (λ fs. handle_frames host fs s) e
        ∙ fragmented_arrives host s st r content attributes fits first_bytes capacity room rest
            budget memory
