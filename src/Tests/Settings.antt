-- ===== src/Tests/Settings.antt =====
-- Limits, timers, datagrams and queues.
use pure_reactive_protocol.Prelude.{
  true, ℕ, ◌≤◌, ◌≡◌, refl, inl, false, none, some, List, [], ◌∷◌, ◌++◌, length, if◌then◌else◌, ltb,
}
use pure_reactive_protocol.Failure.{ok, err, protocol_violation, stream_closed}
use pure_reactive_protocol.Core.Limits.{
  ProtocolLimits, default_protocol_limits, LimitOverrides, resolve_protocol_limits,
  encode_peer_protocol_limits, decode_peer_protocol_limits,
}
use pure_reactive_protocol.Core.Limits.Exchange.{
  IsResolved, resolve-IsResolved, announced, decode-encode_limits,
}
use pure_reactive_protocol.Core.Liveness.{
  LivenessOptions, ResolvedLivenessOptions, resolve_liveness, encode_liveness_parameters,
  decode_liveness_parameters,
}
use pure_reactive_protocol.Core.Liveness.Exchange.{decode-encode_liveness}
use pure_reactive_protocol.Core.Datagram.{encode_datagram, decode_datagram}
use pure_reactive_protocol.Core.Datagram.Envelope.{decode-encode_datagram}
use pure_reactive_protocol.Core.Queue.{empty}
use pure_reactive_protocol.Core.Queue.Order.{
  Call, pushes, nexts, finishes, run, lost, delivered, served, pushed, asked, IsTidy, run_values,
  run_tickets,
}

abbrev overrides : LimitOverrides
overrides = record {
  max_frame_bytes = some 2048;
  max_attribute_bytes = some 1024;
  max_attributes = none;
  max_attribute_id_bytes = none;
  max_attribute_value_bytes = some 512;
  max_inbound_item_bytes = none;
  max_in_flight_reassembly_bytes = none;
  max_inbound_streams = some 2000;
  max_pending_incoming_streams = none;
  max_pending_signals = none;
  max_in_flight_signal_bytes = none;
  max_retained_stream_attribute_bytes = none;
  max_retired_streams = none;
}

abbrev limits : ProtocolLimits
limits = record default_protocol_limits {
  max_frame_bytes = 2048;
  max_attribute_bytes = 1024;
  max_attribute_value_bytes = 512;
  max_inbound_streams = 2000;
}

limits_resolve : resolve_protocol_limits overrides ≡ ok limits
unfolding resolve_protocol_limits
limits_resolve = refl

resolve-IsResolved_example : IsResolved limits
resolve-IsResolved_example = resolve-IsResolved overrides limits limits_resolve

decode-encode_limits_example :
    decode_peer_protocol_limits (some (encode_peer_protocol_limits limits)) ≡ ok (announced limits)
decode-encode_limits_example = decode-encode_limits overrides limits limits_resolve

abbrev timers : LivenessOptions
timers = record { interval_ms = some 400; timeout_ms = none }

abbrev resolved_timers : ResolvedLivenessOptions
resolved_timers = record { interval_ms = 400; timeout_ms = 45000 }

timers_resolve : resolve_liveness timers ≡ ok resolved_timers
unfolding resolve_liveness
timers_resolve = refl

decode-encode_liveness_example :
    decode_liveness_parameters (some (encode_liveness_parameters resolved_timers))
    ≡ ok resolved_timers
decode-encode_liveness_example = decode-encode_liveness timers resolved_timers timers_resolve

abbrev content : List ℕ
content = 7 ∷ 8 ∷ []

abbrev datagram : List ℕ
datagram = 80 ∷ 82 ∷ 68 ∷ 49 ∷ 7 ∷ 8 ∷ []

datagram_encodes : encode_datagram content 16 false ≡ ok datagram
unfolding encode_datagram
datagram_encodes = refl

decode-encode_datagram_example :
    (length datagram ≤ 16)
    × (decode_datagram datagram 1 false
        ≡ (if ltb 1 (length content) then err protocol_violation else ok content))
decode-encode_datagram_example = decode-encode_datagram content datagram 16 1 false datagram_encodes

-- Two waiters, three values, an end that discards the value stored, and a late push.
abbrev calls : List (Call ℕ)
calls =
    nexts 1
    ∷ nexts 2
    ∷ pushes 10
    ∷ pushes 11
    ∷ pushes 12
    ∷ finishes (some stream_closed) true
    ∷ pushes 13
    ∷ nexts 3
    ∷ nexts 4
    ∷ []

empty-IsTidy : IsTidy {A = ℕ} empty
empty-IsTidy = record { no_idle_value = inl refl; no_late_waiter = inl refl }

run_values_example :
    delivered (run empty calls).1 ++ (lost empty calls ++ (run empty calls).0.values)
    ≡ [] ++ pushed false calls
run_values_example = run_values empty calls empty-IsTidy

run_tickets_example : served (run empty calls).1 ++ (run empty calls).0.waiters ≡ [] ++ asked calls
run_tickets_example = run_tickets empty calls empty-IsTidy
