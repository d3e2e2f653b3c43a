-- ===== src/Core/Liveness/Exchange.antt =====
-- Liveness parameters and probe ids survive the wire.
use pure_reactive_protocol.Prelude.{ℕ, ◌≤◌, ◌<◌, ◌≡◌, some, List, arith}
use pure_reactive_protocol.Failure.{ok}
use pure_reactive_protocol.Bytes.{be32-set_u32, get_u64-set_u64}
use pure_reactive_protocol.Core.Liveness.{
  LivenessOptions, ResolvedLivenessOptions, resolve_liveness, encode_liveness_parameters,
  decode_liveness_parameters, encode_probe, decode_probe,
}

pub record IsResolved (r : ResolvedLivenessOptions) : Type 0 where
  pub interval_pos : 1 ≤ r.interval_ms
  pub ordered : r.interval_ms < r.timeout_ms
  pub fits : r.timeout_ms ≤ 2147483647

pub resolve_liveness-IsResolved :
    (o : LivenessOptions) (r : ResolvedLivenessOptions) → resolve_liveness o ≡ ok r → IsResolved r
unfolding resolve_liveness
resolve_liveness-IsResolved o r h = ground arith

resolve_given :
    (r : ResolvedLivenessOptions)
    → IsResolved r
    → resolve_liveness (record { interval_ms = some r.interval_ms; timeout_ms = some r.timeout_ms })
      ≡ ok r
unfolding resolve_liveness
resolve_given r v = ground arith

-- A peer accepts the timers that a runtime resolved and announced, and reads them unchanged.
pub decode-encode_liveness :
    (o : LivenessOptions) (r : ResolvedLivenessOptions)
    → resolve_liveness o ≡ ok r
    → decode_liveness_parameters (some (encode_liveness_parameters r)) ≡ ok r
unfolding decode_liveness_parameters encode_liveness_parameters
decode-encode_liveness o r h =
    let v = resolve_liveness-IsResolved o r h in
    rw (be32-set_u32 r.interval_ms (omega arith), be32-set_u32 r.timeout_ms (omega arith))
      (unfold resolve_liveness in resolve_given r v)

-- A probe id that is encoded is read back.
pub decode-encode_probe :
    (probe : ℕ) (bs : List ℕ) → encode_probe probe ≡ ok bs → decode_probe (some bs) ≡ ok probe
unfolding encode_probe decode_probe
decode-encode_probe probe bs h = ground (arith, get_u64-set_u64 probe)
