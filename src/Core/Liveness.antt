-- ===== src/Core/Liveness.antt =====
-- src/core/liveness.ts: the liveness timers, their exchange, and the probe ids of PING and PONG.
pub mod Exchange
use pure_reactive_protocol.Prelude.{
  ℕ, ◌+◌, ◌*◌, ◌≤◌, ◌<◌, ◌≡◌, Bool, ◌||◌, not, Option, none, some, List, ◌++◌, length, ltb, leb,
  ◌==◌, ◌/=◌, if◌then◌else◌, arith,
}
use pure_reactive_protocol.Failure.{Result, ok, err, ◌>>=◌, ◌>>◌, throw_if, range_error}
use pure_reactive_protocol.Bytes.{set_u32, set_u64, get_u32, get_u64}
use pure_reactive_protocol.Core.Limits.{max_safe_integer, max_u64, or_default}

pub record LivenessOptions : Type 0 where
  pub interval_ms : Option ℕ
  pub timeout_ms : Option ℕ

pub record ResolvedLivenessOptions : Type 0 where
  pub interval_ms : ℕ
  pub timeout_ms : ℕ

abbrev pub default_liveness : ResolvedLivenessOptions
default_liveness = record { interval_ms = 15000; timeout_ms = 45000 }

unfoldable pub positive_u31 : ℕ → Result ℕ
positive_u31 v = do
  throw_if (not (leb v max_safe_integer) || leb v 0 || ltb 2147483647 v) range_error
  ok v

unfoldable pub resolve_liveness : LivenessOptions → Result ResolvedLivenessOptions
unfolding positive_u31
resolve_liveness o = do
  interval ← positive_u31 (or_default o.interval_ms default_liveness.interval_ms)
  timeout ← positive_u31 (or_default o.timeout_ms default_liveness.timeout_ms)
  throw_if (leb timeout interval) range_error
  ok (record { interval_ms = interval; timeout_ms = timeout })

abbrev pub liveness_parameters_bytes : ℕ
liveness_parameters_bytes = 8

unfoldable pub encode_liveness_parameters : ResolvedLivenessOptions → List ℕ
encode_liveness_parameters o = set_u32 o.interval_ms ++ set_u32 o.timeout_ms

unfoldable pub decode_liveness_parameters : Option (List ℕ) → Result ResolvedLivenessOptions
unfolding resolve_liveness
decode_liveness_parameters none = err range_error
decode_liveness_parameters (some bs) = do
  throw_if (length bs /= liveness_parameters_bytes) range_error
  resolve_liveness (record { interval_ms = some (get_u32 bs 0); timeout_ms = some (get_u32 bs 4) })

unfoldable pub encode_probe : ℕ → Result (List ℕ)
encode_probe probe = do throw_if (leb probe 0 || ltb max_u64 probe) range_error; ok (set_u64 probe)

unfoldable pub decode_probe : Option (List ℕ) → Result ℕ
decode_probe none = err range_error
decode_probe (some bs) = do
  throw_if (length bs /= 8) range_error
  let probe = get_u64 bs 0
  throw_if (probe == 0) range_error
  ok probe
