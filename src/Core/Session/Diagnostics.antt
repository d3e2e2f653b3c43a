-- ===== src/Core/Session/Diagnostics.antt =====
-- What a peer reports: `remoteDiagnostic`, `remoteCancel` and `remoteCloseReason` of
-- src/core/session.ts. Only the code of the resulting error is kept, and its checks; a payload that
-- is absent is the empty one, for which the code has the fallback message either way.
use pure_reactive_protocol.Prelude.{
  ℕ, Bool, false, ◌&&◌, ◌||◌, not, Option, none, some, List, [], ◌∷◌, length, ltb, codes, text_eq,
}
use pure_reactive_protocol.Failure.{
  Failure, protocol_violation, coded, Result, ok, err, ◌>>=◌, ◌>>◌, throw_if,
}
use pure_reactive_protocol.Core.Attributes.{
  ProtocolAttribute, TextCodec, attributes_by_id, attribute_text_strict, strict_text,
}
use pure_reactive_protocol.Core.Frame.{ProtocolFrame, error}
use pure_reactive_protocol.Core.Session.State.{Host, plain_frame}

abbrev pub error_code_id : List ℕ
error_code_id = codes "prp.error.code"

-- `catch (cause) { throw new ProtocolViolationError(…) }`.
abbrev pub or_violation {ℓ} : {A : Type ℓ} → Result A → Result A
or_violation (ok a) = ok a
or_violation (err e) = err protocol_violation

unfoldable pub has_unknown_required : List ProtocolAttribute → Bool
has_unknown_required [] = false
has_unknown_required (item ∷ rest) =
    (item.required && not (text_eq item.id error_code_id)) || has_unknown_required rest

-- The error's code: the one attribute of that id, which must be a text that is not empty.
unfoldable pub nonempty_code : Option (List ℕ) → List ℕ → Result (List ℕ)
nonempty_code none fallback = ok fallback
nonempty_code (some []) fallback = err protocol_violation
nonempty_code (some (c ∷ rest)) fallback = ok (c ∷ rest)

module _ (codec : TextCodec) where
  unfoldable pub check_reason : List ℕ → Result (Unit {0})
  check_reason [] = ok tt
  check_reason (b ∷ payload) = do _ ← or_violation (strict_text codec (b ∷ payload)); ok tt

  unfoldable pub remote_diagnostic : ProtocolFrame → List ℕ → Result Failure
  unfolding nonempty_code check_reason has_unknown_required
  remote_diagnostic f fallback_code = do
    let code_attributes = attributes_by_id f.attributes error_code_id
    throw_if (ltb 1 (length code_attributes)) protocol_violation
    throw_if (has_unknown_required f.attributes) protocol_violation
    given ← or_violation (attribute_text_strict codec code_attributes error_code_id)
    code ← nonempty_code given fallback_code
    check_reason f.payload
    ok (coded code)

  unfoldable pub remote_cancel : ProtocolFrame → Result Failure
  unfolding check_reason
  remote_cancel f = do check_reason f.payload; ok (coded (codes "REMOTE_CANCEL"))

  unfoldable pub remote_close_reason : ProtocolFrame → Result (Unit {0})
  unfolding check_reason
  remote_close_reason f = check_reason f.payload

-- `error instanceof PureReactiveProtocolError ? error.code : other`.
unfoldable pub code_of : Failure → List ℕ → List ℕ
code_of Failure.range_error other = other
code_of Failure.type_error other = other
code_of Failure.plain_error other = other
code_of Failure.protocol_violation other = codes "PROTOCOL_VIOLATION"
code_of Failure.capability_mismatch other = codes "CAPABILITY_MISMATCH"
code_of Failure.connection_lost other = codes "CONNECTION_LOST"
code_of Failure.liveness_timeout other = codes "LIVENESS_TIMEOUT"
code_of Failure.stream_closed other = codes "STREAM_CLOSED"
code_of (coded code) other = code

-- The ERROR frame by which a stream's failure is reported.
unfoldable pub error_frame : Host → ℕ → Failure → List ℕ → ProtocolFrame
unfolding code_of
error_frame host stream_id e code =
    plain_frame error stream_id (record { id = error_code_id; value = code; required = false } ∷ [])
      (host.reason e)
