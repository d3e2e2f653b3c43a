-- ===== src/Profile/Rpc.antt =====
-- src/profile/rpc/index.ts: the attributes that open a call. Open reads them back, Serve answers a
-- call and takes its response, Registry is the handlers that a peer registers,
-- and Attach the checks that come before.
pub mod Open
pub mod Attach
pub mod Serve
pub mod Registry
use pure_reactive_protocol.Prelude.{
  ℕ, Bool, true, false, ◌&&◌, ◌||◌, not, Option, none, some, List, [], ◌∷◌, length, leb,
  if◌then◌else◌, text_eq, codes,
}
use pure_reactive_protocol.Failure.{
  Result, ok, err, Failure, ◌>>=◌, ◌>>◌, throw_if, type_error, coded,
}
use pure_reactive_protocol.Texts.{contains}
use pure_reactive_protocol.Core.Attributes.{
  ProtocolAttribute, TextCodec, text_attribute, attributes_by_id, bytes, strict_text,
}

abbrev pub profile_attribute : List ℕ
profile_attribute = codes "prp.profile"

abbrev pub target_attribute : List ℕ
target_attribute = codes "prp.rpc.target"

abbrev pub pattern_attribute : List ℕ
pattern_attribute = codes "prp.rpc.pattern"

abbrev pub rpc_profile_id : List ℕ
rpc_profile_id = codes "rpc/1"

abbrev pub rpc_open_attributes : List (List ℕ)
rpc_open_attributes = profile_attribute ∷ target_attribute ∷ pattern_attribute ∷ []

pub data RpcPattern : Type 0 where
  unary notify server_stream duplex : RpcPattern

abbrev pub pattern_text : RpcPattern → List ℕ
pattern_text unary = codes "unary"
pattern_text notify = codes "notify"
pattern_text server_stream = codes "server-stream"
pattern_text duplex = codes "duplex"

-- The pattern of a text, if there is one.
unfoldable pub pattern_of : List ℕ → Option RpcPattern
pattern_of text =
    if text_eq text (codes "unary")
    then some unary
    else if text_eq text (codes "notify")
    then some notify
    else if text_eq text (codes "server-stream")
    then some server_stream
    else if text_eq text (codes "duplex")
    then some duplex
    else none

abbrev pub invalid_open : Failure
invalid_open = coded (codes "RPC_INVALID_OPEN")

abbrev pub required_unsupported : Failure
required_unsupported = coded (codes "RPC_REQUIRED_ATTRIBUTE_UNSUPPORTED")

-- If an attribute is required and not one of `known`.
unfoldable pub has_unsupported : List (List ℕ) → List ProtocolAttribute → Bool
has_unsupported known [] = false
has_unsupported known (item ∷ rest) =
    (item.required && not (contains known item.id)) || has_unsupported known rest

-- `undefined` and the empty text are both refused.
abbrev pub or_empty : Option (List ℕ) → List ℕ
or_empty none = []
or_empty (some text) = text

abbrev pub pattern_or_fail : Option RpcPattern → Result RpcPattern
pattern_or_fail none = err invalid_open
pattern_or_fail (some pattern) = ok pattern

module _ (codec : TextCodec) where
  unfoldable pub validate_target : List ℕ → Result (Unit {0})
  validate_target target = do
    throw_if (leb (length target) 0) type_error
    _ ← text_attribute codec target_attribute target false
    ok tt

  unfoldable pub profile_attributes : List ℕ → RpcPattern → Result (List ProtocolAttribute)
  profile_attributes target pattern = do
    profile ← text_attribute codec profile_attribute rpc_profile_id true
    named ← text_attribute codec target_attribute target true
    patterned ← text_attribute codec pattern_attribute (pattern_text pattern) true
    ok (profile ∷ named ∷ patterned ∷ [])

  -- A text that does not decode is the sender's mistake.
  unfoldable pub open_text : List ℕ → Result (Option (List ℕ))
  open_text value = elim (codec.decode_strict value) [
    | none ↦ err invalid_open
    | some text ↦ ok (some text)
  ]

  unfoldable pub singleton_of : List ProtocolAttribute → Result (Option (List ℕ))
  singleton_of [] = ok none
  singleton_of (item ∷ []) = open_text item.value
  singleton_of (item ∷ second ∷ rest) = err invalid_open

  unfoldable pub singleton_text : List ProtocolAttribute → List ℕ → Result (Option (List ℕ))
  singleton_text attributes id = singleton_of (attributes_by_id attributes id)

  -- The test `accepts` of the acceptor.
  unfoldable pub accepts_one : List ProtocolAttribute → Bool
  accepts_one [] = false
  accepts_one (item ∷ []) = elim (codec.decode_strict item.value) [
    | none ↦ false
    | some text ↦ text_eq text rpc_profile_id
  ]
  accepts_one (item ∷ second ∷ rest) = false

  unfoldable pub accepts_rpc : List ProtocolAttribute → Bool
  accepts_rpc attributes = accepts_one (attributes_by_id attributes profile_attribute)

  -- The part of `handleIncomingRpc` before the handlers are looked up: the target and the pattern,
  -- or what the stream is failed with.
  unfoldable pub read_open : List ProtocolAttribute → Result (List ℕ × RpcPattern)
  read_open attributes = do
    throw_if (has_unsupported rpc_open_attributes attributes) required_unsupported
    profile ← singleton_text attributes profile_attribute
    target ← singleton_text attributes target_attribute
    pattern ← singleton_text attributes pattern_attribute
    throw_if (not (text_eq (or_empty profile) rpc_profile_id)) invalid_open
    throw_if (leb (length (or_empty target)) 0) invalid_open
    known ← pattern_or_fail (pattern_of (or_empty pattern))
    ok (or_empty target, known)
