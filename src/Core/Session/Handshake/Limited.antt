-- ===== src/Core/Session/Handshake/Limited.antt =====
-- The limits that a handshake sets, whatever the other side sent.
use pure_reactive_protocol.Prelude.{
  ℕ, ◌≡◌, refl, ap, sym, subst, ◌∙◌, Bool, true, false, ◌&&◌, Option, none, some, List, [], ◌∷◌,
  arith, Bool-cases, Option-cases, inl, inr,
}
use pure_reactive_protocol.Failure.{Result, ok, err}
use pure_reactive_protocol.Core.Limits.{
  ProtocolLimits, PeerProtocolLimits, decode_peer_protocol_limits,
}
use pure_reactive_protocol.Core.Liveness.{decode_liveness_parameters}
use pure_reactive_protocol.Core.Datagram.{decode_datagram_capability}
use pure_reactive_protocol.Core.Capabilities.{NegotiatedCapability}
use pure_reactive_protocol.Core.Runtime.{ProtocolExtension, ProtocolRuntime}
use pure_reactive_protocol.Core.Session.Retire.{is_over}
use pure_reactive_protocol.Core.Session.Diagnostics.{or_violation}
use pure_reactive_protocol.Core.Session.Offer.{core_datagram}
use pure_reactive_protocol.Core.Session.Negotiated.{
  Attachment, Setup, Phase, passed, then_phase, with_result, with_capability, find_negotiated,
  core_limits, core_liveness, limits_for_peer, set_peer_limits, check_peer_liveness,
  apply_peer_limits, apply_datagram_capability, attach_extensions, attach_one, apply_negotiated,
  is_on, keep_disposer,
}

-- A part that does not throw was reached by parts that do not.
pub then_phase-passed :
    (p : Phase) (next : Attachment → Phase) (a : Attachment)
    → then_phase p next ≡ passed a
    → (b : Attachment) × (p ≡ passed b) × (next b ≡ passed a)
then_phase-passed (b, none) next a h = (b, refl, h)
then_phase-passed (b, some e) next a h = let never = ap (λ p. p.1) h in cc

pub with_result-passed {ℓ} :
    {A : Type ℓ} (r : Result A) (start a : Attachment) (next : A → Phase)
    → with_result r start next ≡ passed a
    → (value : A) × (r ≡ ok value) × (next value ≡ passed a)
with_result-passed (ok value) start a next h = (value, refl, h)
with_result-passed (err e) start a next h = let never = ap (λ p. p.1) h in cc

with_capability-passed :
    (found : Option NegotiatedCapability) (start a : Attachment)
    (next : NegotiatedCapability → Phase)
    → with_capability found start next ≡ passed a
    → (n : NegotiatedCapability) × (found ≡ some n) × (next n ≡ passed a)
with_capability-passed (some n) start a next h = (n, refl, h)
with_capability-passed none start a next h = let never = ap (λ p. p.1) h in cc

or_violation-ok {ℓ} :
    {A : Type ℓ} (r : Result A) (value : A) → or_violation r ≡ ok value → r ≡ ok value
or_violation-ok (ok other) value h = h
or_violation-ok (err e) value h = cc

-- The limits for sending are those of both sides, as the other one announced them.
pub record IsLimited (own : ProtocolLimits) (a : Attachment) (remote : PeerProtocolLimits)
    : Type 0 where
  pub sending : a.session.outbound_limits ≡ limits_for_peer own remote
  pub streams : a.session.remote_max_inbound_streams ≡ remote.max_inbound_streams
  pub item : a.session.remote_max_inbound_item_bytes ≡ remote.max_inbound_item_bytes
  pub read :
      (n : NegotiatedCapability) × (find_negotiated a.negotiated core_limits ≡ some n)
      × (decode_peer_protocol_limits (some n.theirs.parameters) ≡ ok remote)

check_peer_liveness-same : (a b : Attachment) → check_peer_liveness a ≡ passed b → b ≡ a
unfolding check_peer_liveness
check_peer_liveness-same a b h =
    let (n, found, h1) =
      with_capability-passed (find_negotiated a.negotiated core_liveness) a b _ h in
    let (timers, e, same) =
      with_result-passed (or_violation (decode_liveness_parameters (some n.theirs.parameters))) a b
        _ h1 in
    sym (ap (λ p. p.0) same)

apply_peer_limits-IsLimited :
    (own : ProtocolLimits) (a b : Attachment)
    → apply_peer_limits own a ≡ passed b
    → (remote : PeerProtocolLimits) × IsLimited own b remote × (b.negotiated ≡ a.negotiated)
unfolding apply_peer_limits set_peer_limits
apply_peer_limits-IsLimited own a b h =
    let (n, found, h1) =
      with_capability-passed (find_negotiated a.negotiated core_limits) a b _ h in
    let (remote, e, checked) =
      with_result-passed (or_violation (decode_peer_protocol_limits (some n.theirs.parameters))) a b
        _ h1 in
    let same = check_peer_liveness-same (set_peer_limits own remote a) b checked in
    let read = or_violation-ok (decode_peer_protocol_limits (some n.theirs.parameters)) remote e in
    (
      remote,
      subst (λ c. IsLimited own c remote) (sym same)
          (record { sending = refl; streams = refl; item = refl; read = (n, found, read) }),
      ap (λ (c : Attachment). c.negotiated) same,
    )

-- What follows changes neither the limits nor the negotiated capabilities.
abbrev IsKept : Attachment → Attachment → Type 0
IsKept a b = (b.session ≡ a.session) × (b.negotiated ≡ a.negotiated)

apply_datagram_capability-IsKept :
    (runtime : ProtocolRuntime) (a b : Attachment)
    → apply_datagram_capability runtime a ≡ passed b
    → IsKept a b
unfolding apply_datagram_capability
apply_datagram_capability-IsKept runtime a b h =
    elim (Option-cases (find_negotiated a.negotiated core_datagram)) [
      | inl absent ↦
          let same = ap (λ p. p.0) (rw (apply_datagram_capability, absent) at h) in
          subst (IsKept a) same (refl, refl)
      | inr (n, found) ↦
          let h1 = rw (apply_datagram_capability, found) at h in
          elim (Bool-cases (is_on runtime.datagrams && a.datagram_lane)) [
            | inr lacks ↦ let never = ap (λ p. p.1) (rw lacks at h1) in ground arith
            | inl has ↦
                let (bytes, e, h2) =
                  with_result-passed
                    (or_violation (decode_datagram_capability (some n.theirs.parameters))) a b _
                    (rw has at h1) in
                let same = ap (λ p. p.0) h2 in subst (IsKept a) same (refl, refl)
          ]
    ]

keep_disposer-IsKept :
    (id : List ℕ) (disposer : Bool) (a : Attachment) → IsKept a (keep_disposer id disposer a)
keep_disposer-IsKept id false a = (refl, refl)
keep_disposer-IsKept id true a = elim (Bool-cases (is_over a.session.state)) [
  | inl over ↦ rw over (refl, refl)
  | inr going ↦ rw going (refl, refl)
]

attach_one-IsKept :
    (setup : Setup) (e : ProtocolExtension) (a b : Attachment)
    → attach_one setup e a ≡ passed b
    → IsKept a b
attach_one-IsKept setup e a b h =
    elim (Option-cases (find_negotiated a.negotiated e.capability.id)) [
      | inl absent ↦
          let same = ap (λ p. p.0) (rw (attach_one, absent) at h) in
          subst (IsKept a) same (refl, refl)
      | inr (n, found) ↦
          let (disposer, answered, h1) =
            with_result-passed (setup.attach e) a b _ (rw (attach_one, found) at h) in
          let same = ap (λ p. p.0) h1 in
          subst (IsKept a) same (keep_disposer-IsKept e.capability.id disposer a)
    ]

attach_extensions-IsKept :
    (setup : Setup) (extensions : List ProtocolExtension) (a b : Attachment)
    → attach_extensions setup extensions a ≡ passed b
    → IsKept a b
unfolding attach_extensions
attach_extensions-IsKept setup [] a b h =
    let same = ap (λ p. p.0) h in subst (IsKept a) same (refl, refl)
attach_extensions-IsKept setup (e ∷ rest) a b h =
    let (c, one, h1) = then_phase-passed (attach_one setup e a) _ b h in
    let (kept, kept') = attach_extensions-IsKept setup rest c b h1 in
    let (first, first') = attach_one-IsKept setup e a c one in (kept ∙ first, kept' ∙ first')

kept-IsLimited :
    (own : ProtocolLimits) (a b : Attachment) (remote : PeerProtocolLimits)
    → b.session ≡ a.session
    → b.negotiated ≡ a.negotiated
    → IsLimited own a remote
    → IsLimited own b remote
kept-IsLimited own a b remote same same' l =
    let (n, found, read) = l.read in
    record {
      sending = ap (λ s. s.outbound_limits) same ∙ l.sending;
      streams = ap (λ s. s.remote_max_inbound_streams) same ∙ l.streams;
      item = ap (λ s. s.remote_max_inbound_item_bytes) same ∙ l.item;
      read = (n, ap (λ s. find_negotiated s core_limits) same' ∙ found, read);
    }

pub apply_negotiated-IsLimited :
    (setup : Setup) (a b : Attachment)
    → apply_negotiated setup a ≡ passed b
    → (remote : PeerProtocolLimits) × IsLimited setup.runtime.limits b remote
      × (b.negotiated ≡ a.negotiated)
unfolding apply_negotiated
apply_negotiated-IsLimited setup a b h =
    let (c, limited, h1) = then_phase-passed (apply_peer_limits setup.runtime.limits a) _ b h in
    let (d, carried, h2) = then_phase-passed (apply_datagram_capability setup.runtime c) _ b h1 in
    let (remote, l, first) = apply_peer_limits-IsLimited setup.runtime.limits a c limited in
    let (same, same') = apply_datagram_capability-IsKept setup.runtime c d carried in
    let (kept, kept') = attach_extensions-IsKept setup setup.runtime.extensions d b h2 in
    (
      remote,
      kept-IsLimited setup.runtime.limits c b remote (kept ∙ same) (kept' ∙ same') l,
      kept' ∙ same' ∙ first,
    )
