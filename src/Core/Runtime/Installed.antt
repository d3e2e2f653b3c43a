-- ===== src/Core/Runtime/Installed.antt =====
-- What a runtime that its constructor returns has installed.
use pure_reactive_protocol.Prelude.{
  ℕ, ◌≡◌, refl, ap, sym, subst, ◌∙◌, ◌≤◌, ltb, ◌==◌, true, ◌||◌, not, inl, inr, List, [], ◌∷◌, ◌++◌,
  All, text_eq, text_eq_iff, arith, Bool-cases,
}
use pure_reactive_protocol.Failure.{ok, throw_if, range_error, type_error, >>=-eq-ok, from_ok}
use pure_reactive_protocol.Texts.{contains, distinct}
use pure_reactive_protocol.Texts.Members.{contains-without}
use pure_reactive_protocol.Texts.Unique.{text_eq_refl}
use pure_reactive_protocol.Core.Attributes.{TextCodec}
use pure_reactive_protocol.Core.Limits.{or_default, max_safe_integer, resolve_protocol_limits}
use pure_reactive_protocol.Core.Limits.Exchange.{IsResolved, resolve-IsResolved}
use pure_reactive_protocol.Core.Liveness.{resolve_liveness}
use pure_reactive_protocol.Core.Capabilities.{
  CapabilityDescriptor, offers_id, validate_capability_descriptor, check_local,
}
use pure_reactive_protocol.Core.Runtime.{
  ProtocolExtension, RuntimeOptions, ProtocolRuntime, default_handshake_timeout_ms,
  base_capabilities, resolve_datagrams, datagram_capabilities, compact_capabilities,
  check_available, check_requires, ids_of, extension_capabilities, install_ids, make_runtime,
}

offers-append :
    (before after : List CapabilityDescriptor) (id : List ℕ)
    → offers_id (before ++ after) id ≡ offers_id before id || offers_id after id
unfolding offers_id
offers-append [] after id = refl
offers-append (c ∷ rest) after id = ground (arith, offers-append rest after id)

contains-distinct :
    (xs : List (List ℕ)) (id : List ℕ) → contains (distinct xs) id ≡ true → contains xs id ≡ true
unfolding contains distinct
contains-distinct [] id h = h
contains-distinct (x ∷ xs) id h =
    ground (arith, contains-without x (distinct xs) id, contains-distinct xs id)

contains-ids :
    (caps : List CapabilityDescriptor) (more : List (List ℕ)) (id : List ℕ)
    → contains (ids_of caps ++ more) id ≡ offers_id caps id || contains more id
unfolding contains offers_id
contains-ids [] more id = refl
contains-ids (c ∷ rest) more id = ground (arith, contains-ids rest more id)

-- The loop of the constructor has the ids of what it has gone through.
contains-install :
    (codec : TextCodec) (ids : List (List ℕ)) (caps : List CapabilityDescriptor)
    (all : List (List ℕ)) (id : List ℕ)
    → install_ids codec ids caps ≡ ok all
    → contains all id ≡ contains ids id || offers_id caps id
unfolding install_ids offers_id contains
contains-install codec ids [] all id h = let same = from_ok h in ground arith
contains-install codec ids (c ∷ rest) all id h =
    let (u1, v, h1) = >>=-eq-ok (validate_capability_descriptor codec c) _ h in
    let (u2, w, h2) = >>=-eq-ok (throw_if (contains ids c.id) type_error) _ h1 in
    ground (arith, contains-install codec (c.id ∷ ids) rest all id h2)

-- What it accepts, negotiation accepts as the local offer.
install-check_local :
    (codec : TextCodec) (ids : List (List ℕ)) (caps : List CapabilityDescriptor)
    (all : List (List ℕ))
    → install_ids codec ids caps ≡ ok all
    → check_local codec ids caps ≡ ok tt
unfolding install_ids check_local
install-check_local codec ids [] all h = refl
install-check_local codec ids (c ∷ rest) all h =
    let (u1, v, h1) = >>=-eq-ok (validate_capability_descriptor codec c) _ h in
    let (u2, w, h2) = >>=-eq-ok (throw_if (contains ids c.id) type_error) _ h1 in
    rw (v, w, install-check_local codec (c.id ∷ ids) rest all h2) refl

available-All :
    {P : List ℕ → Type 0} (ids required : List (List ℕ))
    → check_available ids required ≡ ok tt
    → ((id : List ℕ) → contains ids id ≡ true → P id)
    → All P required
unfolding check_available
available-All ids [] h give = tt
available-All ids (id ∷ rest) h give =
    let (u, there, h') = >>=-eq-ok (throw_if (not (contains ids id)) type_error) _ h in
    (give id (ground arith), available-All ids rest h' give)

contains-available :
    (ids required : List (List ℕ)) (id : List ℕ)
    → check_available ids required ≡ ok tt
    → contains required id ≡ true
    → contains ids id ≡ true
unfolding check_available contains
contains-available ids [] id h there = cc
contains-available ids (first ∷ rest) id h there =
    let (u, installed, h') = >>=-eq-ok (throw_if (not (contains ids first)) type_error) _ h in
    elim (Bool-cases (text_eq first id)) [
      | inl same ↦
          let installed' : contains ids first ≡ true = ground arith in
          ap (contains ids) (sym ((text_eq_iff first id).0 same)) ∙ installed'
      | inr differs ↦ contains-available ids rest id h' (ground arith)
    ]

requires-All :
    {P : List ℕ → Type 0} (ids : List (List ℕ)) (extensions : List ProtocolExtension)
    → check_requires ids extensions ≡ ok tt
    → ((id : List ℕ) → contains ids id ≡ true → P id)
    → All (λ e. All P e.requires) extensions
unfolding check_requires
requires-All ids [] h give = tt
requires-All ids (e ∷ rest) h give =
    let (u, these, h') = >>=-eq-ok (check_available ids e.requires) _ h in
    (available-All ids e.requires these give, requires-All ids rest h' give)

offers-install :
    (codec : TextCodec) (caps : List CapabilityDescriptor) (all : List (List ℕ))
    → install_ids codec [] caps ≡ ok all
    → (id : List ℕ) → contains all id ≡ true
    → offers_id caps id ≡ true
unfolding contains
offers-install codec caps all h id there = sym (contains-install codec [] caps all id h) ∙ there

-- A requirement is one of the base capabilities, or checked.
offers-required :
    (base rest : List CapabilityDescriptor) (ids require : List (List ℕ))
    → check_available ids require ≡ ok tt
    → ((id : List ℕ) → contains ids id ≡ true → offers_id (base ++ rest) id ≡ true)
    → (id : List ℕ) → contains (distinct (ids_of base ++ require)) id ≡ true
    → offers_id (base ++ rest) id ≡ true
offers-required base rest ids require h has id there =
    let listed : offers_id base id || contains require id ≡ true =
      sym (contains-ids base require id) ∙ contains-distinct (ids_of base ++ require) id there in
    elim (Bool-cases (contains require id)) [
      | inl named ↦ has id (contains-available ids require id h named)
      | inr unnamed ↦
          let basic : offers_id base id ≡ true = ground arith in
          offers-append base rest id ∙ rw basic refl
    ]

All-contains :
    {P : List ℕ → Type 0} (texts : List (List ℕ))
    → ((text : List ℕ) → contains texts text ≡ true → P text)
    → All P texts
unfolding contains
All-contains [] give = tt
All-contains (text ∷ rest) give =
    let same = text_eq_refl text in
    (give text (ground arith), All-contains rest (λ other there. give other (ground arith)))

-- What a runtime promises of its offer, its requirements and its settings.
pub record IsInstalled (codec : TextCodec) (r : ProtocolRuntime) : Type 0 where
  pub resolved : IsResolved r.limits
  pub handshake : 1 ≤ r.handshake_timeout_ms
  pub own_offer : check_local codec [] r.capabilities ≡ ok tt
  pub offered : All (λ id. offers_id r.capabilities id ≡ true) r.require
  pub extended : All (λ e. All (λ id. offers_id r.capabilities id ≡ true) e.requires) r.extensions

-- A runtime that the constructor returns has limits that are positive, fit their fields and are
-- consistent, and a positive handshake timeout; negotiation takes its capabilities as a valid
-- local offer, without repetition, that includes every capability that the runtime or one of
-- its extensions requires.
pub make_runtime-IsInstalled :
    (codec : TextCodec) (o : RuntimeOptions) (r : ProtocolRuntime)
    → make_runtime codec o ≡ ok r
    → IsInstalled codec r
unfolding make_runtime
make_runtime-IsInstalled codec o r h0 =
    let (limits, hl, h1) = >>=-eq-ok (resolve_protocol_limits o.limits) _ h0 in
    let (liveness, hv, h2) = >>=-eq-ok (resolve_liveness o.liveness) _ h1 in
    let (datagrams, hd, h3) = >>=-eq-ok (resolve_datagrams o.datagrams) _ h2 in
    let timeout = or_default o.handshake_timeout_ms default_handshake_timeout_ms in
    let (u4, ht, h4) =
      >>=-eq-ok (throw_if (ltb max_safe_integer timeout || timeout == 0) range_error) _ h3 in
    let base = base_capabilities limits liveness in
    let (dc, hc, h5) = >>=-eq-ok (datagram_capabilities datagrams) _ h4 in
    let (installed, he, h6) = >>=-eq-ok (extension_capabilities codec o.extensions) _ h5 in
    let rest = (dc ++ compact_capabilities o.compact_frames) ++ installed in
    let caps = base ++ rest in
    let (ids, hi, h7) = >>=-eq-ok (install_ids codec [] caps) _ h6 in
    let (u8, hr, h8) = >>=-eq-ok (check_requires ids o.extensions) _ h7 in
    let (u9, ha, h9) = >>=-eq-ok (check_available ids o.require) _ h8 in
    let has = offers-install codec caps ids hi in
    subst (IsInstalled codec) (from_ok h9) (record {
      resolved = resolve-IsResolved o.limits limits hl;
      handshake = ground arith;
      own_offer = install-check_local codec [] caps ids hi;
      offered =
          All-contains (distinct (ids_of base ++ o.require))
            (offers-required base rest ids o.require ha has);
      extended = requires-All ids o.extensions hr has;
    })
