-- ===== src/Core/Session/Offer.antt =====
-- src/core/session.ts: the capabilities that `attach` offers. Without a datagram lane, native
-- datagrams are left out, and so is every extension that requires what is left out.
pub mod Largest
use pure_reactive_protocol.Prelude.{
  ℕ, zero, suc, Bool, true, false, ◌&&◌, ◌||◌, not, List, [], ◌∷◌, length, text_eq, codes,
  if◌then◌else◌,
}
use pure_reactive_protocol.Texts.{contains, without}
use pure_reactive_protocol.Core.Capabilities.{CapabilityDescriptor}
use pure_reactive_protocol.Core.Runtime.{ProtocolExtension, ids_of}

abbrev pub core_datagram : List ℕ
core_datagram = codes "prp.core.datagram"

unfoldable pub has_every : List (List ℕ) → List (List ℕ) → Bool
has_every available [] = true
has_every available (required ∷ rest) = contains available required && has_every available rest

-- The ids that the carrier allows.
unfoldable pub carried_ids : Bool → List CapabilityDescriptor → List (List ℕ)
carried_ids has_lane [] = []
carried_ids has_lane (capability ∷ rest) =
    let others = carried_ids has_lane rest in
    if not (text_eq capability.id core_datagram) || has_lane then capability.id ∷ others else others

-- The body of the `while` loop: the ids that are left, and `changed`.
unfoldable pub drop_unmet : List ProtocolExtension → List (List ℕ) → Bool → List (List ℕ) × Bool
drop_unmet [] available changed = (available, changed)
drop_unmet (extension ∷ rest) available changed =
    let dropped = drop_unmet rest (without extension.capability.id available) true in
    let kept = drop_unmet rest available changed in
    if contains available extension.capability.id && not (has_every available extension.requires)
    then dropped
    else kept

-- The loop, on fuel.
unfoldable pub drop_until : ℕ → List ProtocolExtension → List (List ℕ) → List (List ℕ)
drop_until zero extensions available = available
drop_until (suc fuel) extensions available =
    let round = drop_unmet extensions available false in
    let more = drop_until fuel extensions round.0 in if round.1 then more else round.0

-- `physicallyAvailable` after the loop. A round that changes something takes an id away, and one
-- more changes nothing.
unfoldable pub available_ids :
    Bool → List ProtocolExtension → List CapabilityDescriptor → List (List ℕ)
available_ids has_lane extensions capabilities =
    let carried = carried_ids has_lane capabilities in
    drop_until (suc (length carried)) extensions carried

unfoldable pub filter_offered :
    List (List ℕ) → List CapabilityDescriptor → List CapabilityDescriptor
filter_offered available [] = []
filter_offered available (capability ∷ rest) =
    let others = filter_offered available rest in
    if contains available capability.id then capability ∷ others else others

-- `this.offeredCapabilities`.
unfoldable pub offered_capabilities :
    Bool → List ProtocolExtension → List CapabilityDescriptor → List CapabilityDescriptor
offered_capabilities has_lane extensions capabilities =
    filter_offered (available_ids has_lane extensions capabilities) capabilities
