-- ===== src/Tests/Offers.antt =====
-- What a session offers without a datagram lane.
use pure_reactive_protocol.Prelude.{ℕ, ◌≡◌, refl, true, false, List, [], ◌∷◌, codes, text_eq, arith}
use pure_reactive_protocol.Texts.{contains, without}
use pure_reactive_protocol.Core.Capabilities.{CapabilityDescriptor}
use pure_reactive_protocol.Core.Runtime.{ProtocolExtension}
use pure_reactive_protocol.Core.Session.Offer.{
  has_every, carried_ids, drop_unmet, drop_until, available_ids,
}
use pure_reactive_protocol.Core.Session.Offer.Largest.{is_met, available_ids-is_met}
use pure_reactive_protocol.Tests.Agreements.{range_of, routing}

-- An extension that needs the routing extension, which needs datagrams.
abbrev relay : ProtocolExtension
relay = record {
  capability = range_of (codes "y") 1 1;
  requires = codes "r" ∷ [];
  has_attach = true;
}

abbrev installed : List CapabilityDescriptor
installed =
    range_of (codes "a") 1 1
    ∷ range_of (codes "prp.core.datagram") 1 1
    ∷ range_of (codes "r") 1 2
    ∷ range_of (codes "y") 1 1
    ∷ []

only_closed : is_met (relay ∷ routing ∷ []) (codes "a" ∷ []) ≡ true
unfolding is_met has_every contains text_eq
only_closed = refl

only_here : contains (codes "a" ∷ []) (codes "a") ≡ true
unfolding contains text_eq
only_here = refl

only_left : contains (available_ids false (relay ∷ routing ∷ []) installed) (codes "a") ≡ true
unfolding available_ids carried_ids drop_until drop_unmet has_every contains without text_eq
only_left = refl

only_within :
    (id : List ℕ)
    → contains (codes "a" ∷ []) id ≡ true
    → contains (carried_ids false installed) id ≡ true
unfolding contains carried_ids text_eq
only_within id h = ground arith

available_ids-is_met_example :
    (is_met (relay ∷ routing ∷ []) (available_ids false (relay ∷ routing ∷ []) installed) ≡ true)
    × (contains (available_ids false (relay ∷ routing ∷ []) installed) (codes "a") ≡ true)
    × (contains (carried_ids false installed) (codes "a") ≡ true)
available_ids-is_met_example =
    available_ids-is_met false (relay ∷ routing ∷ []) installed (codes "a" ∷ []) (codes "a")
      (codes "a") only_closed only_within only_here only_left
