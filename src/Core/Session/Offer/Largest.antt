-- ===== src/Core/Session/Offer/Largest.antt =====
-- The ids that are offered are the most that the carrier and the requirements allow.
use pure_reactive_protocol.Prelude.{
  ℕ, zero, suc, ◌≤◌, ◌<◌, ◌≡◌, refl, ap, sym, ◌∙◌, Bool, true, false, ◌&&◌, ◌||◌, not, inl, inr,
  List, [], ◌∷◌, length, text_eq, text_eq_iff, arith, Bool-cases,
}
use pure_reactive_protocol.Texts.{contains, without}
use pure_reactive_protocol.Texts.Unique.{length-without_present, length-without}
use pure_reactive_protocol.Texts.Members.{contains-without, contains-without_other}
use pure_reactive_protocol.Core.Capabilities.{CapabilityDescriptor}
use pure_reactive_protocol.Core.Runtime.{ProtocolExtension}
use pure_reactive_protocol.Core.Session.Offer.{
  has_every, carried_ids, drop_unmet, drop_until, available_ids,
}

-- Each extension whose capability is in the set finds there all that it requires.
unfoldable pub is_met : List ProtocolExtension → List (List ℕ) → Bool
is_met [] ids = true
is_met (extension ∷ rest) ids =
    (not (contains ids extension.capability.id) || has_every ids extension.requires)
    && is_met rest ids

-- A round that began as changed ends so.
drop_unmet_changed :
    (extensions : List ProtocolExtension) (available : List (List ℕ))
    → (drop_unmet extensions available true).1 ≡ true
unfolding drop_unmet
drop_unmet_changed [] available = refl
drop_unmet_changed (e ∷ rest) available = ground (
  arith,
  drop_unmet_changed rest (without e.capability.id available),
  drop_unmet_changed rest available,
)

drop_unmet-is_met :
    (extensions : List ProtocolExtension) (available : List (List ℕ))
    → (drop_unmet extensions available false).1 ≡ false
    → ((drop_unmet extensions available false).0 ≡ available) × (is_met extensions available ≡ true)
unfolding drop_unmet is_met
drop_unmet-is_met [] available h = (refl, refl)
drop_unmet-is_met (e ∷ rest) available h =
    elim (Bool-cases (contains available e.capability.id && not (has_every available e.requires))) [
      | inl unmet ↦
          let changed = drop_unmet_changed rest (without e.capability.id available) in ground arith
      | inr met ↦
          let (same, closed) = drop_unmet-is_met rest available (rw met at h) in
          (rw met same, ground arith)
    ]

length-drop_unmet :
    (extensions : List ProtocolExtension) (available : List (List ℕ)) (changed : Bool)
    → length (drop_unmet extensions available changed).0 ≤ length available
unfolding drop_unmet
length-drop_unmet [] available changed = omega arith
length-drop_unmet (e ∷ rest) available changed = ground (
  arith,
  length-drop_unmet rest (without e.capability.id available) true,
  length-drop_unmet rest available changed,
  length-without e.capability.id available,
)

length-drop_unmet_changed :
    (extensions : List ProtocolExtension) (available : List (List ℕ))
    → (drop_unmet extensions available false).1 ≡ true
    → length (drop_unmet extensions available false).0 < length available
unfolding drop_unmet
length-drop_unmet_changed [] available h = ground arith
length-drop_unmet_changed (e ∷ rest) available h =
    elim (Bool-cases (contains available e.capability.id && not (has_every available e.requires))) [
      | inl unmet ↦
          let there : contains available e.capability.id ≡ true = ground arith in
          rw unmet (
            omega (
              arith,
              length-drop_unmet rest (without e.capability.id available) true,
              length-without_present e.capability.id available there,
            ))
      | inr met ↦ rw met (length-drop_unmet_changed rest available (rw met at h))
    ]

has_every_mono :
    (ids available required : List (List ℕ))
    → ((id : List ℕ) → contains ids id ≡ true → contains available id ≡ true)
    → has_every ids required ≡ true
    → has_every available required ≡ true
unfolding has_every
has_every_mono ids available [] within h = refl
has_every_mono ids available (first ∷ rest) within h =
    let here = within first in let there = has_every_mono ids available rest within in ground arith

-- What a closed set needs is not among what a round takes away.
within-without :
    (ids available : List (List ℕ)) (target : List ℕ)
    → contains ids target ≡ false
    → ((id : List ℕ) → contains ids id ≡ true → contains available id ≡ true)
    → (id : List ℕ) → contains ids id ≡ true
    → contains (without target available) id ≡ true
within-without ids available target absent within id there = elim (Bool-cases (text_eq target id)) [
  | inl same ↦
      let absent' : contains ids id ≡ false =
        ap (contains ids) (sym ((text_eq_iff target id).0 same)) ∙ absent in
      ground arith
  | inr differs ↦ contains-without_other target id available differs ∙ within id there
]

contains-drop_unmet :
    (extensions : List ProtocolExtension) (available : List (List ℕ)) (changed : Bool)
    (ids : List (List ℕ))
    → is_met extensions ids ≡ true
    → ((id : List ℕ) → contains ids id ≡ true → contains available id ≡ true)
    → (id : List ℕ) → contains ids id ≡ true
    → contains (drop_unmet extensions available changed).0 id ≡ true
unfolding drop_unmet is_met
contains-drop_unmet [] available changed ids closed within id there = within id there
contains-drop_unmet (e ∷ rest) available changed ids closed within id there =
    elim (Bool-cases (contains available e.capability.id && not (has_every available e.requires))) [
      | inl unmet ↦
          let met = has_every_mono ids available e.requires within in
          let absent : contains ids e.capability.id ≡ false = ground arith in
          rw unmet (
            contains-drop_unmet rest (without e.capability.id available) true ids (ground arith)
              (within-without ids available e.capability.id absent within) id there)
      | inr met ↦
          rw met (contains-drop_unmet rest available changed ids (ground arith) within id there)
    ]

-- A round takes ids from the set, and puts none in.
drop_unmet-contains :
    (extensions : List ProtocolExtension) (available : List (List ℕ)) (changed : Bool) (id : List ℕ)
    → contains (drop_unmet extensions available changed).0 id ≡ true
    → contains available id ≡ true
unfolding drop_unmet
drop_unmet-contains [] available changed id h = h
drop_unmet-contains (e ∷ rest) available changed id h = ground (
  arith,
  drop_unmet-contains rest (without e.capability.id available) true id,
  drop_unmet-contains rest available changed id,
  contains-without e.capability.id available id,
)

-- The loop ends by its test when its fuel is more than the ids, and with a closed set.
drop_until-is_met :
    (fuel : ℕ) (extensions : List ProtocolExtension) (available : List (List ℕ))
    → length available < fuel
    → is_met extensions (drop_until fuel extensions available) ≡ true
unfolding drop_until
drop_until-is_met zero extensions available h = absurd (omega arith)
drop_until-is_met (suc fuel) extensions available h =
    elim (Bool-cases (drop_unmet extensions available false).1) [
      | inl more ↦
          let shorter = length-drop_unmet_changed extensions available more in
          rw more (
            drop_until-is_met fuel extensions (drop_unmet extensions available false).0
              (omega arith))
      | inr last ↦
          let (same, closed) = drop_unmet-is_met extensions available last in rw (last, same) closed
    ]

contains-drop_until :
    (fuel : ℕ) (extensions : List ProtocolExtension) (available ids : List (List ℕ))
    → is_met extensions ids ≡ true
    → ((id : List ℕ) → contains ids id ≡ true → contains available id ≡ true)
    → (id : List ℕ) → contains ids id ≡ true
    → contains (drop_until fuel extensions available) id ≡ true
unfolding drop_until
contains-drop_until zero extensions available ids closed within id there = within id there
contains-drop_until (suc fuel) extensions available ids closed within id there =
    let next = contains-drop_unmet extensions available false ids closed within in
    elim (Bool-cases (drop_unmet extensions available false).1) [
      | inl more ↦ rw more (
          contains-drop_until fuel extensions (drop_unmet extensions available false).0 ids closed
            next id there)
      | inr last ↦ rw last (next id there)
    ]

drop_until-contains :
    (fuel : ℕ) (extensions : List ProtocolExtension) (available : List (List ℕ)) (id : List ℕ)
    → contains (drop_until fuel extensions available) id ≡ true
    → contains available id ≡ true
unfolding drop_until
drop_until-contains zero extensions available id h = h
drop_until-contains (suc fuel) extensions available id h =
    let before = drop_unmet-contains extensions available false id in
    ground (arith, drop_until-contains fuel extensions (drop_unmet extensions available false).0 id)

-- The loop of attach ends with a set that is closed: an extension stays only with all that it
-- requires. The set has only ids that the carrier allows, and it is the largest such set: it has
-- the ids of every closed set within what the carrier allows.
pub available_ids-is_met :
    (has_lane : Bool) (extensions : List ProtocolExtension)
    (capabilities : List CapabilityDescriptor) (ids : List (List ℕ)) (id left : List ℕ)
    → is_met extensions ids ≡ true
    → ((i : List ℕ) → contains ids i ≡ true → contains (carried_ids has_lane capabilities) i ≡ true)
    → contains ids id ≡ true
    → contains (available_ids has_lane extensions capabilities) left ≡ true
    → (is_met extensions (available_ids has_lane extensions capabilities) ≡ true)
      × (contains (available_ids has_lane extensions capabilities) id ≡ true)
      × (contains (carried_ids has_lane capabilities) left ≡ true)
unfolding available_ids
available_ids-is_met has_lane extensions capabilities ids id left closed within there stayed =
    let carried = carried_ids has_lane capabilities in
    (
      drop_until-is_met (suc (length carried)) extensions carried (omega arith),
      contains-drop_until (suc (length carried)) extensions carried ids closed within id there,
      drop_until-contains (suc (length carried)) extensions carried left stayed,
    )
