-- ===== src/Profile/DatagramRouting/Peer/CommonRoutes.antt =====
-- The routes that both sides announced: in order, and the same for both.
use pure_reactive_protocol.Prelude.{
  ℕ, ◌≤◌, ◌≡◌, refl, sym, subst, ◌∙◌, Bool, true, ◌&&◌, Option, none, some, List, [], ◌∷◌, All,
  length, drop, ltb, ◌/=◌, text_eq, text_eq_iff, arith, Bool-cases, inl, inr,
}
use pure_reactive_protocol.Failure.{ok, throw_if, capability_mismatch, >>=-eq-ok}
use pure_reactive_protocol.Bytes.{get_u16}
use pure_reactive_protocol.Core.Attributes.{TextCodec}
use pure_reactive_protocol.Texts.{text_lt, contains}
use pure_reactive_protocol.Texts.Order.{IsAscending}
use pure_reactive_protocol.Texts.Unique.{ascending_unique, text_eq_refl}
use pure_reactive_protocol.Profile.DatagramRouting.Routes.{decode_datagram_routes, read_table}
use pure_reactive_protocol.Profile.DatagramRouting.Routes.RoundTrip.{IsNormal, normalize-IsNormal}
use pure_reactive_protocol.Profile.DatagramRouting.Peer.{common_routes}

contains-common_routes :
    (local remote : List (List ℕ)) (text : List ℕ)
    → contains (common_routes local remote) text ≡ (contains local text && contains remote text)
unfolding contains common_routes
contains-common_routes [] remote text = refl
contains-common_routes (route ∷ local) remote text = elim (Bool-cases (text_eq route text)) [
  | inl same ↦
      subst
        (λ t.
          contains (common_routes (route ∷ local) remote) t
          ≡ (contains (route ∷ local) t && contains remote t))
        ((text_eq_iff route text).0 same)
        (let r = text_eq_refl route in ground (arith, contains-common_routes local remote route))
  | inr differs ↦ ground (arith, contains-common_routes local remote text)
]

All-common_routes :
    (P : List ℕ → Type 0) (local remote : List (List ℕ))
    → All P local
    → All P (common_routes local remote)
unfolding common_routes
All-common_routes P [] remote all = tt
All-common_routes P (route ∷ local) remote (p, all) = elim (Bool-cases (contains remote route)) [
  | inl there ↦ rw there (p, All-common_routes P local remote all)
  | inr absent ↦ rw absent (All-common_routes P local remote all)
]

pub common_routes-IsAscending :
    (local remote : List (List ℕ)) → IsAscending local → IsAscending (common_routes local remote)
unfolding common_routes
common_routes-IsAscending [] remote s = tt
common_routes-IsAscending (route ∷ local) remote (below, s) =
    let rest = common_routes-IsAscending local remote s in
    elim (Bool-cases (contains remote route)) [
      | inl there ↦
          rw there (All-common_routes (λ y. text_lt route y ≡ true) local remote below, rest)
      | inr absent ↦ rw absent rest
    ]

and_comm : (a b : Bool) → (a && b) ≡ (b && a)
and_comm a b = ground arith

pub common_routes_comm :
    (local remote : List (List ℕ))
    → IsAscending local
    → IsAscending remote
    → common_routes local remote ≡ common_routes remote local
common_routes_comm local remote s s' =
    ascending_unique (common_routes local remote) (common_routes remote local)
      (common_routes-IsAscending local remote s) (common_routes-IsAscending remote local s')
      (λ text.
        contains-common_routes local remote text
        ∙ and_comm (contains local text) (contains remote text)
        ∙ sym (contains-common_routes remote local text))

pub decode_datagram_routes-IsNormal :
    (codec : TextCodec) (parameters : Option (List ℕ)) (routes : List (List ℕ))
    → decode_datagram_routes codec parameters ≡ ok routes
    → IsNormal codec routes
unfolding decode_datagram_routes
decode_datagram_routes-IsNormal codec none routes h = ground arith
decode_datagram_routes-IsNormal codec (some parameters) routes h =
    let (_, _, h₁) = >>=-eq-ok (throw_if (ltb (length parameters) 2) capability_mismatch) _ h in
    let ((read, left), e, h₂) =
      >>=-eq-ok (read_table codec (get_u16 parameters 0) (drop 2 parameters)) _ h₁ in
    let (_, _, h₃) = >>=-eq-ok (throw_if (length left /= 0) capability_mismatch) _ h₂ in
    (normalize-IsNormal codec read routes h₃).0

pub length-common_routes :
    (local remote : List (List ℕ)) → length (common_routes local remote) ≤ length local
unfolding common_routes
length-common_routes [] remote = omega arith
length-common_routes (route ∷ local) remote = ground (arith, length-common_routes local remote)
