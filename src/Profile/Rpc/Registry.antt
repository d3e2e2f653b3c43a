-- ===== src/Profile/Rpc/Registry.antt =====
-- src/profile/rpc/index.ts: the handlers that a peer registers.
pub mod Disposal
use pure_reactive_protocol.Prelude.{
  ℕ, ◌≡◌, refl, ap, sym, subst, ◌∙◌, ◌⊎◌, inl, inr, Bool, true, false, Option, none, some, List, [],
  ◌∷◌, ◌||◌, if◌then◌else◌, text_eq, text_eq_iff, arith, Bool-cases,
}
use pure_reactive_protocol.Failure.{Result, ok, err, Failure}
use pure_reactive_protocol.Texts.{contains, without}
use pure_reactive_protocol.Core.Attributes.{TextCodec}
use pure_reactive_protocol.Profile.Rpc.{validate_target}
use pure_reactive_protocol.Profile.Rpc.Serve.{RpcHandlers, find_handlers}

-- `delete` of a map of handlers.
unfoldable pub delete_handlers {ℓ} :
    {Value : Type ℓ}
    → List (List ℕ × RpcHandlers Value)
    → List ℕ
    → List (List ℕ × RpcHandlers Value)
delete_handlers [] target = []
delete_handlers ((other, handlers) ∷ rest) target =
    let kept = delete_handlers rest target in
    if text_eq other target then kept else (other, handlers) ∷ kept

-- The session's handlers, which all its peers share, and the targets that this one owns.
pub record RpcPeer {ℓ} (Value : Type ℓ) : Type ℓ where
  pub handlers : List (List ℕ × RpcHandlers Value)
  pub owned_targets : List (List ℕ)

pub data RegistryCall {ℓ} (Value : Type ℓ) : Type ℓ where
  register : List ℕ → RpcHandlers Value → RegistryCall Value
  unregister : List ℕ → RegistryCall Value

abbrev add_target : List (List ℕ) → List ℕ → List (List ℕ)
add_target targets target = target ∷ without target targets

abbrev pub registered {ℓ} :
    {Value : Type ℓ}
    → Result (Unit {0})
    → List ℕ
    → RpcHandlers Value
    → RpcPeer Value
    → RpcPeer Value
registered (err failure) target handlers peer = peer
registered (ok valid) target handlers peer = record {
  handlers = (target, handlers) ∷ delete_handlers peer.handlers target;
  owned_targets = add_target peer.owned_targets target;
}

module _ {ℓ} {Value : Type ℓ} (codec : TextCodec) where
  -- A `register` that throws changes nothing.
  unfoldable pub run_call : RegistryCall Value → RpcPeer Value → RpcPeer Value
  run_call (register target handlers) peer =
      registered (validate_target codec target) target handlers peer
  run_call (unregister target) peer =
      if contains peer.owned_targets target
      then record {
        handlers = delete_handlers peer.handlers target;
        owned_targets = without target peer.owned_targets;
      }
      else peer

  unfoldable pub run_registry : List (RegistryCall Value) → RpcPeer Value → RpcPeer Value
  run_registry [] peer = peer
  run_registry (call ∷ rest) peer = run_registry rest (run_call call peer)

unfoldable pub delete_owned {ℓ} :
    {Value : Type ℓ}
    → List (List ℕ × RpcHandlers Value)
    → List (List ℕ)
    → List (List ℕ × RpcHandlers Value)
delete_owned table [] = table
delete_owned table (target ∷ rest) = delete_owned (delete_handlers table target) rest

unfoldable pub dispose_peer {ℓ} : {Value : Type ℓ} → RpcPeer Value → RpcPeer Value
dispose_peer peer = record {
  handlers = delete_owned peer.handlers peer.owned_targets;
  owned_targets = [];
}

-- A peer that the constructor returns, over the session's handlers.
abbrev pub new_peer {ℓ} : {Value : Type ℓ} → List (List ℕ × RpcHandlers Value) → RpcPeer Value
new_peer table = record { handlers = table; owned_targets = [] }
