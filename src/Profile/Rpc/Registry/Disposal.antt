-- ===== src/Profile/Rpc/Registry/Disposal.antt =====
-- What a disposed peer leaves of the handlers.
use pure_reactive_protocol.Prelude.{
  ℕ, ◌≡◌, refl, ap, subst, ◌∙◌, ◌⊎◌, inl, inr, true, false, none, List, [], ◌∷◌, if◌then◌else◌,
  text_eq, text_eq_iff, arith, Bool-cases,
}
use pure_reactive_protocol.Failure.{Result, ok, err}
use pure_reactive_protocol.Texts.{contains, without}
use pure_reactive_protocol.Texts.Members.{contains-without_other}
use pure_reactive_protocol.Core.Attributes.{TextCodec}
use pure_reactive_protocol.Profile.Rpc.{validate_target}
use pure_reactive_protocol.Profile.Rpc.Serve.{RpcHandlers, find_handlers}
use pure_reactive_protocol.Profile.Rpc.Registry.{
  RpcPeer, RegistryCall, register, unregister, registered, delete_handlers, run_call, run_registry,
  delete_owned, dispose_peer, new_peer,
}

-- The handlers of a deleted target are gone, and no others.
find-delete_same {ℓ} :
    {Value : Type ℓ} (table : List (List ℕ × RpcHandlers Value)) (target : List ℕ)
    → find_handlers (delete_handlers table target) target ≡ none
unfolding find_handlers delete_handlers
find-delete_same [] target = refl
find-delete_same ((other, handlers) ∷ rest) target = elim (Bool-cases (text_eq other target)) [
  | inl same ↦ rw same (find-delete_same rest target)
  | inr differs ↦ rw (differs, differs) (find-delete_same rest target)
]

find-delete_other {ℓ} :
    {Value : Type ℓ} (table : List (List ℕ × RpcHandlers Value)) (target id : List ℕ)
    → text_eq target id ≡ false
    → find_handlers (delete_handlers table target) id ≡ find_handlers table id
unfolding find_handlers delete_handlers
find-delete_other [] target id h = refl
find-delete_other ((other, handlers) ∷ rest) target id h =
    elim (Bool-cases (text_eq other target)) [
      | inl same ↦
          let differs : text_eq other id ≡ false =
            ap (λ t. text_eq t id) ((text_eq_iff other target).0 same) ∙ h in
          rw (same, differs) (find-delete_other rest target id h)
      | inr differs ↦ rw (differs, find-delete_other rest target id h) refl
    ]

find-delete_owned_absent {ℓ} :
    {Value : Type ℓ} (table : List (List ℕ × RpcHandlers Value)) (owned : List (List ℕ))
    (id : List ℕ)
    → find_handlers table id ≡ none
    → find_handlers (delete_owned table owned) id ≡ none
unfolding delete_owned
find-delete_owned_absent table [] id h = h
find-delete_owned_absent table (target ∷ rest) id h =
    find-delete_owned_absent (delete_handlers table target) rest id
      (elim (Bool-cases (text_eq target id)) [
        | inl same ↦
            subst (λ t. find_handlers (delete_handlers table target) t ≡ none)
              ((text_eq_iff target id).0 same) (find-delete_same table target)
        | inr differs ↦ find-delete_other table target id differs ∙ h
      ])

find-delete_owned {ℓ} :
    {Value : Type ℓ} (table : List (List ℕ × RpcHandlers Value)) (owned : List (List ℕ))
    (id : List ℕ)
    → find_handlers (delete_owned table owned) id
      ≡ (if contains owned id then none else find_handlers table id)
unfolding delete_owned contains
find-delete_owned table [] id = refl
find-delete_owned table (target ∷ rest) id = elim (Bool-cases (text_eq target id)) [
  | inl same ↦
      let gone =
        subst (λ t. find_handlers (delete_handlers table target) t ≡ none)
          ((text_eq_iff target id).0 same) (find-delete_same table target) in
      rw same (find-delete_owned_absent (delete_handlers table target) rest id gone)
  | inr differs ↦ rw differs (
      subst
        (λ f.
          find_handlers (delete_owned (delete_handlers table target) rest) id
          ≡ (if contains rest id then none else f))
        (find-delete_other table target id differs)
        (find-delete_owned (delete_handlers table target) rest id))
]

-- The handlers of a target are what they were before the peer, or none, or the peer owns them.
abbrev IsAccounted {ℓ} :
    {Value : Type ℓ} → List (List ℕ × RpcHandlers Value) → RpcPeer Value → List ℕ → Type ℓ
IsAccounted table peer id =
    (find_handlers peer.handlers id ≡ find_handlers table id)
    ⊎ ((find_handlers peer.handlers id ≡ none) ⊎ (contains peer.owned_targets id ≡ true))

-- Deleting a target keeps what holds of the others.
IsAccounted-other {ℓ} :
    {Value : Type ℓ} (table : List (List ℕ × RpcHandlers Value)) (peer peer' : RpcPeer Value)
    (id : List ℕ)
    → find_handlers peer'.handlers id ≡ find_handlers peer.handlers id
    → contains peer'.owned_targets id ≡ contains peer.owned_targets id
    → IsAccounted table peer id
    → IsAccounted table peer' id
IsAccounted-other table peer peer' id same same' (inl before) = inl (same ∙ before)
IsAccounted-other table peer peer' id same same' (inr (inl gone)) = inr (inl (same ∙ gone))
IsAccounted-other table peer peer' id same same' (inr (inr own)) = inr (inr (same' ∙ own))

registered-IsAccounted {ℓ} :
    {Value : Type ℓ} (table : List (List ℕ × RpcHandlers Value)) (valid : Result (Unit {0}))
    (target : List ℕ) (handlers : RpcHandlers Value) (peer : RpcPeer Value) (id : List ℕ)
    → IsAccounted table peer id
    → IsAccounted table (registered valid target handlers peer) id
unfolding find_handlers contains
registered-IsAccounted table (err failure) target handlers peer id a = a
registered-IsAccounted table (ok valid) target handlers peer id a =
    elim (Bool-cases (text_eq target id)) [
      | inl same ↦ inr (inr (rw same refl))
      | inr differs ↦
          IsAccounted-other table peer (registered (ok valid) target handlers peer) id
            (rw differs (find-delete_other peer.handlers target id differs))
            (rw differs (contains-without_other target id peer.owned_targets differs)) a
    ]

run_call-IsAccounted {ℓ} :
    {Value : Type ℓ} (codec : TextCodec) (table : List (List ℕ × RpcHandlers Value))
    (call : RegistryCall Value) (peer : RpcPeer Value) (id : List ℕ)
    → IsAccounted table peer id
    → IsAccounted table (run_call codec call peer) id
unfolding run_call
run_call-IsAccounted codec table (register target handlers) peer id a =
    registered-IsAccounted table (validate_target codec target) target handlers peer id a
run_call-IsAccounted codec table (unregister target) peer id a =
    elim (Bool-cases (contains peer.owned_targets target)) [
      | inr foreign ↦ rw foreign a
      | inl own ↦ rw own (elim (Bool-cases (text_eq target id)) [
        | inl same ↦ inr (
            inl (
              subst (λ t. find_handlers (delete_handlers peer.handlers target) t ≡ none)
                ((text_eq_iff target id).0 same) (find-delete_same peer.handlers target)))
        | inr differs ↦
            IsAccounted-other table peer
              (record {
                handlers = delete_handlers peer.handlers target;
                owned_targets = without target peer.owned_targets;
              })
              id (find-delete_other peer.handlers target id differs)
              (contains-without_other target id peer.owned_targets differs) a
      ])
    ]

run_registry-IsAccounted {ℓ} :
    {Value : Type ℓ} (codec : TextCodec) (table : List (List ℕ × RpcHandlers Value))
    (calls : List (RegistryCall Value)) (peer : RpcPeer Value) (id : List ℕ)
    → IsAccounted table peer id
    → IsAccounted table (run_registry codec calls peer) id
unfolding run_registry
run_registry-IsAccounted codec table [] peer id a = a
run_registry-IsAccounted codec table (call ∷ rest) peer id a =
    run_registry-IsAccounted codec table rest (run_call codec call peer) id
      (run_call-IsAccounted codec table call peer id a)

dispose-IsAccounted {ℓ} :
    {Value : Type ℓ} (table : List (List ℕ × RpcHandlers Value)) (peer : RpcPeer Value)
    (id : List ℕ)
    → IsAccounted table peer id
    → (find_handlers (dispose_peer peer).handlers id ≡ find_handlers table id)
      ⊎ (find_handlers (dispose_peer peer).handlers id ≡ none)
unfolding dispose_peer
dispose-IsAccounted table peer id a =
    let found = find-delete_owned peer.handlers peer.owned_targets id in
    elim (Bool-cases (contains peer.owned_targets id)) [
      | inl own ↦ inr (rw own at found)
      | inr foreign ↦
          let found' : find_handlers (delete_owned peer.handlers peer.owned_targets) id
              ≡ find_handlers peer.handlers id =
            rw foreign at found in
          elim a [
            | inl before ↦ inl (found' ∙ before)
            | inr (inl gone) ↦ inr (found' ∙ gone)
            | inr (inr own) ↦ ground arith
          ]
    ]

-- Whatever a new peer of a session registers and unregisters, with or without success, when it is
-- disposed no handler of its own is left: each target has the handlers that it had before the
-- peer, or none.
pub dispose_peer-run_registry {ℓ} :
    {Value : Type ℓ} (codec : TextCodec) (table : List (List ℕ × RpcHandlers Value))
    (calls : List (RegistryCall Value)) (id : List ℕ)
    → (find_handlers (dispose_peer (run_registry codec calls (new_peer table))).handlers id
        ≡ find_handlers table id)
      ⊎ (find_handlers (dispose_peer (run_registry codec calls (new_peer table))).handlers id
          ≡ none)
dispose_peer-run_registry codec table calls id =
    dispose-IsAccounted table (run_registry codec calls (new_peer table)) id
      (run_registry-IsAccounted codec table calls (new_peer table) id (inl refl))
