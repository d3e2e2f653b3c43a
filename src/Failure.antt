-- ===== src/Failure.antt =====
-- src/core/errors.ts: the classes of failure that the code throws. Messages are not kept.
use pure_reactive_protocol.Prelude.{ℕ, List, ◌⊎◌, inl, inr, ◌≡◌, refl, Bool, true, false}

-- `RangeError` and `TypeError` are the language's; the others are subclasses of
-- `PureReactiveProtocolError`, told apart by their `code`;
-- `coded` is that class itself with the code given, and `plain_error` an `Error` of no class.
pub data Failure : Type 0 where
  range_error type_error : Failure
  protocol_violation capability_mismatch connection_lost liveness_timeout stream_closed : Failure
  plain_error : Failure
  coded : List ℕ → Failure

pub data Result {ℓ} (A : Type ℓ) : Type ℓ where
  ok : A → Result A
  err : Failure → Result A

-- A throw ends what follows; a value is passed on.
infixl 5 ◌>>=◌ ◌>>◌
abbrev pub ◌>>=◌ {ℓ ℓ'} :
    {Before : Type ℓ} {After : Type ℓ'} → Result Before → (Before → Result After) → Result After
err thrown >>= next = err thrown
ok value >>= next = next value

-- `if (test) throw new …`.
abbrev pub throw_if : Bool → Failure → Result (Unit {0})
throw_if false failure = ok tt
throw_if true failure = err failure

-- A check in front of what follows.
abbrev pub ◌>>◌ {ℓ} : {After : Type ℓ} → Result (Unit {0}) → Result After → Result After
check >> rest = check >>= λ passed. rest

pub >>=-eq-ok {ℓ ℓ'} :
    {Before : Type ℓ} {After : Type ℓ'} (first : Result Before) (next : Before → Result After)
    {result : After}
    → (first >>= next) ≡ ok result
    → (value : Before) × (first ≡ ok value) × (next value ≡ ok result)
>>=-eq-ok (err thrown) next h = cc
>>=-eq-ok (ok value) next h = (value, refl, h)

pub Result-cases {ℓ} :
    {A : Type ℓ} (r : Result A) → ((e : Failure) × (r ≡ err e)) ⊎ ((a : A) × (r ≡ ok a))
Result-cases (ok a) = inr (a, refl)
Result-cases (err e) = inl (e, refl)

pub from_ok {ℓ} : {A : Type ℓ} {x y : A} → ok x ≡ ok y → x ≡ y
from_ok e = cc
