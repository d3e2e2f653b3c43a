-- ===== src/Core/Session/Table.antt =====
-- The map of streams by id, and sums over its values.
use pure_reactive_protocol.Prelude.{
  ℕ, ◌+◌, ◌≡◌, refl, Option, none, some, List, [], ◌∷◌, All, ◌==◌, if◌then◌else◌, arith, subst,
  Bool-cases, inl, inr,
}
use pure_reactive_protocol.Core.Session.State.{StreamState}

-- `streams.get(id)`.
unfoldable pub find_stream : ℕ → List StreamState → Option StreamState
find_stream id [] = none
find_stream id (st ∷ rest) = if st.id == id then some st else find_stream id rest

-- `streams.delete(id)`.
unfoldable pub remove_stream : ℕ → List StreamState → List StreamState
remove_stream id [] = []
remove_stream id (st ∷ rest) = if st.id == id then rest else st ∷ remove_stream id rest

-- `streams.set(st.id, st)`; also what the code does by writing to a field of the stream.
unfoldable pub put_stream : StreamState → List StreamState → List StreamState
put_stream st [] = st ∷ []
put_stream st (old ∷ rest) = if old.id == st.id then st ∷ rest else old ∷ put_stream st rest

abbrev pub sum_of : (StreamState → ℕ) → List StreamState → ℕ
sum_of f [] = 0
sum_of f (st ∷ rest) = f st + sum_of f rest

-- A stream that was written is found again.
pub find-put :
    (st : StreamState) (l : List StreamState) → find_stream st.id (put_stream st l) ≡ some st
unfolding find_stream put_stream
find-put st [] = ground arith
find-put st (x ∷ l) = ground (arith, find-put st l)

-- Of two writes of one stream the second stays.
pub put-put :
    (a b : StreamState) (l : List StreamState)
    → a.id ≡ b.id
    → put_stream a (put_stream b l) ≡ put_stream a l
unfolding put_stream
put-put a b [] h = ground arith
put-put a b (x ∷ l) h = ground (arith, put-put a b l)

module _ (f : StreamState → ℕ) where
  pub sum_of-remove :
      (id : ℕ) (l : List StreamState) (st : StreamState)
      → find_stream id l ≡ some st
      → sum_of f l ≡ f st + sum_of f (remove_stream id l)
  unfolding find_stream remove_stream
  sum_of-remove id [] st h = ground arith
  sum_of-remove id (x ∷ l) st h = ground (arith, sum_of-remove id l st)

  pub sum_of-put :
      (l : List StreamState) (new old : StreamState)
      → find_stream new.id l ≡ some old
      → sum_of f (put_stream new l) + f old ≡ f new + sum_of f l
  unfolding find_stream put_stream
  sum_of-put [] new old h = ground arith
  sum_of-put (x ∷ l) new old h = ground (arith, sum_of-put l new old)

  pub sum_of-put_new :
      (l : List StreamState) (new : StreamState)
      → find_stream new.id l ≡ none
      → sum_of f (put_stream new l) ≡ f new + sum_of f l
  unfolding find_stream put_stream
  sum_of-put_new [] new h = refl
  sum_of-put_new (x ∷ l) new h = ground (arith, sum_of-put_new l new)

module _ (P : StreamState → Type 0) where
  pub All-find :
      (id : ℕ) (l : List StreamState) (st : StreamState)
      → find_stream id l ≡ some st
      → All P l
      → (st.id ≡ id) × P st
  unfolding find_stream
  All-find id [] st h a = cc
  All-find id (x ∷ l) st h a = elim (Bool-cases (x.id == id)) [
    | inl hit ↦ let same : x ≡ st = ground arith in (ground arith, subst P same a.0)
    | inr miss ↦ All-find id l st (rw (miss, find_stream) at h) a.1
  ]

  pub All-remove : (id : ℕ) (l : List StreamState) → All P l → All P (remove_stream id l)
  unfolding remove_stream
  All-remove id [] a = tt
  All-remove id (x ∷ l) a = elim (Bool-cases (x.id == id)) [
    | inl hit ↦ rw hit a.1
    | inr miss ↦ rw miss (a.0, All-remove id l a.1)
  ]

  pub All-put :
      (new : StreamState) (l : List StreamState) → P new → All P l → All P (put_stream new l)
  unfolding put_stream
  All-put new [] p a = (p, tt)
  All-put new (x ∷ l) p a = elim (Bool-cases (x.id == new.id)) [
    | inl hit ↦ rw hit (p, a.1)
    | inr miss ↦ rw miss (a.0, All-put new l p a.1)
  ]
