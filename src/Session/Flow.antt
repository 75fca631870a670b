-- ===== src/Session/Flow.antt =====
-- Responses on their way from the queue of src/c++/systemicai/http/server/sessions.hpp to the peer.
use advanced_flex_server.Common.{
  List, [], ◌∷◌, ◌++◌, map, Option, some, ◌≡◌, ◌≢◌, refl, sym, ◌⊎◌, inl, inr, arith, take,
  append_assoc, map-append,
}
use advanced_flex_server.Handler.{Response}
use advanced_flex_server.Session.Queue.{send_items}

-- The transmitted responses are the first of the answers.
abbrev pub IsPrefixOf : List Response → List (Option Response) → Type 0
IsPrefixOf transmitted answers = (rest : List Response) × (answers ≡ map some (transmitted ++ rest))

-- Either the queue holds all that is still to be written, and its front is being written; or writing
-- is over.
abbrev pub Flow : List (Option Response) → List Response → List Response → List Response → Type 0
Flow answers transmitted items writes =
    ((answers ≡ map some (transmitted ++ items)) × (writes ≡ take 1 items))
    ⊎ ((writes ≡ []) × (items ≢ []) × IsPrefixOf transmitted answers)

module _ (answers : List (Option Response)) (transmitted : List Response) where
  pub answers-send :
      (rest : List Response) (res : Response)
      → answers ≡ map some (transmitted ++ rest)
      → answers ++ some res ∷ [] ≡ map some (transmitted ++ (rest ++ res ∷ []))
  answers-send rest res e =
      rw (e, ← append_assoc transmitted rest (res ∷ []))
        (sym (map-append some (transmitted ++ rest) (res ∷ [])))

  pub Flow-send :
      (items writes : List Response) (res : Response)
      → Flow answers transmitted items writes
      → Flow
          (answers ++ some res ∷ [])
          transmitted
          (items ++ res ∷ [])
          (send_items res items writes)
  unfolding send_items
  Flow-send [] writes res (inl (e, d)) = inl (answers-send [] res e, ground arith)
  Flow-send [] writes res (inr (d, ne, p)) = absurd (ne refl)
  Flow-send (x ∷ xs) writes res (inl (e, d)) = inl (answers-send (x ∷ xs) res e, d)
  Flow-send (x ∷ xs) writes res (inr (d, ne, (rest, e))) =
      inr (d, (λ h. cc), (rest ++ res ∷ [], answers-send rest res e))

  -- A write is outstanding: it is that of the front of the queue, with no other behind it.
  pub Flow-front :
      (items : List Response) (res : Response) (rest : List Response)
      → Flow answers transmitted items (res ∷ rest)
      → (xs : List Response) × (items ≡ res ∷ xs)
        × (rest ≡ [])
        × (answers ≡ map some (transmitted ++ res ∷ xs))
  Flow-front [] res rest (inl (e, d)) = cc
  Flow-front (x ∷ xs) res rest (inl (e, d)) = (xs, ground arith, ground arith, ground arith)
  Flow-front items res rest (inr (d, ne, p)) = cc

  pub regroup :
      (res : Response) (xs : List Response)
      → answers ≡ map some (transmitted ++ res ∷ xs)
      → answers ≡ map some ((transmitted ++ res ∷ []) ++ xs)
  regroup res xs e = rw (append_assoc transmitted (res ∷ []) xs) e
