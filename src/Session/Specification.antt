-- ===== src/Session/Specification.antt =====
-- What the pipelining of src/c++/systemicai/http/server/sessions.hpp promises, with no operation or
-- queue of the code: requests are accepted as long as fewer than 8 answers are pending, and the
-- oldest pending answer is delivered first.
use advanced_flex_server.Common.{
  ℕ, ◌≤◌, ◌<◌, Bool, true, false, List, [], ◌∷◌, ◌++◌, Option, some, map, ◌≡◌, refl, ◌∙◌, length,
  length-append, arith, ap, map-append,
}
use advanced_flex_server.Handler.{Request, Response}
use advanced_flex_server.Session.Flow.{answers-send, regroup}

-- `accepting`: whether more requests can come; `writing`: whether more answers can be delivered.
pub record Pipeline : Type 0 where
  pub accepted : List Request
  pub pending : List Response
  pub delivered : List Response
  pub accepting : Bool
  pub writing : Bool

-- The most answers that are pending.
abbrev pub capacity : ℕ
capacity = 8

abbrev pub with_answer : Request → Response → Pipeline → Pipeline
with_answer req res p = record p {
  accepted = p.accepted ++ req ∷ [];
  pending = p.pending ++ res ∷ [];
}

abbrev pub closed_off : Pipeline → Pipeline
closed_off p = record p { accepting = false }

abbrev pub without_first : Response → List Response → Pipeline → Pipeline
without_first res rest p = record p { pending = rest; delivered = p.delivered ++ res ∷ [] }

abbrev pub broken_off : Pipeline → Pipeline
broken_off p = record p { writing = false }

pub data Step (respond : Request → Option Response) (closes : Response → Bool) (p : Pipeline)
    : Pipeline → Type 0 where
  -- A request comes, and its answer is pending behind the others.
  accept :
      (req : Request) (res : Response)
      → p.accepting ≡ true
      → req.is_upgrade ≡ false
      → respond req ≡ some res
      → length p.pending < capacity
      → Step respond closes p (with_answer req res p)
  -- No more requests come.
  stop_accepting :
      p.accepting ≡ true → length p.pending < capacity → Step respond closes p (closed_off p)
  -- The oldest answer is delivered.
  deliver_next :
      (res : Response) (rest : List Response)
      → p.writing ≡ true
      → closes res ≡ false
      → p.pending ≡ res ∷ rest
      → Step respond closes p (without_first res rest p)
  -- The oldest answer is delivered, and ends the connection.
  deliver_last :
      (res : Response) (rest : List Response)
      → p.writing ≡ true
      → closes res ≡ true
      → p.pending ≡ res ∷ rest
      → Step respond closes p (broken_off (without_first res rest p))
  -- The oldest answer cannot be delivered.
  break_off :
      (res : Response) (rest : List Response)
      → p.writing ≡ true
      → p.pending ≡ res ∷ rest
      → Step respond closes p (broken_off p)

abbrev pub empty_pipeline : Pipeline
empty_pipeline = record {
  accepted = [];
  pending = [];
  delivered = [];
  accepting = true;
  writing = true;
}

pub data Reach (respond : Request → Option Response) (closes : Response → Bool)
    : Pipeline → Type 0 where
  here : Reach respond closes empty_pipeline
  later :
      {p q : Pipeline} → Reach respond closes p → Step respond closes p q → Reach respond closes q

module _ (respond : Request → Option Response) (closes : Response → Bool) where
  -- Each request is accounted for: its answer has been delivered, or is pending.
  abbrev pub IsComplete : Pipeline → Type 0
  IsComplete p =
      (map respond p.accepted ≡ map some (p.delivered ++ p.pending)) × (length p.pending ≤ capacity)

  -- The oldest pending answer has been delivered.
  delivered_IsComplete :
      (p : Pipeline) (res : Response) (rest : List Response)
      → p.pending ≡ res ∷ rest
      → IsComplete p
      → (map respond p.accepted ≡ map some ((p.delivered ++ res ∷ []) ++ rest))
        × (length rest ≤ capacity)
  delivered_IsComplete p res rest first (all, few) = (
    regroup (map respond p.accepted) p.delivered res rest (rw first at all),
    ground (arith, ap length first),
  )

  Step-IsComplete : (p q : Pipeline) → Step respond closes p q → IsComplete p → IsComplete q
  Step-IsComplete p q (accept req res on plain answered room) (all, few) = (
    map-append respond p.accepted (req ∷ [])
        ∙ rw answered (answers-send (map respond p.accepted) p.delivered p.pending res all),
    rw (length-append p.pending (res ∷ [])) (omega (arith, room)),
  )
  Step-IsComplete p q (stop_accepting on room) v = v
  Step-IsComplete p q (deliver_next res rest on open_ first) v =
      delivered_IsComplete p res rest first v
  Step-IsComplete p q (deliver_last res rest on ends first) v =
      delivered_IsComplete p res rest first v
  Step-IsComplete p q (break_off res rest on first) v = v

  pub Reach-IsComplete : (p : Pipeline) → Reach respond closes p → IsComplete p
  Reach-IsComplete p here = (refl, omega arith)
  Reach-IsComplete p (later {p = q} r s) = Step-IsComplete q p s (Reach-IsComplete q r)
