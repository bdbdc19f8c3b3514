-- ===== src/Core/Queue/Balance.antt =====
-- The packets that the operations of the abstract queue move, as a caller knows them.
use ludlc.Prelude.{
  ℕ, zero, suc, ◌≡◌, refl, ◌∙◌, ap, Bool, true, false, ◌&&◌, Option, none, some, List, [], ◌∷◌,
  ◌++◌, map, take, drop, leb, arith, Bool-cases, inl, inr, All,
}
use ludlc.Core.State.{Errno, success}
use ludlc.Core.Queue.{Request, Outcome, Queue, resolve, resolve_many, lose_request, nak, HasTtl}
use ludlc.Core.Queue.HandleAck.{acknowledge}

-- What a caller knows a packet by.
pub record Parcel : Type 0 where
  pub payload : ℕ
  pub size : ℕ
  pub chan : ℕ

abbrev pub of_request : Request → Parcel
of_request r = record { payload = r.payload; size = r.size; chan = r.chan }

abbrev pub of_outcome : Outcome → Parcel
of_outcome o = record { payload = o.payload; size = o.size; chan = o.chan }

abbrev pub of_lost : Option Outcome → List Parcel
of_lost none = []
of_lost (some o) = of_outcome o ∷ []

-- The packets of a queue: resolved, then one given up, then requested.
abbrev pub parcels : Queue × Option Outcome → List Parcel
parcels (q, lost) = map of_outcome q.outcomes ++ (of_lost lost ++ map of_request q.requests)

pub resolved-parcels :
    (e : Errno) (rs : List Request) → map of_outcome (map (resolve e) rs) ≡ map of_request rs
resolved-parcels e [] = refl
resolved-parcels e (r ∷ rs) = ap (λ ps. of_request r ∷ ps) (resolved-parcels e rs)

take-drop-parcels :
    (n : ℕ) (rs : List Request)
    → map of_request (take n rs) ++ map of_request (drop n rs) ≡ map of_request rs
take-drop-parcels zero rs = refl
take-drop-parcels (suc n) [] = refl
take-drop-parcels (suc n) (r ∷ rs) = ap (λ ps. of_request r ∷ ps) (take-drop-parcels n rs)

lose_request-parcels :
    (rs : List Request)
    → of_lost (lose_request rs).1 ++ map of_request (lose_request rs).0 ≡ map of_request rs
lose_request-parcels [] = refl
lose_request-parcels (r ∷ rs) = elim (Bool-cases (leb r.ttl 1)) [
  | inl e ↦ rw e refl
  | inr e ↦ rw e refl
]

nak-parcels : (b : Bool) (q : Queue) → parcels (nak b q) ≡ parcels (q, none)
nak-parcels true q = ap (λ ps. map of_outcome q.outcomes ++ ps) (lose_request-parcels q.requests)
nak-parcels false q = refl

resolve_many-parcels :
    (e : Errno) (n : ℕ) (rs : List Request)
    → parcels (resolve_many e n (record { outcomes = []; requests = rs }), none) ≡ map of_request rs
resolve_many-parcels e n rs =
    ap (λ ps. ps ++ map of_request (drop n rs)) (resolved-parcels e (take n rs))
    ∙ take-drop-parcels n rs

-- An acknowledgment, on a queue with nothing left to report.
pub acknowledge-parcels :
    (n : ℕ) (is_nak owed : Bool) (rs : List Request)
    → parcels (acknowledge n is_nak owed (record { outcomes = []; requests = rs }))
      ≡ map of_request rs
acknowledge-parcels n is_nak owed rs =
    nak-parcels (is_nak && owed) (resolve_many success n (record { outcomes = []; requests = rs }))
    ∙ resolve_many-parcels success n rs

lose_request-HasTtl : (rs : List Request) → All HasTtl rs → All HasTtl (lose_request rs).0
lose_request-HasTtl [] h = h
lose_request-HasTtl (r ∷ rs) h = elim (Bool-cases (leb r.ttl 1)) [
  | inl e ↦ rw e h.1
  | inr e ↦ rw e ((ground (arith, e, h.0.0), ground (arith, h.0.1)), h.1)
]

pub nak-HasTtl : (b : Bool) (q : Queue) → All HasTtl q.requests → All HasTtl (nak b q).0.requests
nak-HasTtl true q h = lose_request-HasTtl q.requests h
nak-HasTtl false q h = h
