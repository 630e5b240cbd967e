-- ===== src/Commerce/Normalised.antt =====
-- `parse_fresh_validation_request` accepts only well-formed requests, and accepts its own result.
use vouchspec.Base.{
  ℕ, ◌≤◌, ◌&&◌, ◌≡◌, String, Bool, true, Option, none, some, arith, leb, Bool-cases, inl, inr,
}
use vouchspec.Errors.{chains, Error, Result, ok, ◌>>=◌}
use vouchspec.Errors.Ensures.{
  Ensures, Ensures-bind, Ensures-ok, Ensures-err, Ensures-require, Ensures-or_raise,
}
use vouchspec.Text.{codes, is_owner, is_repository, is_commit, is_delivery_id}
use vouchspec.Json.{Json, Fields, at_bounded, get, as_bounded}
use vouchspec.Commerce.Request.{
  Request, request_json, exact_object, text_matching, is_skill_path, parse_fresh_validation_request,
}

-- What the patterns and bounds of commerce.py say of a request.
pub record IsWellFormed (r : Request) : Type 0 where
  pub owner : is_owner r.owner ≡ true
  pub repository : is_repository (codes r.repository) ≡ true
  pub commit : is_commit r.commit ≡ true
  pub skill_path : is_skill_path r.skill_path ≡ true
  pub max_amount : r.max_amount ≤ 1_000_000
  pub delivery_id : is_delivery_id r.delivery_id ≡ true

Ensures-text_matching {κ} :
    {A : Type 0} {P : A → Type κ} (p : String → Bool) (e : Error) (o : Option String)
    (f : String → Result A)
    → ((s : String) → p s ≡ true → Ensures P (f s))
    → Ensures P (text_matching p e o >>= f)
unfolding text_matching chains
Ensures-text_matching p e none f h = Ensures-err e
Ensures-text_matching p e (some s) f h = elim (Bool-cases (p s)) [
  | inl good ↦ rw good (h s good)
  | inr bad ↦ rw bad (Ensures-err e)
]

as_bounded-le : (low high : ℕ) (j : Json) (n : ℕ) → as_bounded low high j ≡ some n → n ≤ high
as_bounded-le low high j n h = ground arith

at_bounded-le :
    (k : String) (low high : ℕ) (fs : Fields) (n : ℕ) → at_bounded k low high fs ≡ some n → n ≤ high
at_bounded-le k low high fs n h = go (get k fs) h
  where
    go :
        (o : Option Json)
        → (elim o [ none ↦ none | some j ↦ as_bounded low high j ]) ≡ some n
        → n ≤ high
    go none e = cc
    go (some j) e = as_bounded-le low high j n e

parse-Ensures : (j : Json) → Ensures IsWellFormed (parse_fresh_validation_request j)
unfolding parse_fresh_validation_request
parse-Ensures j = Ensures-bind λ request _. Ensures-require _ _ _ λ _. Ensures-require _ _ _ λ _.
    Ensures-require _ _ _ λ _. Ensures-bind λ source _. Ensures-require _ _ _ λ _.
      Ensures-text_matching _ _ _ _ λ owner h1. Ensures-text_matching _ _ _ _ λ repository h2.
        Ensures-text_matching _ _ _ _ λ commit h3. Ensures-bind λ maximum _.
          Ensures-require _ _ _ λ _. Ensures-or_raise _ _ _ λ amount h4.
            Ensures-text_matching _ _ _ _ λ delivery_id h5.
              Ensures-text_matching _ _ _ _ λ skill_path h6. Ensures-ok _ (record {
                owner = h1;
                repository = h2;
                commit = h3;
                skill_path = h6;
                max_amount = at_bounded-le "amount_minor" 0 1_000_000 maximum amount h4;
                delivery_id = h5;
              })

pub parse-IsWellFormed :
    (j : Json) (r : Request) → parse_fresh_validation_request j ≡ ok r → IsWellFormed r
parse-IsWellFormed j r h = (parse-Ensures j).result r h

in_range : (n : ℕ) → n ≤ 1_000_000 → (leb 0 n && leb n 1_000_000) ≡ true
in_range n h = ground arith

-- A well-formed request is accepted as it is.
pub parse-request_json :
    (r : Request) → IsWellFormed r → parse_fresh_validation_request (request_json r) ≡ ok r
unfolding parse_fresh_validation_request request_json chains exact_object text_matching
parse-request_json r w = simp (
  w.owner,
  w.repository,
  w.commit,
  w.skill_path,
  w.delivery_id,
  in_range r.max_amount w.max_amount,
)

-- A request that is accepted is well-formed, and the normalised request is accepted in its turn,
-- with the same result: `create_quote` parses twice.
pub parse_normalised :
    (j : Json) (r : Request)
    → parse_fresh_validation_request j ≡ ok r
    → IsWellFormed r × (parse_fresh_validation_request (request_json r) ≡ ok r)
parse_normalised j r h = (parse-IsWellFormed j r h, parse-request_json r (parse-IsWellFormed j r h))
