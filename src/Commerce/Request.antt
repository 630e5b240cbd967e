-- ===== src/Commerce/Request.antt =====
-- `_exact_object`, `_validate_skill_path` and `parse_fresh_validation_request` of commerce.py, and
-- the normalised request that the latter returns, written as JSON by `request_json`.
use vouchspec.Base.{
  ℕ, ◌+◌, String, Bool, true, false, not, ◌&&◌, ◌||◌, Option, none, some, List, [], ◌∷◌, ◌++◌, leb,
  ltb, eqb, if◌then◌else◌,
}
use vouchspec.Base.Lists.{length, all, any, keep}
use vouchspec.Base.Int.{pos}
use vouchspec.Errors.{
  Error, Result, ok, err, ◌>>=◌, ◌>>◌, require, or_raise, invalid_commerce_request,
  unsupported_source_host, mutable_source_reference,
}
use vouchspec.Text.{codes, is_owner, is_repository, is_commit, is_delivery_id}
use vouchspec.Json.{
  Json, int, text, object, Fields, end, field, get, has_exactly, as_object, at_text, at_is_text,
  at_bounded,
}

-- The length in bytes of `value.encode("utf-8")`.
abbrev utf8_length : List ℕ → ℕ
utf8_length [] = 0
utf8_length (c ∷ cs) =
    (if ltb c 0x80 then 1 else if ltb c 0x800 then 2 else if ltb c 0x10000 then 3 else 4)
    + utf8_length cs

abbrev add_to_first : ℕ → List (List ℕ) → List (List ℕ)
add_to_first c [] = (c ∷ []) ∷ []
add_to_first c (s ∷ ss) = (c ∷ s) ∷ ss

-- `value.split("/")`
pub split_slash : List ℕ → List (List ℕ)
split_slash [] = [] ∷ []
split_slash (c ∷ cs) =
    let rest = split_slash cs in if eqb c b'/' then [] ∷ rest else add_to_first c rest

abbrev join_slash : List (List ℕ) → List ℕ
join_slash [] = []
join_slash (s ∷ []) = s
join_slash (s ∷ t ∷ ss) = s ++ (b'/' ∷ join_slash (t ∷ ss))

abbrev same_codes : List ℕ → List ℕ → Bool
same_codes [] [] = true
same_codes (c ∷ cs) (d ∷ ds) = eqb c d && same_codes cs ds
same_codes _ _ = false

abbrev is_dots : List ℕ → Bool
is_dots s = same_codes s [] || same_codes s (b'.' ∷ []) || same_codes s (b'.' ∷ b'.' ∷ [])

-- `PurePosixPath(value).parts` of a relative path: empty and `.` segments are dropped.
abbrev path_parts : List ℕ → List (List ℕ)
path_parts cs = keep (λ s. not (same_codes s [] || same_codes s (b'.' ∷ []))) (split_slash cs)

-- `PurePosixPath(value).as_posix()`
abbrev as_posix : List (List ℕ) → List ℕ
as_posix [] = b'.' ∷ []
as_posix (s ∷ ss) = join_slash (s ∷ ss)

abbrev starts_with_slash : List ℕ → Bool
starts_with_slash [] = false
starts_with_slash (c ∷ cs) = eqb c b'/'

-- The tests of `_validate_skill_path`; the path that it returns is then the one that it was given.
unfoldable pub is_skill_path : String → Bool
unfolding split_slash
is_skill_path value =
    let cs = codes value in
    let parts = path_parts cs in
    not (same_codes cs [])
    && leb (utf8_length cs) 1_024
    && not (any (λ c. eqb c 0x5c || eqb c b':') cs || starts_with_slash cs)
    && same_codes cs (as_posix parts)
    && leb 1 (length parts)
    && leb (length parts) 32
    && not (any is_dots parts)
    && all is_repository parts

pub record Request : Type 0 where
  pub owner : String
  pub repository : String
  pub commit : String
  pub skill_path : String
  pub max_amount : ℕ
  pub delivery_id : String

-- The dictionary that `parse_fresh_validation_request` returns.
unfoldable pub request_json : Request → Json
request_json r = object (
    field "schema_version" (text "1.0.0") (
      field "operation" (text "fresh_public_static_validation") (
        field "source"
          (object (
            field "host" (text "github.com") (
              field "owner" (text r.owner) (
                field "repository" (text r.repository)
                  (field "commit" (text r.commit) (field "skill_path" (text r.skill_path) end))))))
          (field "profile" (text "vouchspec-public-static-v1") (
            field "max_price"
              (object
                (field "currency" (text "usd") (field "amount_minor" (int (pos r.max_amount)) end)))
              (field "delivery_id" (text r.delivery_id) end))))))

-- `_exact_object`
unfoldable pub exact_object : List String → Option Json → Result Fields
exact_object names none = err invalid_commerce_request
exact_object names (some value) = do
  fs ← or_raise (as_object value) invalid_commerce_request
  require (has_exactly names fs) invalid_commerce_request
  ok fs

-- `isinstance(value, str)` and the pattern.
unfoldable pub text_matching : (String → Bool) → Error → Option String → Result String
text_matching p e none = err e
text_matching p e (some s) = if p s then ok s else err e

abbrev request_keys : List String
request_keys =
    "schema_version" ∷ "operation" ∷ "source" ∷ "profile" ∷ "max_price" ∷ "delivery_id" ∷ []

abbrev source_keys : List String
source_keys = "host" ∷ "owner" ∷ "repository" ∷ "commit" ∷ "skill_path" ∷ []

unfoldable pub parse_fresh_validation_request : Json → Result Request
parse_fresh_validation_request value = do
  request ← exact_object request_keys (some value)
  require (at_is_text "schema_version" "1.0.0" request) invalid_commerce_request
  require (at_is_text "operation" "fresh_public_static_validation" request) invalid_commerce_request
  require (at_is_text "profile" "vouchspec-public-static-v1" request) invalid_commerce_request
  source ← exact_object source_keys (get "source" request)
  require (at_is_text "host" "github.com" source) unsupported_source_host
  owner ← text_matching is_owner invalid_commerce_request (at_text "owner" source)
  repository ←
      text_matching (λ s. is_repository (codes s)) invalid_commerce_request
        (at_text "repository" source)
  commit ← text_matching is_commit mutable_source_reference (at_text "commit" source)
  maximum ← exact_object ("currency" ∷ "amount_minor" ∷ []) (get "max_price" request)
  require (at_is_text "currency" "usd" maximum) invalid_commerce_request
  amount ← or_raise (at_bounded "amount_minor" 0 1_000_000 maximum) invalid_commerce_request
  delivery_id ←
      text_matching is_delivery_id invalid_commerce_request (at_text "delivery_id" request)
  skill_path ← text_matching is_skill_path invalid_commerce_request (at_text "skill_path" source)
  ok (record {
    owner = owner;
    repository = repository;
    commit = commit;
    skill_path = skill_path;
    max_amount = amount;
    delivery_id = delivery_id;
  })
