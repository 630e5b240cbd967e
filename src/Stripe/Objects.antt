-- ===== src/Stripe/Objects.antt =====
-- The readers of Stripe objects in stripe_payments.py: `_parse_time`, `_epoch_time`, `_as_dict`,
-- `_reference_id`, `_bounded_int` and `_metadata`. An SDK object stands as its JSON value.
use vouchspec.Base.{
  is_some, ◌==◌, leb, ◌||◌, ◌&&◌, not, false, true, Bool, none, some, Option, ◌*◌, ◌/◌, String, ℕ,
}
use vouchspec.Platform.{parse_timestamp, Platform}
use vouchspec.Errors.{
  ◌>>◌, ◌>>=◌, value_error, require, invalid_stripe_object, err, or_raise, ok, Result,
}
use vouchspec.Json.{
  bool, null, text, end, field, object, is_hashable, get, as_text, at_text, as_object, Fields,
  as_bounded, Json,
}
use vouchspec.Base.Lists.{length}
use vouchspec.Text.{codes}

-- `_parse_time`
unfoldable pub parse_time : Platform → String → Result ℕ
parse_time p s = do
  require (leb (length (codes s)) 64) invalid_stripe_object
  parse_timestamp p invalid_stripe_object s

-- `int(_parse_time(s).timestamp())`
unfoldable pub epoch_of : Platform → String → Result ℕ
epoch_of p s = do t ← parse_time p s; ok (t / 1_000_000)

-- 4_102_444_800, the first second of the year 2100
abbrev pub last_epoch : ℕ
last_epoch = 4_102_444_800

-- `_bounded_int`
unfoldable pub bounded_int : ℕ → Option Json → Result ℕ
bounded_int maximum none = err invalid_stripe_object
bounded_int maximum (some j) = or_raise (as_bounded 0 maximum j) invalid_stripe_object

-- The default maximum of `_bounded_int`.
abbrev pub largest_amount : ℕ
largest_amount = 10_000_000

-- `_epoch_time`
unfoldable pub epoch_time : Platform → Option Json → Result String
epoch_time p j = do seconds ← bounded_int last_epoch j; ok (p.isoformat (seconds * 1_000_000))

-- `_as_dict`
unfoldable pub as_dict : Option Json → Result Fields
as_dict none = err invalid_stripe_object
as_dict (some j) = or_raise (as_object j) invalid_stripe_object

-- An expanded object stands for its identifier.
abbrev identifier : Option Json → Option String
identifier none = none
identifier (some (object fs)) = at_text "id" fs
identifier (some j) = as_text j

-- `_reference_id`
unfoldable pub reference_id : (String → Bool) → Option Json → Result String
reference_id pattern j = do
  s ← or_raise (identifier j) invalid_stripe_object
  require (pattern s) invalid_stripe_object
  ok s

abbrev all_texts : Fields → Bool
all_texts end = true
all_texts (field k (text s) fs) = all_texts fs
all_texts (field k v fs) = false

-- `_metadata`
unfoldable pub metadata : Option Json → Result Fields
metadata j = do fs ← as_dict j; require (all_texts fs) invalid_stripe_object; ok fs

-- `value.get(key)`, where null and a missing key are both None.
abbrev pub present : String → Fields → Option Json
present k fs = elim (get k fs) [
  | none ↦ none
  | some j ↦ elim j as (λ x. Option Json) [ null ↦ none | _ ↦ some j ]
]

abbrev is_bool : Bool → Json → Bool
is_bool true (bool b) = b
is_bool false (bool b) = not b
is_bool _ _ = false

-- `value.get(key) is b`
abbrev pub is_bool_at : String → Bool → Fields → Bool
is_bool_at k b fs = elim (get k fs) [ none ↦ false | some j ↦ is_bool b j ]

-- `value.get(key)` is no list and no dict: a set can be asked for it.
abbrev pub hashable_at : String → Fields → Bool
hashable_at k fs = elim (get k fs) [ none ↦ true | some j ↦ is_hashable j ]

-- The result of `urllib.parse.urlsplit`, as far as it is read.
pub record Url : Type 0 where
  pub scheme : String
  pub hostname : Option String
  pub username : Option String
  pub password : Option String
  pub fragment : String

-- `_configured_url`, given `urlsplit`, whose `ValueError` is `none`, and the `in` of texts.
unfoldable pub configured_url :
    (String → Option Url) → (String → String → Bool) → Bool → String → Result String
configured_url urlsplit occurs success value = do
  require (leb 1 (length (codes value)) && leb (length (codes value)) 2_048) value_error
  url ← or_raise (urlsplit value) value_error
  require
      (url.scheme == "https"
        && elim url.hostname [ none ↦ false | some h ↦ not (h == "") ]
        && not (is_some url.username)
        && not (is_some url.password)
        && url.fragment == "")
      value_error
  require (not success || occurs "{CHECKOUT_SESSION_ID}" value) value_error
  ok value
