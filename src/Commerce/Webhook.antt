-- ===== src/Commerce/Webhook.antt =====
-- `verify_stripe_webhook_signature` of commerce.py. Texts are lists of code points here, and the
-- functions of Python's library are the record `WebhookPlatform`.
use vouchspec.Base.{
  ℕ, suc, Bool, true, false, not, ◌&&◌, ◌||◌, Option, none, some, List, [], ◌∷◌, ◌++◌, ltb, eqb,
  is_some, if◌then◌else◌,
}
use vouchspec.Base.Lists.{any, length}
use vouchspec.Base.Int.{ℤ, pos, negsuc, neg, ◌+ℤ◌}
use vouchspec.Errors.{Result, ok, ◌>>=◌, ◌>>◌, require, reject, or_raise, invalid_webhook_signature}
use vouchspec.Text.{codes, run_of, is_hex}

pub record WebhookPlatform : Type 0 where
  -- `str.strip`
  pub strip : List ℕ → List ℕ
  -- `int(value)`; `none` is its `ValueError`
  pub int_of : List ℕ → Option ℤ
  -- `str(timestamp).encode("ascii")`
  pub decimal : ℤ → List ℕ
  -- `hmac.new(secret, message, hashlib.sha256).hexdigest()`
  pub hmac_sha256 : List ℕ → List ℕ → List ℕ

abbrev pub same_codes : List ℕ → List ℕ → Bool
same_codes [] [] = true
same_codes (x ∷ xs) (y ∷ ys) = eqb x y && same_codes xs ys
same_codes _ _ = false

abbrev first_part : ℕ → List (List ℕ) → List (List ℕ)
first_part c [] = (c ∷ []) ∷ []
first_part c (p ∷ ps) = (c ∷ p) ∷ ps

-- `text.split(separator)` on one character.
unfoldable pub split : ℕ → List ℕ → List (List ℕ)
split s [] = [] ∷ []
split s (c ∷ cs) = let rest = split s cs in if eqb c s then [] ∷ rest else first_part c rest

abbrev led : ℕ → Option (List ℕ × List ℕ) → Option (List ℕ × List ℕ)
led c none = none
led c (some (k, v)) = some (c ∷ k, v)

-- `text.partition("=")`: the parts around the separator, if there is one.
unfoldable pub partition : ℕ → List ℕ → Option (List ℕ × List ℕ)
partition s [] = none
partition s (c ∷ cs) = let rest = partition s cs in if eqb c s then some ([], cs) else led c rest

-- What the loop over the header has found.
pub record Header : Type 0 where
  pub timestamp : Option ℤ
  pub signatures : List (List ℕ)

unfoldable pub read_item : WebhookPlatform → Option (List ℕ × List ℕ) → Header → Header
read_item w none h = h
read_item w (some (key, value)) h =
    if same_codes key (codes "t") && not (is_some h.timestamp)
    then record h { timestamp = w.int_of value }
    else if same_codes key (codes "v1") && run_of is_hex 64 64 value
    then record h { signatures = h.signatures ++ value ∷ [] }
    else h

unfoldable pub read_header : WebhookPlatform → List (List ℕ) → Header → Header
read_header w [] h = h
read_header w (item ∷ items) h = read_header w items (read_item w (partition b'=' (w.strip item)) h)

abbrev pub negate : ℤ → ℤ
negate (pos n) = neg n
negate (negsuc n) = pos (suc n)

abbrev pub magnitude : ℤ → ℕ
magnitude (pos n) = n
magnitude (negsuc n) = suc n

-- `abs(now - timestamp)`
unfoldable pub age : ℤ → ℤ → ℕ
age now t = magnitude (now +ℤ negate t)

unfoldable pub header_of : WebhookPlatform → List ℕ → Header
header_of w signature_header =
    read_header w (split b',' signature_header) (record { timestamp = none; signatures = [] })

-- The HMAC of the timestamp and the raw body.
abbrev pub expected : WebhookPlatform → List ℕ → ℤ → List ℕ → List ℕ
expected w secret t raw_body = w.hmac_sha256 secret (w.decimal t ++ b'.' ∷ raw_body)

unfoldable pub verify_stripe_webhook_signature :
    WebhookPlatform → List ℕ → List ℕ → List ℕ → ℤ → ℕ → Result ℤ
verify_stripe_webhook_signature w raw_body signature_header secret now tolerance = do
  reject (same_codes raw_body [] || same_codes secret []) invalid_webhook_signature
  let header = header_of w signature_header
  t ← or_raise header.timestamp invalid_webhook_signature
  reject (eqb (length header.signatures) 0 || ltb tolerance (age now t)) invalid_webhook_signature
  require (any (same_codes (expected w secret t raw_body)) header.signatures)
      invalid_webhook_signature
  ok t
