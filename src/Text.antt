-- ===== src/Text.antt =====
-- The regular expressions of the program, all of the form prefix, character class and length
-- bounds, as tests on the code points of a text (`re.fullmatch`).
use Prim.Native.Char.{code}
use vouchspec.Base.{
  ℕ, ◌+◌, String, Bool, false, ◌&&◌, ◌||◌, List, [], ◌∷◌, Option, none, some, leb, ltb, eqb,
  if◌then◌else◌,
}
use vouchspec.Base.Lists.{length, all}

-- The code points of a text; `String` has its own `[]` and `∷`.
abbrev pub codes : String → List ℕ
codes String.[] = []
codes (String.◌∷◌ c s) = code c ∷ codes s

abbrev is_digit : ℕ → Bool
is_digit c = leb b'0' c && leb c b'9'

abbrev is_upper : ℕ → Bool
is_upper c = leb b'A' c && leb c b'Z'

abbrev is_lower : ℕ → Bool
is_lower c = leb b'a' c && leb c b'z'

-- `[0-9a-f]`
abbrev pub is_hex : ℕ → Bool
is_hex c = is_digit c || (leb b'a' c && leb c b'f')

-- `[A-Za-z0-9]`
abbrev pub is_alnum : ℕ → Bool
is_alnum c = is_digit c || is_upper c || is_lower c

-- `[A-Za-z0-9_-]`
abbrev pub is_word : ℕ → Bool
is_word c = is_alnum c || eqb c b'_' || eqb c b'-'

-- `[class]{low,high}` over a whole text.
abbrev pub run_of : (ℕ → Bool) → ℕ → ℕ → List ℕ → Bool
run_of cls low high cs = all cls cs && leb low (length cs) && leb (length cs) high

-- The text behind a literal prefix.
abbrev pub behind : List ℕ → List ℕ → Option (List ℕ)
behind [] cs = some cs
behind (p ∷ ps) [] = none
behind (p ∷ ps) (c ∷ cs) = if eqb p c then behind ps cs else none

-- `prefix[class]{low,high}`
abbrev pub prefixed : String → (ℕ → Bool) → ℕ → ℕ → List ℕ → Bool
prefixed p cls low high cs = elim (behind (codes p) cs) [
  | none ↦ false
  | some rest ↦ run_of cls low high rest
]

-- `_IDEMPOTENCY` of commerce_store.py and commerce_access.py.
unfoldable pub is_idempotency_key : String → Bool
is_idempotency_key s = run_of is_word 8 96 (codes s)

-- `_BUYER`
unfoldable pub is_buyer : String → Bool
is_buyer s =
    run_of (λ c. is_word c || eqb c b'.' || eqb c b':' || eqb c b'@' || eqb c b'+') 8 128 (codes s)

-- `_EVENT_ID`
unfoldable pub is_event_id : String → Bool
is_event_id s =
    prefixed "evt_" is_hex 24 24 (codes s) || prefixed "evt_test_" is_hex 24 24 (codes s)

-- `_FAKE_PAYMENT_ID`
unfoldable pub is_fake_payment_id : String → Bool
is_fake_payment_id s = prefixed "pay_test_" is_hex 24 24 (codes s)

-- `_STRIPE_PAYMENT_ID`
unfoldable pub is_stripe_payment_id : String → Bool
is_stripe_payment_id s = prefixed "pi_" is_alnum 8 64 (codes s)

-- `_STRIPE_CHECKOUT_ID`
unfoldable pub is_stripe_checkout_id : String → Bool
is_stripe_checkout_id s =
    prefixed "cs_test_" is_alnum 8 128 (codes s) || prefixed "cs_live_" is_alnum 8 128 (codes s)

-- `_SHA256`
unfoldable pub is_sha256 : String → Bool
is_sha256 s = run_of is_hex 64 64 (codes s)

-- `_KEY_ID`
unfoldable pub is_key_id : String → Bool
is_key_id s = run_of is_word 43 43 (codes s)

-- `cpr_[0-9a-f]{24}`
unfoldable pub is_receipt_id : String → Bool
is_receipt_id s = prefixed "cpr_" is_hex 24 24 (codes s)

-- `_QUOTE_ID`
unfoldable pub is_quote_id : String → Bool
is_quote_id s = prefixed "q_" is_hex 24 24 (codes s)

-- `_ORDER_ID` of commerce_access.py.
unfoldable pub is_order_id : String → Bool
is_order_id s =
    prefixed "ord_" is_hex 24 24 (codes s) || prefixed "ord_test_" is_hex 24 24 (codes s)

-- `_COMMIT`
unfoldable pub is_commit : String → Bool
is_commit s = run_of is_hex 40 40 (codes s)

-- A first character in `[A-Za-z0-9]` and up to `high` more of the class.
abbrev led_by_alnum : (ℕ → Bool) → ℕ → List ℕ → Bool
led_by_alnum cls high [] = false
led_by_alnum cls high (c ∷ cs) = is_alnum c && run_of cls 0 high cs

-- `_OWNER`
unfoldable pub is_owner : String → Bool
is_owner s = led_by_alnum (λ c. is_alnum c || eqb c b'-') 38 (codes s)

abbrev is_name_character : ℕ → Bool
is_name_character c = is_word c || eqb c b'.'

-- `_REPOSITORY`, and `_SKILL_SEGMENT` of one path segment.
unfoldable pub is_repository : List ℕ → Bool
is_repository = led_by_alnum is_name_character 99

-- `_DELIVERY_ID`
unfoldable pub is_delivery_id : String → Bool
is_delivery_id s = run_of is_word 8 64 (codes s)

-- `_TENANT_ID` of commerce_access.py.
unfoldable pub is_tenant_id : String → Bool
is_tenant_id s = prefixed "ten_" is_hex 24 24 (codes s)

-- `_API_KEY` of commerce_access.py.
unfoldable pub is_api_key : String → Bool
is_api_key s =
    prefixed "vsk_test_" is_word 43 43 (codes s) || prefixed "vsk_live_" is_word 43 43 (codes s)

-- `_DELIVERY_TOKEN` of commerce_access.py.
unfoldable pub is_delivery_token : String → Bool
is_delivery_token s =
    prefixed "vsd_test_" is_word 43 43 (codes s) || prefixed "vsd_live_" is_word 43 43 (codes s)

-- Whether `encode("ascii")` succeeds.
abbrev pub is_ascii : String → Bool
is_ascii s = all (λ c. ltb c 128) (codes s)

-- `_ACCOUNT_ID` of stripe_payments.py.
unfoldable pub is_account_id : String → Bool
is_account_id s = prefixed "acct_" is_alnum 8 64 (codes s)

-- `_EVENT_ID` of stripe_payments.py.
unfoldable pub is_stripe_event_id : String → Bool
is_stripe_event_id s = prefixed "evt_" is_alnum 8 64 (codes s)

-- `_CHARGE_ID` of stripe_payments.py.
unfoldable pub is_charge_id : String → Bool
is_charge_id s = prefixed "ch_" is_alnum 8 64 (codes s)

-- `_BALANCE_ID` of stripe_payments.py.
unfoldable pub is_balance_id : String → Bool
is_balance_id s = prefixed "txn_" is_alnum 8 64 (codes s)

-- `dp_[A-Za-z0-9]{8,64}`
unfoldable pub is_dispute_id : String → Bool
is_dispute_id s = prefixed "dp_" is_alnum 8 64 (codes s)

-- `_[A-Za-z0-9]{8,128}` after n characters of `[a-z_]{1,31}`, or after more of them.
abbrev object_tail : ℕ → List ℕ → Bool
object_tail n [] = false
object_tail n (c ∷ cs) =
    let longer = object_tail (n + 1) cs in
    (leb 1 n && leb n 31 && eqb c b'_' && run_of is_alnum 8 128 cs)
    || ((is_lower c || eqb c b'_') && longer)

-- `_OBJECT_ID` of stripe_payments.py.
unfoldable pub is_object_id : String → Bool
is_object_id s = elim (codes s) [ [] ↦ false | c ∷ cs ↦ is_lower c && object_tail 0 cs ]
