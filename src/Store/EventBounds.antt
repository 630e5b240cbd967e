-- ===== src/Store/EventBounds.antt =====
-- What `_validate_event` guarantees of the events that reach the ledger.
use vouchspec.Base.{
  leb→le, refl, starts_with, ◌&&◌, subst, inr, inl, Bool-cases, if◌then◌else◌, Bool, String, arith,
  some, none, Option, ℕ, ◌≤◌, false, true, ◌≡◌,
}
use vouchspec.Store.Tables.{live, sandbox, stripe, fake, Provider, Event, Environment}
use vouchspec.Text.{is_event_id, is_stripe_payment_id, is_fake_payment_id}
use vouchspec.Json.{at_text, get, object, array, text, real, bool, null, int, as_bounded, Json}
use vouchspec.Base.Int.{negsuc, pos}
use vouchspec.Errors.Ensures.{
  Ensures-ok, Ensures-bind, Ensures-require, Ensures-or_raise, require-true, Ensures,
}
use vouchspec.Store.Events.{validate_event, check_identity}
use vouchspec.Platform.{Platform}
use vouchspec.Errors.{ok}

-- The identifiers of each provider: fake payments belong to the sandbox.
abbrev IsOfProvider : Environment → String → Provider → Type 0
IsOfProvider e id fake = (e ≡ sandbox) × (is_fake_payment_id id ≡ true)
IsOfProvider e id stripe = is_stripe_payment_id id ≡ true

pub record IsBounded (e : Environment) (v : Event) : Type 0 where
  pub fee : v.fee_minor ≤ v.amount_minor
  pub amount : v.amount_minor ≤ 10_000_000
  pub identifier : is_event_id v.event_id ≡ true
  pub provider : IsOfProvider e v.payment_id v.provider

as_bounded-bound :
    (low high n : ℕ) (o : Option Json)
    → elim o as (λ x. Option ℕ) [ none ↦ none | some j ↦ as_bounded low high j ] ≡ some n
    → n ≤ high
as_bounded-bound low high n none h = absurd (cc (h))
as_bounded-bound low high n (some (int (pos k))) h = ground (arith, h)
as_bounded-bound low high n (some (int (negsuc k))) h = absurd (cc (h))
as_bounded-bound low high n (some null) h = absurd (cc (h))
as_bounded-bound low high n (some (bool b)) h = absurd (cc (h))
as_bounded-bound low high n (some (real s)) h = absurd (cc (h))
as_bounded-bound low high n (some (text s)) h = absurd (cc (h))
as_bounded-bound low high n (some (array xs)) h = absurd (cc (h))
as_bounded-bound low high n (some (object fs)) h = absurd (cc (h))

text_at-holds :
    (p : String → Bool) (s : String) (o : Option String)
    → elim o as (λ x. Option String) [ none ↦ none | some t ↦ if p t then some t else none ]
      ≡ some s
    → p s ≡ true
text_at-holds p s none h = absurd (cc (h))
text_at-holds p s (some t) h = elim (Bool-cases (p t)) [
  | inl e ↦ let same : t ≡ s = ground (arith, h, e) in subst (λ x. p x ≡ true) same e
  | inr e ↦ absurd (ground (arith, h, e))
]

check_identity-IsOfProvider :
    (e : Environment) (event_id id : String) (p : Provider)
    → Ensures (λ u. IsOfProvider e id p) (check_identity e p event_id id)
unfolding check_identity
check_identity-IsOfProvider e event_id id stripe = record { result = λ u. require-true _ _ u }
check_identity-IsOfProvider sandbox event_id id fake = record {
  result = λ u h.
      let c = require-true (starts_with event_id "evt_test_" && is_fake_payment_id id) _ u h in
      (refl, ground (arith, c));
}
check_identity-IsOfProvider live event_id id fake = record {
  result = λ u h. absurd (let c = require-true false _ u h in cc (c));
}

-- An event that is accepted has a fee of at most its amount and an amount of at most 10,000,000, a well-formed identifier, and a payment identifier of its provider; the fake provider is accepted in the sandbox only.
pub validate_event-IsBounded :
    (p : Platform) (e : Environment) (value : Json) (v : Event)
    → validate_event p e value ≡ ok v
    → IsBounded e v
unfolding validate_event
validate_event-IsBounded p e value v = bounded.result v
  where
    bounded : Ensures (IsBounded e) (validate_event p e value)
    bounded = Ensures-or_raise _ _ _ λ fs _. Ensures-require _ _ _ λ _. Ensures-require _ _ _ λ _.
        Ensures-require _ _ _ λ _. Ensures-or_raise _ _ _ λ provider _. Ensures-require _ _ _ λ _.
          Ensures-or_raise _ _ _ λ event_id id. Ensures-require _ _ _ λ _.
            Ensures-or_raise _ _ _ λ type _. Ensures-or_raise _ _ _ λ payment_id _.
              Ensures-require _ _ _ λ _. Ensures-bind λ u checked.
                Ensures-or_raise _ _ _ λ amount a. Ensures-or_raise _ _ _ λ fee _.
                  Ensures-require _ _ _ λ small. Ensures-or_raise _ _ _ λ occurred_at _.
                    Ensures-bind λ _ _. Ensures-ok _ (record {
                      fee = leb→le fee amount small;
                      amount = as_bounded-bound 0 10_000_000 amount (get "amount_minor" fs) a;
                      identifier = text_at-holds is_event_id event_id (at_text "event_id" fs) id;
                      provider =
                          (check_identity-IsOfProvider e event_id payment_id provider).result u
                            checked;
                    })
