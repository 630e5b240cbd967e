-- ===== src/Commerce/WebhookLaws.antt =====
-- What a webhook that `verify_stripe_webhook_signature` accepts has.
use vouchspec.Base.{
  subst, subst, ℕ, ◌≤◌, ◌≡◌, refl, Bool, true, false, ◌||◌, some, List, [], ◌∷◌, arith, ltb, eqb,
}
use vouchspec.Base.Lists.{any, length}
use vouchspec.Base.Int.{ℤ}
use vouchspec.Errors.{ok}
use vouchspec.Errors.Ensures.{
  Ensures, Ensures-ok, Ensures-reject, Ensures-require, Ensures-or_raise,
}
use vouchspec.Commerce.Webhook.{
  WebhookPlatform, same_codes, header_of, age, expected, verify_stripe_webhook_signature,
}

same_codes-eq : (xs ys : List ℕ) → same_codes xs ys ≡ true → xs ≡ ys
same_codes-eq [] [] h = refl
same_codes-eq (x ∷ xs) (y ∷ ys) h = ground (arith, h, same_codes-eq xs ys)
same_codes-eq [] (y ∷ ys) h = cc
same_codes-eq (x ∷ xs) [] h = cc

-- A text stands in a list of texts.
pub data Listed (x : List ℕ) : List (List ℕ) → Type 0 where
  first : {xs : List (List ℕ)} → Listed x (x ∷ xs)
  later : {y : List ℕ} {xs : List (List ℕ)} → Listed x xs → Listed x (y ∷ xs)

any-Listed : (x : List ℕ) (xs : List (List ℕ)) → any (same_codes x) xs ≡ true → Listed x xs
any-Listed x [] h = cc
any-Listed x (y ∷ ys) h = go (same_codes x y) refl h (any-Listed x ys)
  where
    go :
        (b : Bool)
        → same_codes x y ≡ b
        → (b || any (same_codes x) ys) ≡ true
        → (any (same_codes x) ys ≡ true → Listed x ys)
        → Listed x (y ∷ ys)
    go true e q rest = subst (λ z. Listed x (z ∷ ys)) (same_codes-eq x y e) first
    go false e q rest = later (rest q)

pub record IsAuthentic (w : WebhookPlatform) (body header secret : List ℕ) (now : ℤ) (tolerance : ℕ)
    (t : ℤ) : Type 0 where
  pub timestamp : (header_of w header).timestamp ≡ some t
  pub recent : age now t ≤ tolerance
  pub signed : Listed (expected w secret t body) (header_of w header).signatures

verify-Ensures :
    (w : WebhookPlatform) (body header secret : List ℕ) (now : ℤ) (tolerance : ℕ)
    → Ensures
        (IsAuthentic w body header secret now tolerance)
        (verify_stripe_webhook_signature w body header secret now tolerance)
unfolding verify_stripe_webhook_signature
verify-Ensures w body header secret now tolerance = Ensures-reject _ _ _ λ _.
    Ensures-or_raise _ _ _ λ t ht.
      Ensures-reject (eqb (length (header_of w header).signatures) 0 || ltb tolerance (age now t)) _
        _
        λ late. Ensures-require _ _ _ λ listed. Ensures-ok _ (record {
          timestamp = ht;
          recent =
              within (eqb (length (header_of w header).signatures) 0) tolerance (age now t) late;
          signed = any-Listed (expected w secret t body) (header_of w header).signatures listed;
        })
  where
    within : (b : Bool) (m n : ℕ) → (b || ltb m n) ≡ false → n ≤ m
    within b m n h = ground (arith, h)

-- A webhook that is accepted carries, among the signatures of its header, the HMAC of its raw body
-- under the timestamp of the header, and that timestamp is within the tolerance of the present.
pub accepted_webhook-IsAuthentic :
    (w : WebhookPlatform) (body header secret : List ℕ) (now : ℤ) (tolerance : ℕ) (t : ℤ)
    → verify_stripe_webhook_signature w body header secret now tolerance ≡ ok t
    → IsAuthentic w body header secret now tolerance t
accepted_webhook-IsAuthentic w body header secret now tolerance t h =
    (verify-Ensures w body header secret now tolerance).result t h
