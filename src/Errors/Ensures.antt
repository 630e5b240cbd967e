-- ===== src/Errors/Ensures.antt =====
-- Postconditions of fallible code: what holds of the result if there is one. The rules follow the
-- shape of a `do` block.
use vouchspec.Base.{◌≡◌, refl, Bool, true, false, Option, none, some, subst, if◌then◌else◌}
use vouchspec.Errors.{Error, Result, ok, err, ◌>>=◌, require, reject, or_raise, chains}

pub record Ensures {ℓ κ} {A : Type ℓ} (P : A → Type κ) (m : Result A) : Type (ℓ ⊔ κ) where
  pub result : (a : A) → m ≡ ok a → P a

ok-injective {ℓ} : {A : Type ℓ} (a b : A) → ok a ≡ ok b → a ≡ b
ok-injective a b e = cc

module _ {ℓ κ} {A : Type ℓ} {P : A → Type κ} where
  pub Ensures-ok : (a : A) → P a → Ensures P (ok a)
  Ensures-ok a h = record { result = λ b e. subst P (ok-injective a b e) h }

  pub Ensures-err : (e : Error) → Ensures P (err e)
  Ensures-err e = record { result = λ b h. absurd (no_result b h) }
    where
      no_result : (b : A) → err e ≡ ok b → ⊥
      no_result b h = cc

  pub Ensures-require :
      (c : Bool) (e : Error) (f : Unit {0} → Result A)
      → (c ≡ true → Ensures P (f tt))
      → Ensures P (require c e >>= f)
  unfolding chains
  Ensures-require true e f h = h refl
  Ensures-require false e f h = Ensures-err e

  pub Ensures-reject :
      (c : Bool) (e : Error) (f : Unit {0} → Result A)
      → (c ≡ false → Ensures P (f tt))
      → Ensures P (reject c e >>= f)
  unfolding chains
  Ensures-reject true e f h = Ensures-err e
  Ensures-reject false e f h = h refl

  pub Ensures-bind {μ} :
      {B : Type μ} {m : Result B} {f : B → Result A}
      → ((b : B) → m ≡ ok b → Ensures P (f b))
      → Ensures P (m >>= f)
  unfolding chains
  Ensures-bind {m = ok b} h = h b refl
  Ensures-bind {m = err e} h = Ensures-err e

  pub Ensures-or_raise {μ} :
      {B : Type μ} (o : Option B) (e : Error) (f : B → Result A)
      → ((b : B) → o ≡ some b → Ensures P (f b))
      → Ensures P (or_raise o e >>= f)
  unfolding chains
  Ensures-or_raise none e f h = Ensures-err e
  Ensures-or_raise (some b) e f h = h b refl

  pub Ensures-if :
      (c : Bool) (m n : Result A)
      → (c ≡ true → Ensures P m)
      → (c ≡ false → Ensures P n)
      → Ensures P (if c then m else n)
  Ensures-if true m n h k = h refl
  Ensures-if false m n h k = k refl

  pub Ensures-weaken {μ} :
      {Q : A → Type μ} (m : Result A) → Ensures Q m → ((a : A) → Q a → P a) → Ensures P m
  Ensures-weaken m h w = record { result = λ a e. w a (h.result a e) }

-- A check that passed, at the end of a chain.
pub require-true : (c : Bool) (e : Error) (u : Unit {0}) → require c e ≡ ok u → c ≡ true
unfolding chains
require-true true e u h = refl
require-true false e u h = cc

pub reject-false : (c : Bool) (e : Error) (u : Unit {0}) → reject c e ≡ ok u → c ≡ false
unfolding chains
reject-false true e u h = cc
reject-false false e u h = refl
