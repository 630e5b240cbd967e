-- ===== src/Store/Ledger.antt =====
-- The money of an order: what its financial entries add up to.
use vouchspec.Base.{
  ℕ, ◌+◌, ◌≡◌, refl, String, Bool, true, false, ◌&&◌, List, [], ◌∷◌, ◌++◌, arith, ◌==◌,
  if◌then◌else◌, Bool-cases, inl, inr,
}
use vouchspec.Base.Int.{ℤ, pos, pos_part, neg_part, neg, ◌+ℤ◌, int_laws}
use vouchspec.Store.Tables.{
  DirectCost, Category, gross_collected, processing_fee, refund, direct, same_category, Entry,
}
use vouchspec.Store.Views.{contribution, amount_of}

abbrev pub is_direct : Category → Bool
is_direct (direct c) = true
is_direct _ = false

-- The sum of all direct costs of an order.
unfoldable pub direct_total : String → List Entry → ℕ
direct_total k [] = 0
direct_total k (e ∷ es) =
    (if e.order_id == k && is_direct e.category then e.amount_minor else 0) + direct_total k es

+ℤ_assoc : (a b c : ℤ) → a +ℤ (b +ℤ c) ≡ (a +ℤ b) +ℤ c
+ℤ_assoc a b c = omega int_laws

contribution-append :
    (k : String) (es : List Entry) (e : Entry)
    → contribution k (es ++ e ∷ [])
      ≡ contribution k es +ℤ (if e.order_id == k then e.impact_minor else pos 0)
unfolding contribution
contribution-append k [] e = elim (Bool-cases (e.order_id == k)) [
  | inl h ↦ rw h (omega int_laws)
  | inr h ↦ rw h (omega int_laws)
]
contribution-append k (x ∷ es) e = elim (Bool-cases (x.order_id == k)) [
  | inl h ↦ rw h (rw (contribution-append k es e) (+ℤ_assoc _ _ _))
  | inr h ↦ rw h (contribution-append k es e)
]

amount_of-append :
    (c : Category) (k : String) (es : List Entry) (e : Entry)
    → amount_of c k (es ++ e ∷ [])
      ≡ amount_of c k es
        + (if e.order_id == k && same_category e.category c then e.amount_minor else 0)
unfolding amount_of
amount_of-append c k [] e = omega arith
amount_of-append c k (x ∷ es) e = omega (arith, amount_of-append c k es e)

direct_total-append :
    (k : String) (es : List Entry) (e : Entry)
    → direct_total k (es ++ e ∷ [])
      ≡ direct_total k es + (if e.order_id == k && is_direct e.category then e.amount_minor else 0)
unfolding direct_total
direct_total-append k [] e = omega arith
direct_total-append k (x ∷ es) e = omega (arith, direct_total-append k es e)

-- The entries of the order `k` book what was collected, the fee and the refund, and its
-- contribution is what was collected less the fee, the refund and the direct costs.
pub record Ledger (es : List Entry) (k : String) (collected fee refunded : ℕ) : Type 0 where
  pub gross : amount_of gross_collected k es ≡ collected
  pub fees : amount_of processing_fee k es ≡ fee
  pub refunds : amount_of refund k es ≡ refunded
  pub total :
      pos_part (contribution k es) + fee + refunded + direct_total k es
      ≡ collected + neg_part (contribution k es)

pub Ledger-nil : (k : String) → Ledger [] k 0 0 0
unfolding contribution amount_of direct_total
Ledger-nil k = record { gross = refl; fees = refl; refunds = refl; total = omega int_laws }

module _ (es : List Entry) (k : String) (c f r : ℕ) where
  -- An entry of another order changes nothing.
  pub Ledger-other :
      (e : Entry) → (e.order_id == k) ≡ false → Ledger es k c f r → Ledger (es ++ e ∷ []) k c f r
  Ledger-other e h l = record {
    gross = rw amount_of-append (rw h (omega (arith, l.gross)));
    fees = rw amount_of-append (rw h (omega (arith, l.fees)));
    refunds = rw amount_of-append (rw h (omega (arith, l.refunds)));
    total = rw (contribution-append, direct_total-append) (rw h (omega (int_laws, l.total)));
  }

  -- A direct cost lowers the contribution alone.
  pub Ledger-direct :
      (e : Entry) (d : DirectCost)
      → (e.order_id == k) ≡ true
      → e.category ≡ direct d
      → e.impact_minor ≡ neg e.amount_minor
      → Ledger es k c f r
      → Ledger (es ++ e ∷ []) k c f r
  Ledger-direct e d h g i l = record {
    gross = rw amount_of-append (rw (h, g) (omega (arith, l.gross)));
    fees = rw amount_of-append (rw (h, g) (omega (arith, l.fees)));
    refunds = rw amount_of-append (rw (h, g) (omega (arith, l.refunds)));
    total =
        rw (contribution-append, direct_total-append) (rw (h, g, i) (omega (int_laws, l.total)));
  }

module _ (es : List Entry) (k : String) (e : Entry) (h : (e.order_id == k) ≡ true) where
  -- The amount of a capture.
  pub Ledger-gross :
      (f r : ℕ)
      → e.category ≡ gross_collected
      → e.impact_minor ≡ pos e.amount_minor
      → Ledger es k 0 f r
      → Ledger (es ++ e ∷ []) k e.amount_minor f r
  Ledger-gross f r g i l = record {
    gross = rw amount_of-append (rw (h, g) (omega (arith, l.gross)));
    fees = rw amount_of-append (rw (h, g) (omega (arith, l.fees)));
    refunds = rw amount_of-append (rw (h, g) (omega (arith, l.refunds)));
    total =
        rw (contribution-append, direct_total-append) (rw (h, g, i) (omega (int_laws, l.total)));
  }

  -- The fee of a capture.
  pub Ledger-fee :
      (c r : ℕ)
      → e.category ≡ processing_fee
      → e.impact_minor ≡ neg e.amount_minor
      → Ledger es k c 0 r
      → Ledger (es ++ e ∷ []) k c e.amount_minor r
  Ledger-fee c r g i l = record {
    gross = rw amount_of-append (rw (h, g) (omega (arith, l.gross)));
    fees = rw amount_of-append (rw (h, g) (omega (arith, l.fees)));
    refunds = rw amount_of-append (rw (h, g) (omega (arith, l.refunds)));
    total =
        rw (contribution-append, direct_total-append) (rw (h, g, i) (omega (int_laws, l.total)));
  }

  pub Ledger-refund :
      (c f : ℕ)
      → e.category ≡ refund
      → e.impact_minor ≡ neg e.amount_minor
      → Ledger es k c f 0
      → Ledger (es ++ e ∷ []) k c f e.amount_minor
  Ledger-refund c f g i l = record {
    gross = rw amount_of-append (rw (h, g) (omega (arith, l.gross)));
    fees = rw amount_of-append (rw (h, g) (omega (arith, l.fees)));
    refunds = rw amount_of-append (rw (h, g) (omega (arith, l.refunds)));
    total =
        rw (contribution-append, direct_total-append) (rw (h, g, i) (omega (int_laws, l.total)));
  }
