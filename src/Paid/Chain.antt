-- ===== src/Paid/Chain.antt =====
-- The chain of publications in `publish` of paid_lifecycle.py: contiguous sequences and issuer keys
-- that are never restored.
use vouchspec.Base.{
  ◌≢◌, false, true, Bool, sym, text-eq, and-true, ◌+◌, ◌≡◌, refl, true, Option, none, some, List,
  [], ◌∷◌, arith, sym, subst, eqb,
}
use vouchspec.Base.Lists.{All, first_holds, all, length}
use vouchspec.Errors.Ensures.{
  require-true, Ensures, Ensures-ok, Ensures-bind, Ensures-require, Ensures-reject, Ensures-if,
  Ensures-weaken,
}
use vouchspec.Store.Tables.{Order}
use vouchspec.Paid.Transitions.{issuer_allowed, issuer_kept, validate_issuer_transitions}
use vouchspec.Paid.Publish.{
  Publication, PaidDb, latest, prior_feed, import_publication, follow_publication,
  commit_publication,
}
use vouchspec.Lifecycle.Feed.{active, retired, compromised, IssuerStatus, IssuerKey}
use vouchspec.Lifecycle.Evaluate.{find_issuer}

-- What becomes of an issuer key: the keys hold one of its identifier, which is compromised if the key
-- was, and is not active if the key was retired.
pub record KeepsIssuer (keys : List IssuerKey) (k : IssuerKey) : Type 0 where
  pub kept : IssuerKey
  pub found : find_issuer k.keyid keys ≡ some kept
  pub same_keyid : kept.keyid ≡ k.keyid
  pub compromised_stays : k.status ≡ compromised → kept.status ≡ compromised
  pub retired_stays : k.status ≡ retired → kept.status ≢ active

abbrev IssuersKept : Publication → Option Publication → Type 0
IssuersKept x none = Unit
IssuersKept x (some y) = All (KeepsIssuer x.feed.issuer_keys) y.feed.issuer_keys

issuer_allowed-compromised :
    (a b : IssuerStatus) → issuer_allowed a b ≡ true → a ≡ compromised → b ≡ compromised
issuer_allowed-compromised active active h e = absurd (cc (e))
issuer_allowed-compromised retired active h e = absurd (cc (e))
issuer_allowed-compromised compromised active h e = absurd (cc (h))
issuer_allowed-compromised active retired h e = absurd (cc (e))
issuer_allowed-compromised retired retired h e = absurd (cc (e))
issuer_allowed-compromised compromised retired h e = absurd (cc (h))
issuer_allowed-compromised a compromised h e = refl

issuer_allowed-retired : (a b : IssuerStatus) → issuer_allowed a b ≡ true → a ≡ retired → b ≢ active
issuer_allowed-retired active b h e = absurd (cc (e))
issuer_allowed-retired retired active h e = absurd (cc (h))
issuer_allowed-retired retired retired h e = λ q. absurd (cc (q))
issuer_allowed-retired retired compromised h e = λ q. absurd (cc (q))
issuer_allowed-retired compromised b h e = absurd (cc (e))

issuer_kept-KeepsIssuer :
    (keys : List IssuerKey) (k : IssuerKey) → issuer_kept keys k ≡ true → KeepsIssuer keys k
issuer_kept-KeepsIssuer keys k h = by_issuer (find_issuer k.keyid keys) refl h
  where
    by_issuer :
        (x : Option IssuerKey)
        → find_issuer k.keyid keys ≡ x
        → elim x as (λ _. Bool) [ none ↦ false | some c ↦ issuer_allowed k.status c.status ] ≡ true
        → KeepsIssuer keys k
    by_issuer none q e = absurd (cc (e))
    by_issuer (some c) q e = record {
      kept = c;
      found = q;
      same_keyid = text-eq _ _ (first_holds _ keys c q);
      compromised_stays = issuer_allowed-compromised k.status c.status e;
      retired_stays = issuer_allowed-retired k.status c.status e;
    }

issuers_kept-All :
    (keys ks : List IssuerKey) → all (issuer_kept keys) ks ≡ true → All (KeepsIssuer keys) ks
issuers_kept-All keys [] h = tt
issuers_kept-All keys (k ∷ ks) h =
    let (first, rest) = and-true _ _ h in
    (issuer_kept-KeepsIssuer keys k first, issuers_kept-All keys ks rest)

-- Newest first: sequences count down to 1, and each feed keeps the issuers of the one before.
abbrev pub IsChain : List Publication → Type 0
IsChain [] = Unit
IsChain (x ∷ xs) = (x.sequence ≡ length xs + 1) × IssuersKept x (latest xs) × IsChain xs

validate_issuers-IssuersKept :
    (x : Publication) (y : Option Publication)
    → Ensures (λ _. IssuersKept x y) (validate_issuer_transitions x.feed (prior_feed y))
unfolding validate_issuer_transitions
validate_issuers-IssuersKept x none = Ensures-ok _ tt
validate_issuers-IssuersKept x (some y) = record {
  result = λ u h. issuers_kept-All _ _ (require-true _ _ u h);
}

import-chain :
    (x : Publication) (os : List Order) (d : PaidDb)
    → Ensures
        (λ d'. (d'.publications ≡ x ∷ d.publications) × IssuersKept x (latest d.publications))
        (import_publication x os d)
unfolding import_publication
import-chain x os d = Ensures-bind λ u h. Ensures-bind λ _ _. Ensures-reject _ _ _ λ _.
    Ensures-bind λ rows _.
      Ensures-ok _ (refl, (validate_issuers-IssuersKept x (latest d.publications)).result u h)

follow-IsChain :
    (x : Publication) (os : List Order) (d : PaidDb) (xs : List Publication)
    → d.publications ≡ xs
    → IsChain xs
    → Ensures (λ d'. IsChain d'.publications) (follow_publication (latest xs) x os d)
unfolding follow_publication
follow-IsChain x os d [] e c = Ensures-require _ _ _ λ h.
    Ensures-weaken _ (import-chain x os d) λ d' i.
      subst IsChain (sym i.0) (subst (λ ys. IsChain (x ∷ ys)) (sym e) (ground (arith, h), tt, tt))
follow-IsChain x os d (y ∷ ys) e c = Ensures-reject _ _ _ λ _.
    Ensures-if (eqb x.sequence y.sequence) _ _
      (λ _. Ensures-require _ _ _ λ _. Ensures-ok _ (subst IsChain (sym e) c))
      λ _. Ensures-require _ _ _ λ h. Ensures-weaken _ (import-chain x os d) λ d' i.
        subst IsChain (sym i.0) (
          subst (λ zs. IssuersKept x (latest zs) → IsChain (x ∷ zs)) (sym e)
            (λ k. (ground (arith, h, c.0), k, c)) i.1)

pub commit-IsChain :
    (x : Publication) (os : List Order) (d : PaidDb)
    → IsChain d.publications
    → Ensures (λ d'. IsChain d'.publications) (commit_publication x os d)
unfolding commit_publication
commit-IsChain x os d c = Ensures-reject _ _ _ λ _. follow-IsChain x os d d.publications refl c
