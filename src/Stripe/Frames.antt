-- ===== src/Stripe/Frames.antt =====
-- Relations between the states before and after a method, and the rules by which they follow the
-- shape of a `do` block. A frame is a relation that holds across every single effect.
use vouchspec.Base.{[], ◌∷◌, ◌++◌, ◌≡◌, subst, if◌then◌else◌, false, true, Bool, List}
use vouchspec.Platform.{Platform}
use vouchspec.Stripe.Service.{
  commit, ◌>>=◌, transact, ask, Call, utc_now, now, Adapter, handle, catching, next, query, lift,
  Method, Reconciliation, stepped, Service,
}
use vouchspec.Store.Commands.{database, execute, settle, Command}
use vouchspec.Errors.{chains, Error, err, ok, Result}
use vouchspec.Store.Tables.{Db}
use vouchspec.Base.Lists.{any}
use vouchspec.Stripe.Webhooks.{record_reconciliation, same_snapshot}

-- What every effect outside the webhook table respects.
pub record Frame (p : Platform) (R : Service → Service → Type 0) : Type 0 where
  pub same : (s : Service) → R s s
  pub trans : (s t u : Service) → R s t → R t u → R s u
  pub step : (s : Service) → R s (stepped s)
  pub command :
      (c : Command) (s : Service)
      → R s (record s { commerce = settle s.commerce (execute p c s.commerce) })
  pub recorded : (rs : List Reconciliation) (s : Service) → R s (record s { reconciliations = rs })

pub record Keeps {ℓ} {A : Type ℓ} (R : Service → Service → Type 0) (m : Method A) : Type ℓ where
  pub holds : (s : Service) → R s (m s).1

module _ {p : Platform} {R : Service → Service → Type 0} (f : Frame p R) where
  pub Keeps-lift {ℓ} : {A : Type ℓ} (r : Result A) → Keeps R (lift r)
  unfolding lift
  Keeps-lift r = record { holds = λ s. f.same s }

  pub Keeps-query {ℓ} : {A : Type ℓ} (g : Db → Result A) → Keeps R (query g)
  unfolding query
  Keeps-query g = record { holds = λ s. f.same s }

  pub Keeps-bind {ℓ κ} :
      {A : Type ℓ} {B : Type κ} {m : Method A} {g : A → Method B}
      → Keeps R m
      → ((a : A) → Keeps R (g a))
      → Keeps R (m >>= g)
  unfolding ◌>>=◌
  Keeps-bind {A = A} {m = m} {g = g} h k = record { holds = λ s. after s (m s) (h.holds s) }
    where
      after : (s : Service) (r : Result A × Service) → R s r.1 → R s (next g r).1
      after s (ok a, t) x = f.trans s t (g a t).1 x ((k a).holds t)
      after s (err e, t) x = x

  pub Keeps-catching {ℓ} :
      {A : Type ℓ} {m : Method A} {h : Error → Method A}
      → Keeps R m
      → ((e : Error) → Keeps R (h e))
      → Keeps R (catching m h)
  unfolding catching
  Keeps-catching {A = A} {m = m} {h = h} x k = record { holds = λ s. after s (m s) (x.holds s) }
    where
      after : (s : Service) (r : Result A × Service) → R s r.1 → R s (handle h r).1
      after s (ok a, t) y = y
      after s (err e, t) y = f.trans s t (h e t).1 y ((k e).holds t)

  pub Keeps-if {ℓ} :
      {A : Type ℓ} (c : Bool) {m n : Method A}
      → Keeps R m
      → Keeps R n
      → Keeps R (if c then m else n)
  Keeps-if true h k = h
  Keeps-if false h k = k

  pub Keeps-now : (a : Adapter) → Keeps R (now a)
  unfolding now
  Keeps-now a = record { holds = λ s. f.step s }

  pub Keeps-utc_now : (a : Adapter) → Keeps R (utc_now a)
  unfolding utc_now
  Keeps-utc_now a = record { holds = λ s. f.step s }

  pub Keeps-ask : (a : Adapter) (c : Call) → Keeps R (ask a c)
  unfolding ask
  Keeps-ask a c = record { holds = λ s. f.step s }

  -- A transaction is a command of the store.
  pub Keeps-transact {ℓ} :
      {A : Type ℓ} (c : Command) (g : Db → Result (A × Db))
      → ((db : Db) → execute p c db ≡ database (g db))
      → Keeps R (transact g)
  unfolding transact chains
  Keeps-transact {A = A} c g same = record { holds = λ s. after s (g s.commerce) (same s.commerce) }
    where
      after :
          (s : Service) (r : Result (A × Db))
          → execute p c s.commerce ≡ database r
          → R s (commit s r).1
      after s (ok (a, db)) e =
          subst (λ x. R s (record s { commerce = settle s.commerce x })) e (f.command c s)
      after s (err x) e =
          subst (λ x. R s (record s { commerce = settle s.commerce x })) e (f.command c s)

  pub Keeps-record : (r : Reconciliation) → Keeps R (record_reconciliation r)
  unfolding record_reconciliation
  Keeps-record r = record { holds = λ s. either s (any (same_snapshot r) s.reconciliations) }
    where
      either :
          (s : Service) (b : Bool)
          → R s (if b then s else record s { reconciliations = s.reconciliations ++ r ∷ [] })
      either s true = f.same s
      either s false = f.recorded (s.reconciliations ++ r ∷ []) s
