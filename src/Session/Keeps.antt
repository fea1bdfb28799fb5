-- ===== src/Session/Keeps.antt =====
-- Actions that keep a predicate of the session, whether they return or raise.
use ski_tech_backend.Base.{Bool, true, false, Option, none, some}
use ski_tech_backend.Session.{
  Session, Result, ok, err, Error, Action, or_raise, raise_if, rollback_if, gets, ◌>>=◌,
}

pub record Keeps {Db A : Type 0} (I : Session Db → Type 0) (m : Action Db A) : Type 0 where
  pub at : (s : Session Db) → I s → I (m s).1

module _ {Db : Type 0} {I : Session Db → Type 0} where
  continue_keeps :
      {A B : Type 0} {k : A → Action Db B} (r : Result A) (s : Session Db)
      → ((a : A) → Keeps I (k a))
      → I s
      → I (((λ t. (r, t)) >>= k) s).1
  continue_keeps (ok a) s hk h = (hk a).at s h
  continue_keeps (err e) s hk h = h

  pub bind-Keeps :
      {A B : Type 0} {m : Action Db A} {k : A → Action Db B}
      → Keeps I m
      → ((a : A) → Keeps I (k a))
      → Keeps I (m >>= k)
  bind-Keeps {m = m} hm hk = record { at = λ s h. continue_keeps (m s).0 (m s).1 hk (hm.at s h) }

  pub raise_if-Keeps : (b : Bool) (e : Error) → Keeps I (raise_if b e)
  raise_if-Keeps true e = record { at = λ s h. h }
  raise_if-Keeps false e = record { at = λ s h. h }

  pub gets-Keeps : {A : Type 0} (f : Db → A) → Keeps I (gets f)
  gets-Keeps f = record { at = λ s h. h }

  pub or_raise-Keeps : {A : Type 0} (o : Option A) (e : Error) → Keeps I (or_raise o e)
  or_raise-Keeps none e = record { at = λ s h. h }
  or_raise-Keeps (some a) e = record { at = λ s h. h }

  pub rollback_if-Keeps :
      ((s : Session Db) → I s → I (record s { work = s.committed }))
      → (b : Bool) (e : Error) → Keeps I (rollback_if b e)
  rollback_if-Keeps back true e = record { at = back }
  rollback_if-Keeps back false e = record { at = λ s h. h }

-- An action that leads from a session with P to one with Q.
pub record Leads {Db A : Type 0} (P Q : Session Db → Type 0) (m : Action Db A) : Type 0 where
  pub at : (s : Session Db) → P s → Q (m s).1

module _ {Db : Type 0} {P Q : Session Db → Type 0} where
  continue_leads :
      {A B : Type 0} {k : A → Action Db B} (r : Result A) (s : Session Db)
      → ((t : Session Db) → P t → Q t)
      → ((a : A) → Leads P Q (k a))
      → P s
      → Q (((λ t. (r, t)) >>= k) s).1
  continue_leads (ok a) s weaker hk h = (hk a).at s h
  continue_leads (err e) s weaker hk h = weaker s h

  pub bind-Leads :
      {A B : Type 0} {m : Action Db A} {k : A → Action Db B}
      → ((t : Session Db) → P t → Q t)
      → Keeps P m
      → ((a : A) → Leads P Q (k a))
      → Leads P Q (m >>= k)
  bind-Leads {m = m} weaker hm hk = record {
    at = λ s h. continue_leads (m s).0 (m s).1 weaker hk (hm.at s h);
  }
