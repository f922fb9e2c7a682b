-- ===== src/Server/Safety.antt =====
-- A logic for `Run` without panics: what holds after a call when it returns, and after an error.
use letmein.Base.{◌≢◌, Bool, true, false, if◌then◌else◌, Result, ok, err, panic}
use letmein.Server.Session.{Failure, Session, Run, continue, handled}

-- `Post` holds of a result, `Fail` of the session that an error leaves; there is no panic.
abbrev pub Safe :
    {A : Type 0} → (A → Session → Type 0) → (Session → Type 0) → Result Failure A × Session → Type 0
Safe Post Fail (ok a, s) = Post a s
Safe Post Fail (err e, s) = Fail s
Safe Post Fail (panic, s) = ⊥

abbrev pub Always : Session → Type 0
Always s = Unit {0}

module _ {A : Type 0} where
  pub Safe-continue :
      {B : Type 0} (Mid : A → Session → Type 0) (Post : B → Session → Type 0)
      (r : Result Failure A × Session) (f : A → Run B)
      → Safe Mid Always r
      → ((a : A) (s : Session) → Mid a s → Safe Post Always (f a s))
      → Safe Post Always (continue r f)
  Safe-continue Mid Post (ok a, s) f h k = k a s h
  Safe-continue Mid Post (err e, s) f h k = tt
  Safe-continue Mid Post (panic, s) f h k = h

  pub Safe-ne-panic :
      (Post : A → Session → Type 0) (r : Result Failure A × Session)
      → Safe Post Always r
      → r.0 ≢ panic
  Safe-ne-panic Post (ok a, s) h e = cc
  Safe-ne-panic Post (err x, s) h e = cc
  Safe-ne-panic Post (panic, s) h e = h

pub Safe-forget :
    {A : Type 0} (P : A → Session → Type 0) (r : Result Failure A × Session)
    → Safe P Always r
    → Safe (λ _. Always) Always r
Safe-forget P (ok a, s) h = tt
Safe-forget P (err e, s) h = tt
Safe-forget P (panic, s) h = h

pub if-Safe :
    {A : Type 0} (Post : A → Session → Type 0) (Fail : Session → Type 0) (answer : Bool)
    (x y : Result Failure A × Session)
    → Safe Post Fail x
    → Safe Post Fail y
    → Safe Post Fail (if answer then x else y)
if-Safe Post Fail true x y h k = h
if-Safe Post Fail false x y h k = k

pub choose-Safe :
    {A : Type 0} (Post : A → Session → Type 0) (answer : Bool) (m n : Run A) (s : Session)
    → Safe Post Always (m s)
    → Safe Post Always (n s)
    → Safe Post Always ((if answer then m else n) s)
choose-Safe Post true m n s h k = h
choose-Safe Post false m n s h k = k

pub Safe-on_error :
    (Fail : Session → Type 0) (Post : Unit {0} → Session → Type 0)
    (r : Result Failure (Unit {0}) × Session) (handler : Run (Unit {0}))
    → Safe Post Fail r
    → ((s : Session) → Fail s → Safe Post Always (handler s))
    → Safe Post Always (handled r handler)
Safe-on_error Fail Post (ok tt, s) handler h k = h
Safe-on_error Fail Post (err e, s) handler h k = k s h
Safe-on_error Fail Post (panic, s) handler h k = h
