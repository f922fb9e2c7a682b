-- ===== src/Server/Logic.antt =====
-- A program logic for `Run`: what holds after a call when it returns, and when it does not.
use letmein.Base.{Result, ok, err, panic}
use letmein.Server.Session.{◌>>=◌, Failure, Session, Run, continue, fail, handled, on_error}

-- `Post` holds of a result, `Fail` of the session when the call fails or panics.
unfoldable pub Outcome :
    {A : Type 0} → (A → Session → Type 0) → (Session → Type 0) → Result Failure A × Session → Type 0
Outcome Post Fail (ok a, s) = Post a s
Outcome Post Fail (err e, s) = Fail s
Outcome Post Fail (panic, s) = Fail s

abbrev pub Triple :
    {A : Type 0} → (Session → Type 0) → Run A → (A → Session → Type 0) → (Session → Type 0) → Type 0
Triple Pre m Post Fail = (s : Session) → Pre s → Outcome Post Fail (m s)

module _ {A : Type 0} (Fail : Session → Type 0) where
  Outcome-continue :
      {B : Type 0} {Mid : A → Session → Type 0} (Post : B → Session → Type 0)
      (r : Result Failure A × Session) (f : A → Run B)
      → Outcome Mid Fail r
      → ((a : A) → Triple (Mid a) (f a) Post Fail)
      → Outcome Post Fail (continue r f)
  unfolding Outcome
  Outcome-continue Post (ok a, s) f h k = k a s h
  Outcome-continue Post (err e, s) f h k = h
  Outcome-continue Post (panic, s) f h k = h

  pub Triple-bind :
      {B : Type 0} {Pre : Session → Type 0} {Mid : A → Session → Type 0}
      (Post : B → Session → Type 0) (m : Run A) (f : A → Run B)
      → Triple Pre m Mid Fail
      → ((a : A) → Triple (Mid a) (f a) Post Fail)
      → Triple Pre (m >>= f) Post Fail
  Triple-bind Post m f h k s pre = Outcome-continue Post (m s) f (h s pre) k

  Outcome-weaken :
      {Mid : A → Session → Type 0} (Post : A → Session → Type 0) (r : Result Failure A × Session)
      → Outcome Mid Fail r
      → ((a : A) (s : Session) → Mid a s → Post a s)
      → Outcome Post Fail r
  unfolding Outcome
  Outcome-weaken Post (ok a, s) h k = k a s h
  Outcome-weaken Post (err e, s) h k = h
  Outcome-weaken Post (panic, s) h k = h

  pub Triple-weaken :
      {Pre : Session → Type 0} {Mid : A → Session → Type 0} (Post : A → Session → Type 0)
      (m : Run A)
      → Triple Pre m Mid Fail
      → ((a : A) (s : Session) → Mid a s → Post a s)
      → Triple Pre m Post Fail
  Triple-weaken Post m h k s pre = Outcome-weaken Post (m s) (h s pre) k

-- What holds in the end, however the call ends.
pub Outcome-end :
    {A : Type 0} (P : Session → Type 0) (r : Result Failure A × Session)
    → Outcome (λ _. P) P r
    → P r.1
unfolding Outcome
Outcome-end P (ok a, s) h = h
Outcome-end P (err e, s) h = h
Outcome-end P (panic, s) h = h

module _ {A : Type 0} (Fail : Session → Type 0) where
  -- A call that only changes the state.
  pub Triple-step :
      {Pre : Session → Type 0} (Post : A → Session → Type 0) (a : A) (f : Session → Session)
      → ((s : Session) → Pre s → Post a (f s))
      → Triple Pre (λ s. (ok a, f s)) Post Fail
  unfolding Outcome
  Triple-step Post a f k = k

  pub Triple-fail :
      {Pre : Session → Type 0} (Post : A → Session → Type 0) (e : Failure)
      → ((s : Session) → Pre s → Fail s)
      → Triple Pre (fail e) Post Fail
  unfolding Outcome
  Triple-fail Post e k = k

Outcome-handled :
    {Mid Fail : Session → Type 0} (Post : Unit {0} → Session → Type 0)
    (x : Result Failure (Unit {0}) × Session) (handler : Run (Unit {0}))
    → Outcome Post Mid x
    → ((s : Session) → Mid s → Fail s)
    → Triple Mid handler Post Fail
    → Outcome Post Fail (handled x handler)
unfolding Outcome
Outcome-handled Post (ok tt, s) handler h k j = h
Outcome-handled Post (err e, s) handler h k j = j s h
Outcome-handled Post (panic, s) handler h k j = k s h

-- What a call leaves when it fails is handed to the handler.
pub Triple-on_error :
    {Pre Mid : Session → Type 0} (Fail : Session → Type 0) (Post : Unit {0} → Session → Type 0)
    (m handler : Run (Unit {0}))
    → Triple Pre m Post Mid
    → ((s : Session) → Mid s → Fail s)
    → Triple Mid handler Post Fail
    → Triple Pre (on_error m handler) Post Fail
Triple-on_error Fail Post m handler h k j s pre = Outcome-handled Post (m s) handler (h s pre) k j
