-- ===== src/Base/Results.antt =====
-- The outcome of a fallible call: Rust's `Result`, and a panic (a failed assertion).
use mathlib.Core.Path.{◌≡◌, refl, subst}
use mathlib.Core.Logic.{◌≢◌}
use mathlib.Core.Bool.{Bool, true, false}
use mathlib.Core.Option.{Option, none, some}

pub data Result {ℓ} (E : Type 0) (A : Type ℓ) : Type ℓ where
  ok : A → Result E A
  err : E → Result E A
  panic : Result E A

infixl 5 ◌>>=◌ ◌>>◌
abbrev pub ◌>>=◌ {ℓ κ} :
    {E : Type 0} {A : Type ℓ} {B : Type κ} → Result E A → (A → Result E B) → Result E B
ok a >>= f = f a
err e >>= f = err e
panic >>= f = panic

abbrev pub ◌>>◌ {ℓ} : {E : Type 0} {B : Type ℓ} → Result E (Unit {0}) → Result E B → Result E B
m >> k = m >>= λ _. k

-- `if !test { return Err(e) }`
abbrev pub guard : {E : Type 0} → Bool → E → Result E (Unit {0})
guard true e = ok tt
guard false e = err e

-- `assert!(test)`
abbrev pub check : {E : Type 0} → Bool → Result E (Unit {0})
check true = ok tt
check false = panic

-- `let Some(a) = o else { return Err(e) }`
abbrev pub or_fail {ℓ} : {E : Type 0} {A : Type ℓ} → Option A → E → Result E A
or_fail none e = err e
or_fail (some a) e = ok a

-- `.map_err(|_| e)`: the error is replaced.
abbrev pub with_err {ℓ} : {E F : Type 0} {A : Type ℓ} → Result E A → F → Result F A
with_err (ok a) f = ok a
with_err (err e) f = err f
with_err panic f = panic

-- `.is_ok()`; a panic does not return.
abbrev pub is_ok {ℓ} : {E : Type 0} {A : Type ℓ} → Result E A → Bool
is_ok (ok a) = true
is_ok _ = false

module _ {ℓ} {E : Type 0} {A : Type ℓ} where
  pub ok_inj : {a b : A} → Path (Result E A) (ok a) (ok b) → a ≡ b
  ok_inj h = cc

module _ {ℓ κ} {E : Type 0} {A : Type ℓ} {B : Type κ} where
  pub bind-eq-ok :
      (m : Result E A) (f : A → Result E B) {b : B}
      → (m >>= f) ≡ ok b
      → (a : A) × (m ≡ ok a) × (f a ≡ ok b)
  bind-eq-ok (ok a) f h = (a, refl, h)
  bind-eq-ok (err e) f h = cc
  bind-eq-ok panic f h = cc

  pub bind_total :
      (m : Result E A) (f : A → Result E B)
      → m ≢ panic
      → ((a : A) → f a ≢ panic)
      → (m >>= f) ≢ panic
  bind_total (ok a) f h k = k a
  bind_total (err e) f h k = λ x. cc
  bind_total panic f h k = absurd (h refl)

-- What holds of a result where there is one.
abbrev pub Holds {ℓ κ} : {E : Type 0} {A : Type ℓ} → (A → Type κ) → Result E A → Type κ
Holds P (ok a) = P a
Holds P (err e) = Unit
Holds P panic = Unit

module _ {ℓ κ} {E : Type 0} {A : Type ℓ} (P : A → Type κ) where
  pub holds : (m : Result E A) → ((a : A) → m ≡ ok a → P a) → Holds P m
  holds (ok a) h = h a refl
  holds (err e) h = tt
  holds panic h = tt

  pub held : (m : Result E A) (a : A) → m ≡ ok a → Holds P m → P a
  held m a e h = subst (Holds P) e h

  pub bind-Holds {μ} :
      {B : Type μ} (Q : B → Type κ) (m : Result E B) (f : B → Result E A)
      → Holds Q m
      → ((b : B) → Q b → Holds P (f b))
      → Holds P (m >>= f)
  bind-Holds Q (ok b) f q k = k b q
  bind-Holds Q (err e) f q k = tt
  bind-Holds Q panic f q k = tt

  -- The first result does not matter.
  pub then-Holds {μ} :
      {B : Type μ} (m : Result E B) (f : B → Result E A)
      → ((b : B) → Holds P (f b))
      → Holds P (m >>= f)
  then-Holds (ok b) f k = k b
  then-Holds (err e) f k = tt
  then-Holds panic f k = tt

pub or_fail-ok {ℓ} :
    {E : Type 0} {A : Type ℓ} (o : Option A) (e : E) (a : A) → or_fail o e ≡ ok a → o ≡ some a
or_fail-ok none e a h = cc
or_fail-ok (some b) e a h = cc

pub guard-ok : {E : Type 0} (b : Bool) (e : E) (u : Unit {0}) → guard b e ≡ ok u → b ≡ true
guard-ok true e u h = refl
guard-ok false e u h = cc
