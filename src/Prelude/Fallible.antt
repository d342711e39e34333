-- ===== src/Prelude/Fallible.antt =====
-- Go's `(value, error)` results: a value, or an error and no value.
use mathlib.Core.Logic.{◌⊎◌, inl, inr}
use mathlib.Core.Option.{Option, none, some}
use mathlib.Core.Path.{◌≡◌, refl}

pub data Result {ℓ κ} (E : Type ℓ) (A : Type κ) : Type (ℓ ⊔ κ) where
  ok : A → Result E A
  err : E → Result E A

infixl 5 ◌>>=◌ ◌>>◌
abbrev pub ◌>>=◌ {ℓ κ μ} :
    {E : Type ℓ} {A : Type κ} {B : Type μ} → Result E A → (A → Result E B) → Result E B
ok a >>= f = f a
err e >>= f = err e

abbrev pub ◌>>◌ {ℓ κ} : {E : Type ℓ} {B : Type κ} → Result E (Unit {0}) → Result E B → Result E B
m >> k = m >>= λ _. k

-- What a chain that succeeds has gone through.
pub bind_ok {ℓ κ μ} :
    {E : Type ℓ} {A : Type κ} {B : Type μ} (m : Result E A) (f : A → Result E B) (b : B)
    → (m >>= f) ≡ ok b
    → (a : A) × ((m ≡ ok a) × (f a ≡ ok b))
bind_ok (ok a) f b h = (a, (refl, h))
bind_ok (err e) f b h = cc

-- A chain fails at its first part or in what follows.
pub bind_err {ℓ κ μ} :
    {E : Type ℓ} {A : Type κ} {B : Type μ} (m : Result E A) (f : A → Result E B) (e : E)
    → (m >>= f) ≡ err e
    → (m ≡ err e) ⊎ ((a : A) × ((m ≡ ok a) × (f a ≡ err e)))
bind_err (ok a) f e h = inr (a, (refl, h))
bind_err (err e') f e h = inl (cc)

abbrev pub or_fail {ℓ κ} : {E : Type ℓ} {A : Type κ} → E → Option A → Result E A
or_fail e none = err e
or_fail e (some a) = ok a

-- An error that is passed on with a text in front.
abbrev pub relabel {ℓ κ μ} :
    {D : Type ℓ} {E : Type κ} {A : Type μ} → (D → E) → Result D A → Result E A
relabel f (err e) = err (f e)
relabel f (ok a) = ok a

-- What is relabelled has failed before.
pub relabel_err {ℓ κ μ} :
    {D : Type ℓ} {E : Type κ} {A : Type μ} (f : D → E) (m : Result D A) (e : E)
    → relabel f m ≡ err e
    → (d : D) × ((m ≡ err d) × (f d ≡ e))
relabel_err f (ok a) e h = cc
relabel_err f (err d) e h = (d, (refl, cc))

-- What follows a chain follows its last part.
pub bind_then {ℓ κ μ ν} :
    {E : Type ℓ} {A : Type κ} {B : Type μ} {C : Type ν} (m : Result E A) (f : A → Result E B)
    (g : B → Result E C) (f' : A → Result E C)
    → ((a : A) → (f a >>= g) ≡ f' a)
    → (m >>= f >>= g) ≡ (m >>= f')
bind_then (ok a) f g f' h = h a
bind_then (err e) f g f' h = refl

pub or_fail_err {ℓ κ} :
    {E : Type ℓ} {A : Type κ} (e' : E) (o : Option A) (e : E) → or_fail e' o ≡ err e → e' ≡ e
or_fail_err e' none e h = cc
or_fail_err e' (some a) e h = cc

pub relabel_ok {ℓ κ μ} :
    {D : Type ℓ} {E : Type κ} {A : Type μ} (f : D → E) (m : Result D A) {a : A}
    → relabel f m ≡ ok a
    → m ≡ ok a
relabel_ok f (ok a) h = cc
relabel_ok f (err d) h = cc
