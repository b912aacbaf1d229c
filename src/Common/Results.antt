-- ===== src/Common/Results.antt =====
-- What a Rust call ends in: a value, an error value, or a panic.
use mathlib.Core.Option.{Option, none, some}
use mathlib.Core.Bool.{Bool, true, false}
use sart.Common.Tests.{if◌then◌else◌}
use mathlib.Core.Path.{◌≡◌, refl, subst}

pub data Outcome {ℓ κ} (E : Type ℓ) (A : Type κ) : Type (ℓ ⊔ κ) where
  ok : A → Outcome E A
  err : E → Outcome E A
  panic : Outcome E A

-- The `?` operator.
infixl 5 ◌>>=◌
abbrev pub ◌>>=◌ {ℓ κ μ} :
    {E : Type ℓ} {A : Type κ} {B : Type μ} → Outcome E A → (A → Outcome E B) → Outcome E B
ok a >>= f = f a
err e >>= f = err e
panic >>= f = panic

-- `map_err`
abbrev pub map_err {ℓ κ μ} :
    {E : Type ℓ} {F : Type κ} {A : Type μ} → (E → F) → Outcome E A → Outcome F A
map_err f (ok a) = ok a
map_err f (err e) = err (f e)
map_err f panic = panic

-- `xs[i]`, which panics out of bounds.
abbrev pub or_panic {ℓ κ} : {E : Type ℓ} {A : Type κ} → Option A → Outcome E A
or_panic none = panic
or_panic (some a) = ok a

-- `ok_or(e)`
abbrev pub ok_or {ℓ κ} : {E : Type ℓ} {A : Type κ} → E → Option A → Outcome E A
ok_or e none = err e
ok_or e (some a) = ok a

pub bind_assoc :
    {E A B C : Type 0} (m : Outcome E A) (f : A → Outcome E B) (g : B → Outcome E C)
    → m >>= (λ x. f x >>= g) ≡ (m >>= f) >>= g
bind_assoc (ok x) f g = refl
bind_assoc (err e) f g = refl
bind_assoc panic f g = refl

-- Every value that a call returns has the property.
abbrev pub Always {ℓ κ μ} : {E : Type ℓ} {A : Type κ} → (A → Type μ) → Outcome E A → Type μ
Always P (ok a) = P a
Always P (err e) = Unit
Always P panic = Unit

pub bind-Always :
    {E A B : Type 0} (P : A → Type 0) (Q : B → Type 0) (m : Outcome E A) (f : A → Outcome E B)
    → Always P m
    → ((a : A) → P a → Always Q (f a))
    → Always Q (m >>= f)
bind-Always P Q (ok a) f h k = k a h
bind-Always P Q (err e) f h k = tt
bind-Always P Q panic f h k = tt

pub ok-Always :
    {E A : Type 0} (P : A → Type 0) (m : Outcome E A) (a : A) → Always P m → m ≡ ok a → P a
ok-Always P m a h e = subst (Always P) e h

pub Always-map :
    {E A : Type 0} (P Q : A → Type 0) (m : Outcome E A)
    → Always P m
    → ((a : A) → P a → Q a)
    → Always Q m
Always-map P Q (ok a) h k = k a h
Always-map P Q (err e) h k = tt
Always-map P Q panic h k = tt

pub any-Always : {E A : Type 0} (m : Outcome E A) → Always (λ _. Unit {0}) m
any-Always (ok a) = tt
any-Always (err e) = tt
any-Always panic = tt

-- A step after a call of which nothing is needed.
pub then-Always :
    {E A B : Type 0} (Q : B → Type 0) (m : Outcome E A) (f : A → Outcome E B)
    → ((a : A) → Always Q (f a))
    → Always Q (m >>= f)
then-Always Q m f k = bind-Always (λ _. Unit) Q m f (any-Always m) (λ a _. k a)

pub if-Always :
    {E A : Type 0} (P : A → Type 0) (c : Bool) (x y : Outcome E A)
    → (c ≡ true → Always P x)
    → (c ≡ false → Always P y)
    → Always P (if c then x else y)
if-Always P true x y h k = h refl
if-Always P false x y h k = k refl

pub Always-both :
    {E A : Type 0} (P Q : A → Type 0) (m : Outcome E A)
    → Always P m
    → Always Q m
    → Always (λ a. P a × Q a) m
Always-both P Q (ok a) h k = (h, k)
Always-both P Q (err e) h k = tt
Always-both P Q panic h k = tt
