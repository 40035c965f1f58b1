-- ===== src/Base/Results.antt =====
-- A computation that may throw one of the standard exceptions. What C++ leaves undefined is
-- counted among them, and so is a loop whose fuel has run out.
use mathlib.Core.Path.{◌≡◌, refl, sym, subst}
use mathlib.Core.Bool.{Bool, true, false}
use tcp_lab.Base.Tests.{if◌then◌else◌}

pub data Exception : Type 0 where
  out_of_range runtime_error undefined_behaviour out_of_fuel : Exception

pub data Result {ℓ} (A : Type ℓ) : Type ℓ where
  throw : Exception → Result A
  ok : A → Result A

-- What follows a call that threw is not run.
infixl 5 ◌>>=◌
abbrev pub ◌>>=◌ {ℓ ℓ'} :
    {A : Type ℓ} {B : Type ℓ'} (call : Result A) (next : A → Result B) → Result B
throw x >>= next = throw x
ok v >>= next = next v

-- What a computation returns, if it returns, has the property.
abbrev pub Ensures {ℓ} : {A : Type ℓ} → (A → Type 0) → Result A → Type 0
Ensures P (throw x) = Unit {0}
Ensures P (ok v) = P v

pub Ensures-any {ℓ} : {A : Type ℓ} → (r : Result A) → Ensures (λ _. Unit {0}) r
Ensures-any (throw x) = tt
Ensures-any (ok v) = tt

pub Ensures-bind {ℓ ℓ'} :
    {A : Type ℓ} {B : Type ℓ'} (Q : A → Type 0) (P : B → Type 0) (r : Result A) (f : A → Result B)
    → Ensures Q r
    → ((x : A) → Q x → Ensures P (f x))
    → Ensures P (r >>= f)
Ensures-bind Q P (throw x) f h k = tt
Ensures-bind Q P (ok v) f h k = k v h

pub Ensures-if {ℓ} :
    {A : Type ℓ} (P : A → Type 0) (b : Bool) (x y : Result A)
    → Ensures P x
    → Ensures P y
    → Ensures P (if b then x else y)
Ensures-if P true x y h k = h
Ensures-if P false x y h k = k

pub bind-ok {ℓ} : {A : Type ℓ} → (r : Result A) → (r >>= (λ v. ok v)) ≡ r
bind-ok (throw x) = refl
bind-ok (ok v) = refl

-- The computation returns a value that has the property.
abbrev pub Total : {A : Type 0} → (A → Type 0) → Result A → Type 0
Total {A} P r = (v : A) × (r ≡ ok v) × P v

pub Total-bind :
    {A B : Type 0} (Q : A → Type 0) (P : B → Type 0) (r : Result A) (f : A → Result B)
    → Total Q r
    → ((x : A) → Q x → Total P (f x))
    → Total P (r >>= f)
Total-bind Q P r f (v, e, q) k = let (w, e', p) = k v q in (w, rw e e', p)

pub Total-if :
    {A : Type 0} (P : A → Type 0) (b : Bool) (x y : Result A)
    → Total P x
    → Total P y
    → Total P (if b then x else y)
Total-if P true x y h k = h
Total-if P false x y h k = k

pub ok_injective : {A : Type 0} (v w : A) → ok v ≡ ok w → v ≡ w
ok_injective v w e = cc

-- What is known of the last value is known of the call that gave it.
pub Total-of :
    {A B : Type 0} (g : A → B) (P : B → Type 0) (m : Result A) (u : B)
    → (m >>= (λ v. ok (g v))) ≡ ok u
    → P u
    → Total (λ v. P (g v)) m
Total-of g P (throw x) u e h = cc
Total-of g P (ok v) u e h = (v, refl, subst P (sym (ok_injective _ _ e)) h)

-- The computation throws nothing but runtime_error, and what it returns has the property.
abbrev pub Safe : {A : Type 0} → (A → Type 0) → Result A → Type 0
Safe P (throw x) = x ≡ runtime_error
Safe P (ok v) = P v

pub Safe-bind :
    {A B : Type 0} (Q : A → Type 0) (P : B → Type 0) (r : Result A) (f : A → Result B)
    → Safe Q r
    → ((x : A) → Q x → Safe P (f x))
    → Safe P (r >>= f)
Safe-bind Q P (throw x) f h k = h
Safe-bind Q P (ok v) f h k = k v h

pub Safe-if :
    {A : Type 0} (P : A → Type 0) (b : Bool) (x y : Result A)
    → (b ≡ true → Safe P x)
    → (b ≡ false → Safe P y)
    → Safe P (if b then x else y)
Safe-if P true x y h k = h refl
Safe-if P false x y h k = k refl

pub Safe-weaken :
    {A : Type 0} (P Q : A → Type 0) (r : Result A) → ((x : A) → P x → Q x) → Safe P r → Safe Q r
Safe-weaken P Q (throw x) f h = h
Safe-weaken P Q (ok v) f h = f v h
