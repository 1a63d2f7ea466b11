-- ===== src/Prelude/Outcome.antt =====
-- include/kern/errno.h and kassert: return codes, and the outcome of kernel code.
use mathlib.Core.Path.{◌≡◌, refl}
use mathlib.Core.Bool.{Bool, true, false}

-- The return codes: 0, and the negated error numbers that the modelled code returns.
pub data Rc : Type 0 where
  ok : Rc
  eperm enoent esrch eintr eagain enomem efault ebusy einval edeadlk enodev : Rc

abbrev pub is_ok : Rc → Bool
is_ok ok = true
is_ok _ = false

-- `stop` is a failed kassert, or an access outside an object: the kernel does not go on.
pub data Exec {ℓ} (A : Type ℓ) : Type ℓ where
  done : A → Exec A
  stop : Exec A

infixl 5 ◌>>=◌ ◌>>◌
abbrev pub ◌>>=◌ {ℓ κ} : {A : Type ℓ} {B : Type κ} → Exec A → (A → Exec B) → Exec B
done a >>= f = f a
stop >>= f = stop

abbrev pub ◌>>◌ {ℓ} : {B : Type ℓ} → Exec (Unit {0}) → Exec B → Exec B
m >> k = m >>= λ _. k

abbrev pub kassert : Bool → Exec (Unit {0})
kassert true = done tt
kassert false = stop

pub >>=-eq-done {ℓ κ} :
    {A : Type ℓ} {B : Type κ} (m : Exec A) (f : A → Exec B) {b : B}
    → (m >>= f) ≡ done b
    → (a : A) × (m ≡ done a) × (f a ≡ done b)
>>=-eq-done (done a) f h = (a, refl, h)
>>=-eq-done stop f h = cc
