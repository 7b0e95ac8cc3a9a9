-- ===== src/Dtree/Outcome.antt =====
-- How a function of inotify_dtree.c ends.
use bookcode_linux.Common.{ℕ}

pub data Outcome {ℓ} (A : Type ℓ) : Type ℓ where
  -- it returns
  running : A → Outcome A
  -- exit(status)
  exited : ℕ → Outcome A
  -- abort()
  aborted : Outcome A
  -- a read of a variable that has no value yet
  undefined : Outcome A

infixl 5 ◌>>=◌
abbrev pub ◌>>=◌ {ℓ κ} : {A : Type ℓ} {B : Type κ} → Outcome A → (A → Outcome B) → Outcome B
running a >>= f = f a
exited n >>= f = exited n
aborted >>= f = aborted
undefined >>= f = undefined

abbrev pub exit_success : ℕ
exit_success = 0

abbrev pub exit_failure : ℕ
exit_failure = 1

-- If the function returns, `P` holds of what it returns.
abbrev pub Returns {ℓ} : {A : Type ℓ} → (A → Type 0) → Outcome A → Type 0
Returns P (running a) = P a
Returns P (exited n) = Unit
Returns P aborted = Unit
Returns P undefined = Unit

pub Returns->>= {ℓ κ} :
    {A : Type ℓ} {B : Type κ} (P : A → Type 0) (Q : B → Type 0) (m : Outcome A) (f : A → Outcome B)
    → Returns P m
    → ((a : A) → P a → Returns Q (f a))
    → Returns Q (m >>= f)
Returns->>= P Q (running a) f h k = k a h
Returns->>= P Q (exited n) f h k = tt
Returns->>= P Q aborted f h k = tt
Returns->>= P Q undefined f h k = tt
