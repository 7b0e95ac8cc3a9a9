-- ===== src/Common/Loops.antt =====
-- Loops whose body either goes round again or stops with a result, and the rule that proves one
-- total and correct from an invariant and a measure.
use Prim.Native.Nat.{ℕ, zero, suc, ◌<◌}
use mathlib.Core.Path.{◌≡◌, refl}
use mathlib.Core.Option.{Option, none, some}
use native.Mathlib.Omega.{arith}

-- What one round of a loop decides.
pub data Next {ℓ κ} (S : Type ℓ) (R : Type κ) : Type (ℓ ⊔ κ) where
  again : S → Next S R
  stop : R → Next S R

-- The loop ends, with a result of which `Q` holds.
abbrev pub Ends {κ} : {R : Type κ} → (R → Type 0) → Option R → Type κ
Ends {R} Q o = (r : R) × (o ≡ some r) × Q r

module _ {ℓ κ} {S : Type ℓ} {R : Type κ} where
  -- At most `fuel` rounds; `none` means that they did not suffice.
  unfoldable pub loop : ℕ → (S → Next S R) → S → Option R
  loop zero body s = none
  loop (suc fuel) body s = elim (body s) [ again s' ↦ loop fuel body s' | stop r ↦ some r ]

  -- One round keeps the invariant and lowers the measure, or stops with what was promised.
  abbrev pub Good : (S → Type 0) → (R → Type 0) → (S → ℕ) → S → Next S R → Type 0
  Good P Q m s (again s') = P s' × (m s' < m s)
  Good P Q m s (stop r) = Q r

  pub loop_rule :
      (P : S → Type 0) (Q : R → Type 0) (m : S → ℕ) (body : S → Next S R)
      → ((s : S) → P s → Good P Q m s (body s))
      → (fuel : ℕ) (s : S) → m s < fuel
      → P s
      → Ends Q (loop fuel body s)
  unfolding loop
  loop_rule P Q m body keep zero s lt p = absurd (omega arith)
  loop_rule P Q m body keep (suc fuel) s lt p =
      round (loop_rule P Q m body keep fuel) (body s) (keep s p)
    where
      round :
          ((t : S) → m t < fuel → P t → Ends Q (loop fuel body t))
          → (b : Next S R) → Good P Q m s b
          → Ends Q (elim b [ again s' ↦ loop fuel body s' | stop r ↦ some r ])
      round rest (again s') g = rest s' (omega arith) g.0
      round rest (stop r) g = (r, refl, g)
