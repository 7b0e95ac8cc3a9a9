-- ===== src/Common/Tally.antt =====
-- Sums over the elements of a list, for counting.
use Prim.Native.Nat.{ℕ, zero, suc, ◌+◌, ◌≤◌, ◌<◌}
use mathlib.Core.Path.{◌≡◌, refl, ap}
use mathlib.Core.Logic.{◌⊎◌, inl, inr}
use mathlib.Core.List.{List, [], ◌∷◌, ◌++◌}
use native.Mathlib.Omega.{arith}
use bookcode_linux.Common.Lists.{length, All}

pub zero_or_more : (n : ℕ) → (n ≡ 0) ⊎ (0 < n)
zero_or_more zero = inl refl
zero_or_more (suc n) = inr (omega arith)

module _ {ℓ} {A : Type ℓ} where
  abbrev pub tally : (A → ℕ) → List A → ℕ
  tally f [] = 0
  tally f (x ∷ xs) = f x + tally f xs

  pub tally-append : (f : A → ℕ) (xs ys : List A) → tally f (xs ++ ys) ≡ tally f xs + tally f ys
  tally-append f [] ys = omega arith
  tally-append f (x ∷ xs) ys = omega (arith, tally-append f xs ys)

  -- An element changes, and the sum by as much.
  pub tally-change :
      (f : A → ℕ) (pre : List A) (x y : A) (post : List A)
      → tally f (pre ++ y ∷ post) + f x ≡ tally f (pre ++ x ∷ post) + f y
  tally-change f pre x y post =
      omega (arith, tally-append f pre (x ∷ post), tally-append f pre (y ∷ post))

  -- The place of an element in a list.
  abbrev pub Place : (A → Type 0) → List A → Type ℓ
  Place P xs = (pre : List A) × (x : A) × (post : List A) × (xs ≡ pre ++ x ∷ post) × P x

  -- A sum above 0 has a summand above 0.
  pub tally-Place : (f : A → ℕ) (xs : List A) → 0 < tally f xs → Place (λ x. 0 < f x) xs
  tally-Place f [] more = absurd (omega arith)
  tally-Place f (x ∷ xs) more = elim (zero_or_more (f x)) [
    | inl e ↦
        let (pre, y, post, eq, p) = tally-Place f xs (omega (arith, e)) in
        (x ∷ pre, y, post, ap (◌∷◌ x) eq, p)
    | inr p ↦ ([], x, xs, refl, p)
  ]

  -- A sum of 0 has no summand above 0.
  pub tally-zero : (f : A → ℕ) (xs : List A) → tally f xs ≡ 0 → All (λ x. f x ≡ 0) xs
  tally-zero f [] e = tt
  tally-zero f (x ∷ xs) e = (omega arith, tally-zero f xs (omega arith))

  pub All-change :
      (P : A → Type 0) (pre : List A) (x y : A) (post : List A)
      → (P x → P y)
      → All P (pre ++ x ∷ post)
      → All P (pre ++ y ∷ post)
  All-change P [] x y post keep (p, ps) = (keep p, ps)
  All-change P (z ∷ pre) x y post keep (p, ps) = (p, All-change P pre x y post keep ps)

  pub All-at :
      (P : A → Type 0) (pre : List A) (x : A) (post : List A) → All P (pre ++ x ∷ post) → P x
  All-at P [] x post (p, ps) = p
  All-at P (z ∷ pre) x post (p, ps) = All-at P pre x post ps

  pub All-snoc : (P : A → Type 0) (xs : List A) (x : A) → All P xs → P x → All P (xs ++ x ∷ [])
  All-snoc P [] x ps p = (p, tt)
  All-snoc P (y ∷ xs) x (q, ps) p = (q, All-snoc P xs x ps p)

  pub length-change :
      (pre : List A) (x y : A) (post : List A) → length (pre ++ x ∷ post) ≡ length (pre ++ y ∷ post)
  length-change [] x y post = refl
  length-change (z ∷ pre) x y post = omega (arith, length-change pre x y post)

  -- The element at an index.
  pub index-Place :
      (xs : List A) (i : ℕ)
      → i < length xs
      → (pre : List A) × (x : A) × (post : List A) × (xs ≡ pre ++ x ∷ post) × (length pre ≡ i)
  index-Place [] i lt = absurd (omega arith)
  index-Place (x ∷ xs) zero lt = ([], x, xs, refl, refl)
  index-Place (x ∷ xs) (suc i) lt =
      let (pre, y, post, eq, at) = index-Place xs i (omega arith) in
      (x ∷ pre, y, post, ap (◌∷◌ x) eq, omega (arith, at))

  pub tally-at :
      (f : A → ℕ) (pre : List A) (x : A) (post : List A) → f x ≤ tally f (pre ++ x ∷ post)
  tally-at f [] x post = omega arith
  tally-at f (y ∷ pre) x post = omega (arith, tally-at f pre x post)

  pub tally_le : (f g : A → ℕ) → ((x : A) → f x ≤ g x) → (xs : List A) → tally f xs ≤ tally g xs
  tally_le f g le [] = omega arith
  tally_le f g le (x ∷ xs) = omega (arith, le x, tally_le f g le xs)

  pub tally_none :
      (f g : A → ℕ)
      → ((x : A) → f x ≡ 0 → g x ≡ 0)
      → (xs : List A) → tally f xs ≡ 0
      → tally g xs ≡ 0
  tally_none f g none_of [] e = refl
  tally_none f g none_of (x ∷ xs) e =
      omega (arith, none_of x (omega (arith, e)), tally_none f g none_of xs (omega (arith, e)))
