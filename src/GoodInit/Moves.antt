-- ===== src/GoodInit/Moves.antt =====
-- svsem_good_init.c: the moves of a process and what holds at any time.
use bookcode_linux.Common.{
  ℕ, suc, ◌+◌, ◌<◌, ◌≡◌, inl, inr, refl, Bool, true, false, List, ◌∷◌, ◌++◌, arith,
}
use bookcode_linux.Common.Tally.{tally, tally-change, tally-at, tally_le, tally_none}
use bookcode_linux.GoodInit.{Op, begins, created, inited, polling, ready, finished, Proc, proc}
use bookcode_linux.GoodInit.Invariant.{
  busy, creating, has_set, using, raise, lower, raised, lowered, At, creating_le, using_le,
  has_set_le, unused_counts,
}

pub not_before :
    (o : Bool) (v : ℕ) (pre : List Proc) (x : Proc) (post : List Proc)
    → 0 < busy x
    → At false o v (pre ++ x ∷ post)
    → ⊥
not_before false v pre x post b a = omega (arith, b, a, tally-at busy pre x post)
not_before true v pre x post b a = a

-- A process moves on without a change that the others see.
pub At-same :
    (o : Bool) (v : ℕ) (pre : List Proc) (x y : Proc) (post : List Proc)
    → creating x ≡ creating y
    → has_set x ≡ has_set y
    → using x ≡ using y
    → lowered x ≡ lowered y
    → raised x ≡ raised y
    → At true o v (pre ++ x ∷ post)
    → At true o v (pre ++ y ∷ post)
At-same false v pre x y post c h u d r (a, b, inl e) = (
  omega (arith, a, c, tally-change creating pre x y post),
  omega (arith, b, u, tally-change using pre x y post),
  inl (omega (arith, e, h, tally-change has_set pre x y post)),
)
At-same false v pre x y post c h u d r (a, b, inr e) = (
  omega (arith, a, c, tally-change creating pre x y post),
  omega (arith, b, u, tally-change using pre x y post),
  inr e,
)
At-same true v pre x y post c h u d r (a, b) = (
  omega (arith, a, c, tally-change creating pre x y post),
  omega (arith, b, d, r, tally-change lowered pre x y post, tally-change raised pre x y post),
)

-- The move of `create`.
pub create-At :
    (otime : Bool) (v w : ℕ) (pre : List Proc) (o : Op) (post : List Proc)
    → At false otime v (pre ++ proc begins o ∷ post)
    → At true false w (pre ++ proc created o ∷ post)
create-At true v w pre o post a = absurd a
create-At false v w pre o post a =
    let ps : List Proc = pre ++ proc begins o ∷ post in
    let c : tally creating ps ≡ 0 =
      omega (arith, a, tally_le creating busy (λ p. creating_le p.place p.op) ps) in
    let u : tally using ps ≡ 0 =
      omega (arith, a, tally_le using busy (λ p. using_le p.place p.op) ps) in
    let h : tally has_set ps ≡ 0 =
      omega (arith, c, tally_le has_set creating (λ p. has_set_le p.place p.op) ps) in
    (
      omega (arith, c, tally-change creating pre (proc begins o) (proc created o) post),
      omega (arith, u, tally-change using pre (proc begins o) (proc created o) post),
      inl (omega (arith, h, tally-change has_set pre (proc begins o) (proc created o) post)),
    )

-- The move of `set_val`.
pub set_val-At :
    (otime : Bool) (v : ℕ) (pre : List Proc) (o : Op) (post : List Proc)
    → At true otime v (pre ++ proc created o ∷ post)
    → At true otime 0 (pre ++ proc inited o ∷ post)
set_val-At false v pre o post (a, b, h) = (
  omega (arith, a, tally-change creating pre (proc created o) (proc inited o) post),
  omega (arith, b, tally-change using pre (proc created o) (proc inited o) post),
  inr refl,
)
set_val-At true v pre o post (a, b) =
    absurd (omega (arith, a, tally-at creating pre (proc created o) post))

-- The move of `dummy_op`.
pub dummy_op-At :
    (otime : Bool) (v : ℕ) (pre : List Proc) (o : Op) (post : List Proc)
    → v ≡ 0
    → At true otime v (pre ++ proc inited o ∷ post)
    → At true true v (pre ++ proc ready o ∷ post)
dummy_op-At true v pre o post z (a, b) =
    absurd (omega (arith, a, tally-at creating pre (proc inited o) post))
dummy_op-At false v pre o post z (a, b, h) =
    let ps : List Proc = pre ++ proc inited o ∷ post in
    let d : tally lowered ps ≡ 0 =
      tally_none using lowered (λ p. unused_counts p.place (lower p.op) p.op) ps b in
    let r : tally raised ps ≡ 0 =
      tally_none using raised (λ p. unused_counts p.place (raise p.op) p.op) ps b in
    (
      omega (arith, a, tally-change creating pre (proc inited o) (proc ready o) post),
      omega (
        arith,
        z,
        d,
        r,
        tally-change lowered pre (proc inited o) (proc ready o) post,
        tally-change raised pre (proc inited o) (proc ready o) post,
      ),
    )

-- The move of an operation on the semaphore.
pub op-At :
    (otime : Bool) (v w : ℕ) (pre : List Proc) (o : Op) (post : List Proc)
    → w + lower o ≡ v + raise o
    → At true otime v (pre ++ proc ready o ∷ post)
    → At true true w (pre ++ proc finished o ∷ post)
op-At false v w pre o post e (a, b, h) =
    absurd (omega (arith, b, tally-at using pre (proc ready o) post))
op-At true v w pre o post e (a, b) = (
  omega (arith, a, tally-change creating pre (proc ready o) (proc finished o) post),
  omega (
    arith,
    b,
    e,
    tally-change lowered pre (proc ready o) (proc finished o) post,
    tally-change raised pre (proc ready o) (proc finished o) post,
  ),
)

-- The move of `see_init`.
pub see_init-At :
    (v : ℕ) (pre : List Proc) (o : Op) (j : ℕ) (post : List Proc)
    → At true true v (pre ++ proc (polling (suc j)) o ∷ post)
    → At true true v (pre ++ proc ready o ∷ post)
see_init-At v pre o j post (a, b) = (
  omega (arith, a, tally-change creating pre (proc (polling (suc j)) o) (proc ready o) post),
  omega (
    arith,
    b,
    tally-change lowered pre (proc (polling (suc j)) o) (proc ready o) post,
    tally-change raised pre (proc (polling (suc j)) o) (proc ready o) post,
  ),
)
