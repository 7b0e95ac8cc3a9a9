-- ===== src/ChangeCase/Invariant.antt =====
-- What holds in every state of change_case.c.
use bookcode_linux.Common.{
  ◌≤◌, ◌<◌, ◌≡◌, ◌⊎◌, inl, inr, refl, ap, sym, ◌∙◌, subst, [], ◌∷◌, ◌++◌, Bytes, length, take, drop,
  arith, append_assoc, take_all, length-drop, List-cases,
}
use bookcode_linux.ChangeCase.{
  buf_size, toupper, upper, Parent, reading, sending, receiving, printing, finished, Child,
  listening, answering, gone, State, ParentStep, ChildStep,
}

pub upper-append : (s t : Bytes) → upper (s ++ t) ≡ upper s ++ upper t
upper-append [] t = refl
upper-append (c ∷ s) t = ap (◌∷◌ (toupper c)) (upper-append s t)

pub length-upper : (s : Bytes) → length (upper s) ≡ length s
length-upper [] = refl
length-upper (c ∷ s) = omega (arith, length-upper s)

-- A block that fits a buffer.
abbrev pub IsBlock : Bytes → Type 0
IsBlock b = (0 < length b) × (length b ≤ buf_size)

-- What the pipes hold, and the block on its way as it will be printed, by where the processes
-- stand.
abbrev pub Flight : Parent → Child → Bytes → Bytes → Bytes → Type 0
Flight reading listening out inb b = (out ≡ []) × (inb ≡ []) × (b ≡ [])
Flight (sending block) listening out inb b =
    (out ≡ []) × (inb ≡ []) × (b ≡ upper block) × IsBlock block
Flight receiving listening out inb b =
    (IsBlock out × (inb ≡ []) × (b ≡ upper out)) ⊎ ((out ≡ []) × IsBlock inb × (b ≡ inb))
Flight receiving (answering block) out inb b =
    (out ≡ []) × (inb ≡ []) × (b ≡ upper block) × IsBlock block
Flight (printing block) listening out inb b = (out ≡ []) × (inb ≡ []) × (b ≡ block)
Flight finished listening out inb b = (out ≡ []) × (inb ≡ []) × (b ≡ [])
Flight finished gone out inb b = (out ≡ []) × (inb ≡ []) × (b ≡ [])
Flight p c out inb b = ⊥

-- Nothing is left of the input when the parent is at its end.
abbrev pub AtEnd : Parent → Bytes → Type 0
AtEnd finished stdin = stdin ≡ []
AtEnd p stdin = Unit

-- The output, the block on its way and the rest of the input make up the input in capitals.
abbrev pub Holds : Bytes → Parent → Child → State → Type 0
Holds input p c s =
    (b : Bytes) × Flight p c s.outbound s.inbound b
    × (s.stdout ++ (b ++ upper s.stdin) ≡ upper input)
    × AtEnd p s.stdin

abbrev pub Invariant : Bytes → State → Type 0
Invariant input s = Holds input s.parent s.child s

take_block : (b : Bytes) → length b ≤ buf_size → take buf_size b ≡ b
take_block b h = take_all buf_size b h

drop_block : (b : Bytes) → length b ≤ buf_size → drop buf_size b ≡ []
drop_block b h = elim (List-cases (drop buf_size b)) [
  | inl e ↦ e
  | inr (x, r, e) ↦ absurd (omega (arith, length-drop buf_size b, ap length e))
]

upper-IsBlock : (b : Bytes) → IsBlock b → IsBlock (upper b)
upper-IsBlock b (more, fits) =
    (omega (arith, length-upper b, more), omega (arith, length-upper b, fits))

ParentStep-Holds :
    (input : Bytes) (p : Parent) (c : Child) {s s' : State}
    → s.child ≡ c
    → ParentStep s p s'
    → Holds input p c s
    → Holds input s'.parent c s'
ParentStep-Holds input _ listening {s} e (ParentStep.read_input block rest h more fits)
      (b, (o, n, z), w, l) =
    (
      upper block,
      (o, n, refl, (more, fits)),
      ap (λ t. s.stdout ++ t)
            (sym (upper-append block rest)
              ∙ ap upper (sym h)
              ∙ ap (λ t. t ++ upper s.stdin) (sym z))
          ∙ w,
      tt,
    )
ParentStep-Holds input _ listening e (ParentStep.at_end h) (b, f, w, l) = (b, f, w, h)
ParentStep-Holds input _ listening {s} e (ParentStep.send block) (b, (o, n, z, fits), w, l) = (
  b,
  inl (
    subst IsBlock (sym (ap (λ t. t ++ block) o)) fits,
    n,
    z ∙ ap (λ t. upper (t ++ block)) (sym o),
  ),
  w,
  tt,
)
ParentStep-Holds input _ listening e (ParentStep.receive more) (b, inl (fits, n, z), w, l) =
    absurd (omega (arith, more, ap length n))
ParentStep-Holds input _ listening {s} e (ParentStep.receive more) (b, inr (o, fits, z), w, l) =
    (b, (o, drop_block s.inbound fits.1, z ∙ sym (take_block s.inbound fits.1)), w, tt)
ParentStep-Holds input _ (answering block) e (ParentStep.receive more) (b, (o, n, z, fits), w, l) =
    absurd (omega (arith, more, ap length n))
ParentStep-Holds input _ listening e (ParentStep.child_gone h h') i =
    absurd (child_alive (sym e ∙ h'))
  where
    child_alive : listening ≡ gone → ⊥
    child_alive k = cc
ParentStep-Holds input _ (answering block) e (ParentStep.child_gone h h') i =
    absurd (child_alive (sym e ∙ h'))
  where
    child_alive : answering block ≡ gone → ⊥
    child_alive k = cc
ParentStep-Holds input _ listening {s} e (ParentStep.print block) (b, (o, n, z), w, l) = (
  [],
  (o, n, refl),
  append_assoc s.stdout block (upper s.stdin)
      ∙ ap (λ t. s.stdout ++ (t ++ upper s.stdin)) (sym z)
      ∙ w,
  tt,
)
ParentStep-Holds input _ (answering held) e (ParentStep.read_input block rest h more fits)
      (b, f, w, l) =
    absurd f
ParentStep-Holds input _ (answering held) e (ParentStep.at_end h) (b, f, w, l) = absurd f
ParentStep-Holds input _ (answering held) e (ParentStep.send block) (b, f, w, l) = absurd f
ParentStep-Holds input _ (answering held) e (ParentStep.print block) (b, f, w, l) = absurd f
ParentStep-Holds input _ gone e (ParentStep.read_input block rest h more fits) (b, f, w, l) =
    absurd f
ParentStep-Holds input _ gone e (ParentStep.at_end h) (b, f, w, l) = absurd f
ParentStep-Holds input _ gone e (ParentStep.send block) (b, f, w, l) = absurd f
ParentStep-Holds input _ gone e (ParentStep.print block) (b, f, w, l) = absurd f
ParentStep-Holds input _ gone e (ParentStep.receive more) (b, f, w, l) = absurd f
ParentStep-Holds input _ gone e (ParentStep.child_gone h h') (b, f, w, l) = absurd f

pub ParentStep-Invariant :
    (input : Bytes) {s s' : State}
    → ParentStep s s.parent s'
    → (s'.child ≡ s.child)
    → Invariant input s
    → Invariant input s'
ParentStep-Invariant input {s} {s'} step same i =
    subst (λ c. Holds input s'.parent c s') (sym same)
      (ParentStep-Holds input s.parent s.child refl step i)

ChildStep-Holds :
    (input : Bytes) (p : Parent) (c : Child) {s s' : State}
    → s.parent ≡ p
    → ChildStep s c s'
    → Holds input p c s
    → Holds input p s'.child s'
ChildStep-Holds input receiving _ {s} e (ChildStep.read_block more) (b, inl (fits, n, z), w, l) = (
  b,
  (
    drop_block s.outbound fits.1,
    n,
    z ∙ ap upper (sym (take_block s.outbound fits.1)),
    subst IsBlock (sym (take_block s.outbound fits.1)) fits,
  ),
  w,
  tt,
)
ChildStep-Holds input receiving _ e (ChildStep.read_block more) (b, inr (o, k, z), w, l) =
    absurd (omega (arith, more, ap length o))
ChildStep-Holds input reading _ e (ChildStep.read_block more) (b, (o, n, z), w, l) =
    absurd (omega (arith, more, ap length o))
ChildStep-Holds input (sending block) _ e (ChildStep.read_block more) (b, (o, n, z, fits), w, l) =
    absurd (omega (arith, more, ap length o))
ChildStep-Holds input (printing block) _ e (ChildStep.read_block more) (b, (o, n, z), w, l) =
    absurd (omega (arith, more, ap length o))
ChildStep-Holds input finished _ e (ChildStep.read_block more) (b, (o, n, z), w, l) =
    absurd (omega (arith, more, ap length o))
ChildStep-Holds input finished _ e (ChildStep.see_end h h') (b, f, w, l) = (b, f, w, l)
ChildStep-Holds input reading _ e (ChildStep.see_end h h') i = absurd (going (sym e ∙ h'))
  where
    going : reading ≡ finished → ⊥
    going k = cc
ChildStep-Holds input receiving _ e (ChildStep.see_end h h') i = absurd (going (sym e ∙ h'))
  where
    going : receiving ≡ finished → ⊥
    going k = cc
ChildStep-Holds input (sending block) _ e (ChildStep.see_end h h') i = absurd (going (sym e ∙ h'))
  where
    going : sending block ≡ finished → ⊥
    going k = cc
ChildStep-Holds input (printing block) _ e (ChildStep.see_end h h') i = absurd (going (sym e ∙ h'))
  where
    going : printing block ≡ finished → ⊥
    going k = cc
ChildStep-Holds input receiving _ {s} e (ChildStep.answer block) (b, (o, n, z, fits), w, l) = (
  b,
  inr (
    o,
    subst IsBlock (sym (ap (λ t. t ++ upper block) n)) (upper-IsBlock block fits),
    z ∙ ap (λ t. t ++ upper block) (sym n),
  ),
  w,
  tt,
)
ChildStep-Holds input reading _ e (ChildStep.answer block) (b, f, w, l) = absurd f
ChildStep-Holds input (sending held) _ e (ChildStep.answer block) (b, f, w, l) = absurd f
ChildStep-Holds input (printing held) _ e (ChildStep.answer block) (b, f, w, l) = absurd f
ChildStep-Holds input finished _ e (ChildStep.answer block) (b, f, w, l) = absurd f

pub ChildStep-Invariant :
    (input : Bytes) {s s' : State}
    → ChildStep s s.child s'
    → (s'.parent ≡ s.parent)
    → Invariant input s
    → Invariant input s'
ChildStep-Invariant input {s} {s'} step same i =
    subst (λ p. Holds input p s'.child s') (sym same)
      (ChildStep-Holds input s.parent s.child refl step i)
