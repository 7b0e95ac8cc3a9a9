-- ===== src/ChangeCase/Laws.antt =====
-- change_case.c prints its input in capitals, and no state is stuck.
use bookcode_linux.Common.{
  ◌≡◌, ◌⊎◌, inl, inr, refl, sym, ◌∙◌, ap, subst, [], ◌∷◌, ◌++◌, Bytes, arith, List-cases,
  append-nil,
}
use bookcode_linux.ChangeCase.{
  upper, Parent, reading, sending, receiving, printing, finished, Child, listening, answering, gone,
  State, ParentStep, ChildStep, Step, Reach, begin, next,
}
use bookcode_linux.ChangeCase.Invariant.{
  Holds, Invariant, ParentStep-Invariant, ChildStep-Invariant,
}

same_child : {s s' : State} (p : Parent) → ParentStep s p s' → s'.child ≡ s.child
same_child _ (ParentStep.read_input block rest h more fits) = refl
same_child _ (ParentStep.at_end h) = refl
same_child _ (ParentStep.send block) = refl
same_child _ (ParentStep.receive more) = refl
same_child _ (ParentStep.child_gone h h') = refl
same_child _ (ParentStep.print block) = refl

same_parent : {s s' : State} (c : Child) → ChildStep s c s' → s'.parent ≡ s.parent
same_parent _ (ChildStep.read_block more) = refl
same_parent _ (ChildStep.see_end h h') = refl
same_parent _ (ChildStep.answer block) = refl

Reach-Invariant : (input : Bytes) (s : State) → Reach input s → Invariant input s
Reach-Invariant input _ begin = ([], (refl, refl, refl), refl, tt)
Reach-Invariant input _ (next {s} r (Step.of_parent step)) =
    ParentStep-Invariant input step (same_child s.parent step) (Reach-Invariant input s r)
Reach-Invariant input _ (next {s} r (Step.of_child step)) =
    ChildStep-Invariant input step (same_parent s.child step) (Reach-Invariant input s r)

-- Some process takes a step.
abbrev pub Moves : State → Type 0
Moves s = (s' : State) × Step s s'

-- Both processes are at their end, and the input is printed in capitals.
abbrev pub Printed : Bytes → State → Type 0
Printed input s = (s.parent ≡ finished) × (s.child ≡ gone) × (s.stdout ≡ upper input)

module _ (input : Bytes) (s : State) where
  parent_moves : {p : Parent} {s' : State} → s.parent ≡ p → ParentStep s p s' → Moves s
  parent_moves {p} {s'} e step = (s', Step.of_parent (subst (λ q. ParentStep s q s') (sym e) step))

  child_moves : {c : Child} {s' : State} → s.child ≡ c → ChildStep s c s' → Moves s
  child_moves {c} {s'} e step = (s', Step.of_child (subst (λ q. ChildStep s q s') (sym e) step))

  reads : s.parent ≡ reading → Moves s
  reads e = elim (List-cases s.stdin) [
    | inl h ↦ parent_moves e (ParentStep.at_end h)
    | inr (x, rest, h) ↦
        parent_moves e (ParentStep.read_input (x ∷ []) rest h (omega arith) (omega arith))
  ]

  moves_on :
      (p : Parent) (c : Child)
      → s.parent ≡ p
      → s.child ≡ c
      → Holds input p c s
      → Printed input s ⊎ Moves s
  moves_on reading c e f h = inr (reads e)
  moves_on (sending block) c e f h = inr (parent_moves e (ParentStep.send block))
  moves_on (printing block) c e f h = inr (parent_moves e (ParentStep.print block))
  moves_on receiving listening e f (b, inl ((more, fits), n, z), w, l) =
      inr (child_moves f (ChildStep.read_block more))
  moves_on receiving listening e f (b, inr (o, (more, fits), z), w, l) =
      inr (parent_moves e (ParentStep.receive more))
  moves_on receiving (answering block) e f h = inr (child_moves f (ChildStep.answer block))
  moves_on receiving gone e f (b, h, w, l) = absurd h
  moves_on finished listening e f (b, (o, n, z), w, l) = inr (child_moves f (ChildStep.see_end o e))
  moves_on finished (answering block) e f (b, h, w, l) = absurd h
  moves_on finished gone e f (b, (o, n, z), w, l) = inl (
    e,
    f,
    sym (append-nil s.stdout)
        ∙ ap (λ t. s.stdout ++ upper t) (sym l)
        ∙ ap (λ t. s.stdout ++ (t ++ upper s.stdin)) (sym z)
        ∙ w,
  )

-- However the two processes are interleaved and the input is cut by its reads: what is printed is
-- always a beginning of the input in capitals, and no state is stuck: a process
-- can take a step, or both are at their end and the whole input is printed in capitals.
pub Reach-Printed :
    (input : Bytes) (s : State)
    → Reach input s
    → ((rest : Bytes) × (s.stdout ++ rest ≡ upper input)) × (Printed input s ⊎ Moves s)
Reach-Printed input s r =
    let (b, f, w, l) = Reach-Invariant input s r in
    ((b ++ upper s.stdin, w), moves_on input s s.parent s.child refl refl (b, f, w, l))
