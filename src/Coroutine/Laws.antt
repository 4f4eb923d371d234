-- ===== src/Coroutine/Laws.antt =====
-- What `callcc` and `resume` do, and what becomes of the stack of a coroutine.
use concore2full.Base.{
  ℕ, ◌+◌, ◌≡◌, refl, sym, ap, ◌∙◌, ◌≢◌, none, some, false, ◌∷◌, arith, erase, ◌==◌,
}
use concore2full.Stack
use concore2full.Stack.{Control, StackSpace, allocate_stack, destroy}
use concore2full.Coroutine.{
  Transfer, nulls, Code, MainFunction, execution_context_exit, finish, execution_context_entry,
  start_coroutine, callcc, resume,
}
use concore2full.Coroutine.Context.{ContextApi, Added, IsLawful, Shared, call, one}

not_null : (c : ℕ) → c ≢ 0 → (c == 0) ≡ false
not_null c ne = ground arith

-- All continuations but `gone` go on where they did.
abbrev pub KeepsBut : (api : ContextApi) → (gone : ℕ) → (w w' : api.World) → Type 0
KeepsBut api gone w w' =
    (j : ℕ) (p : Transfer → Code) → j ≢ gone → api.point w j ≡ some p → api.point w' j ≡ some p

abbrev pub Keeps : (api : ContextApi) → (w w' : api.World) → Type 0
Keeps api w w' = (j : ℕ) (p : Transfer → Code) → api.point w j ≡ some p → api.point w' j ≡ some p

module _ (api : ContextApi) where
  -- What is a continuation is none that is not one yet.
  pub new_ne :
      (w : api.World) (c j : ℕ) (q : Transfer → Code)
      → api.point w c ≡ none
      → api.point w j ≡ some q
      → j ≢ c
  new_ne w c j q is_new e same =
      let x : none ≡ some q = sym is_new ∙ ap (api.point w) (sym same) ∙ e in cc

  -- A continuation that was there before is not the new one.
  pub old_ne :
      (w w' : api.World) (to c : ℕ) (p : Transfer → Code)
      → Added api w w' to c p
      → (j : ℕ) (q : Transfer → Code) → api.point w j ≡ some q
      → j ≢ c
  old_ne w w' to c p added j q e = new_ne w c j q added.is_new e

  pub Added-KeepsBut :
      (w w' : api.World) (to c : ℕ) (p : Transfer → Code)
      → Added api w w' to c p
      → KeepsBut api to w w'
  Added-KeepsBut w w' to c p added j q ne e = added.others j (old_ne w w' to c p added j q e) ne ∙ e

  Added_self-Keeps :
      (w w' : api.World) (c : ℕ) (p : Transfer → Code) → Added api w w' c c p → Keeps api w w'
  Added_self-Keeps w w' c p added j q e =
      let ne = old_ne w w' c c p added j q e in added.others j ne ne ∙ e

-- The stack at the address that `malloc` has returned, and the control structure there.
abbrev pub stack_at : (size malloced : ℕ) → StackSpace
stack_at size malloced = record { size = size; sp = malloced + size }

abbrev pub control_at : (size malloced sizeof alignof : ℕ) → Control
control_at size malloced sizeof alignof = allocate_stack sizeof alignof (stack_at size malloced)

-- The state after the call of `callcc`: the main function has been entered with `c`.
pub record Entered (api : ContextApi) (malloced : ℕ) (s s' : Shared api) (rest : ℕ → Code) (c : ℕ)
    : Type 0 where
  pub ne_null : c ≢ 0
  pub is_new : api.point s.world c ≡ none
  pub here : api.point s'.world c ≡ some (λ t. rest t.fctx)
  pub others : Keeps api s.world s'.world
  pub blocks : s'.blocks ≡ malloced ∷ s.blocks
  pub cells : s'.cells ≡ s.cells

module _ (api : ContextApi) (lawful : IsLawful api) (size malloced sizeof alignof : ℕ)
    (ok : malloced ≢ 0) where
  abbrev control : Control
  control = control_at size malloced sizeof alignof

  abbrev step : Code × Shared api → Code × Shared api
  step x = one api size malloced x

  allocate_ok : Stack.allocate size malloced ≡ some (stack_at size malloced)
  unfolding Stack.allocate
  allocate_ok = rw (not_null malloced ok) refl

  pub allocates :
      (main : MainFunction) (rest : ℕ → Code) (s : Shared api)
      → step (callcc sizeof alignof main rest, s) ≡ (
        start_coroutine sizeof alignof (stack_at size malloced) main rest,
        record s { blocks = malloced ∷ s.blocks },
      )
  unfolding call callcc
  allocates main rest s = rw allocate_ok refl

  -- After three calls of the thread the main function has been entered.
  pub enters :
      (main : MainFunction) (rest : ℕ → Code) (s : Shared api)
      → (c : ℕ) × (s' : Shared api) × (step (step (step (callcc sizeof alignof main rest, s)))
          ≡ (main c (finish (some control)), s'))
        × Entered api malloced s s' rest c
  unfolding call start_coroutine execution_context_entry
  enters main rest s =
      let w = s.world in
      let made =
        api.make (Stack.stack_end control) (Stack.useful_size control)
          (execution_context_entry main) w in
      let m =
        lawful.make_lem (Stack.stack_end control) (Stack.useful_size control)
          (execution_context_entry main) w in
      let (c, w', added, e) =
        lawful.jump_lem made.0 (some control) (λ t. rest t.fctx) (execution_context_entry main)
          made.1 m.here in
      let other : c ≢ made.0 = λ same.
        old_ne api made.1 w' made.0 c (λ t. rest t.fctx) added made.0 (execution_context_entry main)
          m.here (sym same) in
      let s' : Shared api = record { world = w'; blocks = malloced ∷ s.blocks; cells = s.cells } in
      (
        c,
        s',
        ap (λ x. step (step x)) (allocates main rest s)
            ∙ rw (not_null made.0 m.ne_null, e, not_null c added.ne_null) refl,
        record {
          ne_null = added.ne_null;
          is_new = sym (m.others c other other) ∙ added.is_new;
          here = added.here;
          others = λ j p at.
              Added-KeepsBut api made.1 w' made.0 c (λ t. rest t.fctx) added j p
                (old_ne api w made.1 made.0 made.0 (execution_context_entry main) m j p at)
                (Added_self-Keeps api w made.1 made.0 (execution_context_entry main) m j p at);
          blocks = refl;
          cells = refl;
        },
      )

  destroy-control : destroy control ≡ malloced
  unfolding destroy allocate_stack
  destroy-control = omega arith

  -- When the main function returns `r`, the thread goes on there, and gives back the stack.
  pub finishes :
      (r : ℕ) (p : Transfer → Code) (s : Shared api)
      → r ≢ 0
      → api.point s.world r ≡ some p
      → (s' : Shared api) × (step (finish (some control) r, s) ≡ (p nulls, s'))
        × KeepsBut api r s.world s'.world
        × (s'.blocks ≡ erase malloced s.blocks)
        × (s'.cells ≡ s.cells)
  unfolding call finish execution_context_exit
  finishes r p s ne at =
      let (c, w', added, e) =
        lawful.ontop_lem r (some control) execution_context_exit (λ _. Code.fault) p s.world at in
      (
        record { world = w'; blocks = erase malloced s.blocks; cells = s.cells },
        rw (not_null r ne, e, destroy-control) refl,
        Added-KeepsBut api s.world w' r c (λ _. Code.fault) added,
        refl,
        refl,
      )

module _ (api : ContextApi) (lawful : IsLawful api) (size malloced : ℕ) where
  pub resumes :
      (h : ℕ) (rest : ℕ → Code) (p : Transfer → Code) (s : Shared api)
      → h ≢ 0
      → api.point s.world h ≡ some p
      → (c : ℕ) × (w' : api.World) × (one api size malloced (resume h rest, s)
          ≡ (p (record { fctx = c; control = none }), record s { world = w' }))
        × Added api s.world w' h c (λ t. rest t.fctx)
  unfolding call resume
  resumes h rest p s ne at =
      let (c, w', added, e) = lawful.jump_lem h none (λ t. rest t.fctx) p s.world at in
      (c, w', rw (not_null h ne, e) refl, added)
