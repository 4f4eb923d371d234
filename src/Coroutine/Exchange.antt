-- ===== src/Coroutine/Exchange.antt =====
-- The patterns in which the frames use `callcc`: publish the own continuation, and go on at another.
use concore2full.Base.{ℕ, ◌≡◌, refl, sym, ap, ◌∙◌, ◌≢◌, none, some, List, ◌∷◌, arith, erase, update}
use concore2full.Coroutine.{
  Transfer, nulls, Code, MainFunction, finish, callcc, resume, store, load,
}
use concore2full.Coroutine.Context.{ContextApi, IsLawful, Shared, call, one, calls}
use concore2full.Coroutine.Laws.{
  new_ne, old_ne, Added-KeepsBut, KeepsBut, Keeps, control_at, enters, finishes, resumes,
}

-- The function that the frames pass to `callcc`: it stores the continuation that it gets in one
-- cell, and returns the one that it finds in another.
abbrev pub publish : (mine theirs : ℕ) → MainFunction
publish mine theirs c return_to = store mine c (load theirs return_to)

update_self : (f : ℕ → ℕ) (x v : ℕ) → update f x v x ≡ v
update_self f x v = ground arith

update_other : (f : ℕ → ℕ) (x y v : ℕ) → x ≢ y → update f x v y ≡ f y
update_other f x y v ne = ground arith

erase_self : (a : ℕ) (xs : List ℕ) → erase a (a ∷ xs) ≡ xs
erase_self a xs = ground arith

-- A flow has been suspended as the continuation `c`, which goes on at `rest`; `gone` has been
-- resumed, and the blocks that are allocated are those of before.
pub record Switched (api : ContextApi) (s s' : Shared api) (gone c : ℕ) (rest : ℕ → Code)
    : Type 0 where
  pub ne_null : c ≢ 0
  pub here : api.point s'.world c ≡ some (λ t. rest t.fctx)
  pub others : KeepsBut api gone s.world s'.world
  pub blocks : s'.blocks ≡ s.blocks

module _ (api : ContextApi) (lawful : IsLawful api) (size sizeof alignof : ℕ) where
  -- The function publishes the continuation `c` of the caller in the one cell, and the thread goes on
  -- at the continuation in the other one, which gets null. The stack of the call is given back.
  callcc_switch :
      (malloced mine theirs : ℕ) (rest : ℕ → Code) (p : Transfer → Code) (s : Shared api)
      → malloced ≢ 0
      → mine ≢ theirs
      → s.cells theirs ≢ 0
      → api.point s.world (s.cells theirs) ≡ some p
      → (c : ℕ) × (s' : Shared api) × (calls api size malloced 6
            (callcc sizeof alignof (publish mine theirs) rest, s)
          ≡ (p nulls, s'))
        × Switched api s s' (s.cells theirs) c rest
        × (api.point s.world c ≡ none)
        × (s'.cells ≡ update s.cells mine c)
  unfolding calls call
  callcc_switch malloced mine theirs rest p s ok ne some_r at =
      let (c, s1, e1, entered) =
        enters api lawful size malloced sizeof alignof ok (publish mine theirs) rest s in
      let s2 : Shared api = record s1 { cells = update s1.cells mine c } in
      let r = s.cells theirs in
      let read : s2.cells theirs ≡ r =
        update_other s1.cells mine theirs c ne ∙ ap (λ f. f theirs) entered.cells in
      let (s3, e3, keeps, blocks, cells) =
        finishes api lawful size malloced sizeof alignof ok r p s2 some_r (entered.others r p at) in
      let own = some (control_at size malloced sizeof alignof) in
      let step = one api size malloced in
      (
        c,
        s3,
        ap (λ x. step (step (step x))) e1 ∙ ap (λ v. step (finish own v, s2)) read ∙ e3,
        record {
          ne_null = entered.ne_null;
          here =
              keeps c (λ t. rest t.fctx)
                (λ same. new_ne api s.world c r p entered.is_new at (sym same)) entered.here;
          others = λ j q other was. keeps j q other (entered.others j q was);
          blocks = rw (blocks, entered.blocks) (erase_self malloced s.blocks);
        },
        entered.is_new,
        rw (cells, entered.cells) refl,
      )

  -- Two flows exchange their threads. The one of the worker has entered the function that it passes
  -- to `callcc`, and has stored its continuation, when the other one calls `callcc` and goes on at
  -- what is stored; then the worker goes on at what the other one has stored. Each flow goes on
  -- on the thread of the other one, `callcc` has returned null to both, and both stacks are freed.
  pub callcc_exchange :
      (malloced malloced' mine theirs : ℕ) (rest rest' : ℕ → Code) (s : Shared api)
      → malloced ≢ 0
      → malloced' ≢ 0
      → mine ≢ theirs
      → (worker : Code) × (s1 : Shared api) × (s2 : Shared api) × (s3 : Shared api) × (calls api
            size malloced' 4
            (callcc sizeof alignof (publish theirs mine) rest', s)
          ≡ (worker, s1))
        × (calls api size malloced 6 (callcc sizeof alignof (publish mine theirs) rest, s1)
            ≡ (rest' 0, s2))
        × (calls api size malloced' 2 (worker, s2) ≡ (rest 0, s3))
        × (s3.blocks ≡ s.blocks)
        × Keeps api s.world s3.world
  unfolding calls call
  callcc_exchange malloced malloced' mine theirs rest rest' s ok ok' ne =
      let step = one api size malloced' in
      let own = some (control_at size malloced' sizeof alignof) in
      let (c', s0, e0, entered) =
        enters api lawful size malloced' sizeof alignof ok' (publish theirs mine) rest' s in
      let s1 : Shared api = record s0 { cells = update s0.cells theirs c' } in
      let stored : s1.cells theirs ≡ c' = update_self s0.cells theirs c' in
      let (c, s2, e2, switched, is_new, cells) =
        callcc_switch malloced mine theirs rest (λ t. rest' t.fctx) s1 ok ne
          (λ e. entered.ne_null (sym stored ∙ e)) (ap (api.point s1.world) stored ∙ entered.here) in
      let read : s2.cells mine ≡ c = ap (λ f. f mine) cells ∙ update_self s1.cells mine c in
      let (s3, e3, keeps, blocks, _) =
        finishes api lawful size malloced' sizeof alignof ok' c (λ t. rest t.fctx) s2
          switched.ne_null switched.here in
      (
        load mine (finish own),
        s1,
        s2,
        s3,
        ap step e0,
        e2,
        ap (λ v. step (finish own v, s2)) read ∙ e3,
        rw (blocks, switched.blocks, entered.blocks) (erase_self malloced' s.blocks),
        λ j q was.
            let there = entered.others j q was in
            keeps j q (new_ne api s1.world c j q is_new there) (
              switched.others j q
                (λ same. new_ne api s.world c' j q entered.is_new was (same ∙ stored)) there),
      )

module _ (api : ContextApi) (lawful : IsLawful api) (size : ℕ) where
  -- A flow that is resumed and at once resumes the one that has resumed it: `resume` returns to the
  -- first flow, with the continuation of the second.
  pub resume-resume :
      (malloced h : ℕ) (rest rest' : ℕ → Code) (s : Shared api)
      → h ≢ 0
      → api.point s.world h ≡ some (λ t. resume t.fctx rest')
      → (c : ℕ) × (s' : Shared api) × (calls api size malloced 2 (resume h rest, s) ≡ (rest c, s'))
        × Switched api s s' h c rest'
        × (s'.cells ≡ s.cells)
  unfolding calls
  resume-resume malloced h rest rest' s ne at =
      let (c1, w1, e1, added) =
        resumes api lawful size malloced h rest (λ t. resume t.fctx rest') s ne at in
      let s1 : Shared api = record s { world = w1 } in
      let (c, w2, e2, added') =
        resumes api lawful size malloced c1 rest' (λ t. rest t.fctx) s1 added.ne_null added.here in
      (
        c,
        record s { world = w2 },
        ap (one api size malloced) e1 ∙ e2,
        record {
          ne_null = added'.ne_null;
          here = added'.here;
          others = λ j q other was.
              Added-KeepsBut api w1 w2 c1 c (λ t. rest' t.fctx) added' j q
                (old_ne api s.world w1 h c1 (λ t. rest t.fctx) added j q was)
                (Added-KeepsBut api s.world w1 h c1 (λ t. rest t.fctx) added j q other was);
          blocks = refl;
        },
        refl,
      )
