-- ===== src/Handover/Access.antt =====
-- Each step of the hand-over has an effect that the invariant allows.
use concore2full.Base.{
  ℕ, ◌+◌, ◌*◌, ◌%◌, ◌<◌, ◌≡◌, refl, sym, ap, ◌∙◌, ◌≢◌, inl, inr, Bool, true, false, Bool-cases,
  Option, none, some, List, arith, update, ◌==◌, if◌then◌else◌, erase, ◌&&◌,
}
use concore2full.WorkLine.{Ptr, null, push_unprotected, try_push, try_pop}
use concore2full.WorkLine.Lines.{
  first, rest, push_unprotected-IsPool, try_pop-cases, extract_task-IsPool,
}
use concore2full.ThreadPool.{u32, dec32}
use concore2full.Handover.{
  coming, on_line, Pool, Result, nothing, runs, got, refused, Pc, user, clear, pick, try_line,
  force_push, count_up, read_line, lock_line, pop_line, down_got, down_runs, fault, Choice, go,
  enqueue, extract, work, is_enqueued, is_fresh, begin, extract_locked, access, give, move,
  asserted, is_busy,
}
use concore2full.Handover.Memory.{
  worker_data, worker_data-push_unprotected, worker_data-try_pop, worker_data-extract_task,
  load-prev_link,
}
use concore2full.Handover.Invariant.{PcOk, brings, Lines, ResultOk}
use concore2full.Handover.Effect.{
  Effect, quiet, counts, claims, cleared, pushed, taken, free, erased, popped, fresh_of,
  enqueued_given, on_of,
}

module _ (count k : ℕ) (some_line : 0 < count) (p : Pool) (lines : ℕ → List Ptr)
    (h : Lines count p lines) where
  abbrev Comes : Pc → Type 0
  Comes x = (t : Ptr) → p.place t ≡ coming k → brings x ≡ some t

  begin-Effect :
      (c : Choice) (r : Result)
      → ResultOk k r p
      → Comes (user r)
      → Effect count k p (user r) lines (begin k c r p)
  unfolding begin
  begin-Effect go r o b = quiet count k p (user r) lines h b (user r) p.line_to_push_to o refl refl
  begin-Effect Choice.busy r o b =
      quiet count k p (user r) lines h b (user r) p.line_to_push_to o refl refl
  begin-Effect (enqueue t) r o b =
      elim (Bool-cases (is_fresh (p.place t) && (if t == null then false else true))) [
        | inl open_ ↦ rw open_ (
            claims count k p (user r) lines h b t refl refl
              (fresh_of (p.place t) (ground (arith, open_))) (ground (arith, open_)))
        | inr shut ↦
            rw shut (quiet count k p (user r) lines h b (user r) p.line_to_push_to o refl refl)
      ]
  begin-Effect (extract t) r o b =
      quiet count k p (user r) lines h b (read_line t (is_enqueued (p.place t))) p.line_to_push_to
        (λ e. e) refl refl
  begin-Effect (work hint) r o b =
      quiet count k p (user r) lines h b (pop_line hint 0) p.line_to_push_to tt refl refl

  locked-Effect :
      (t : Ptr) (w : ℕ) (e : Bool) (d : Option ℕ)
      → worker_data p.mem t ≡ d
      → PcOk count k (lock_line t w e) p
      → Comes (lock_line t w e)
      → Effect count k p (lock_line t w e) lines (extract_locked k t w e p)
  unfolding extract_locked
  locked-Effect t w e none is o b =
      rw (is, extract_locked)
        (quiet count k p (lock_line t w e) lines h b (user (refused t e)) p.line_to_push_to
          (λ _. ground (arith, o, is, h.placed t)) refl refl)
  locked-Effect t w e (some v) is o b =
      let at : p.place t ≡ on_line w = ground (arith, o, is, h.placed t) in
      let same : v ≡ w = ground (arith, is, h.placed t) in
      let on : worker_data p.mem t ≡ some w = is ∙ ap some same in
      let back = load-prev_link p.mem w (lines w) t (h.is_pool w) on in
      let ok : asserted t w v p.mem ≡ true = ground (arith, same, back) in
      let (found, m, runs_so, all, _, is_pool, _) = extract_task-IsPool p.mem lines h.is_pool t in
      let yes_found : found ≡ true = all w ((h.is_pool w).complete t on) in
      rw (is, ok, runs_so, yes_found, extract_locked)
        (taken count k p (lock_line t w e) lines h b t w m (λ u. erase t (lines u)) (down_got t)
          refl refl (inl refl) at is_pool (erased count p lines h t w at)
          (λ a. worker_data-extract_task t p.mem a (found, m) w on runs_so))

  below : (i : ℕ) → i % count < count
  below i = grind (arith, some_line)

  try-Effect :
      (locked : Bool) (t : Ptr) (index i : ℕ)
      → PcOk count k (try_line t index i) p
      → Comes (try_line t index i)
      → let r = try_push locked ((index + i) % count) t p.mem in
        Effect count k p (try_line t index i) lines (
          if r.0
          then (move t (on_line ((index + i) % count)) r.1 p, count_up)
          else (p, try_line t index (i + 1)))
  unfolding try_push
  try-Effect true t index i o b =
      quiet count k p (try_line t index i) lines h b (try_line t index (i + 1)) p.line_to_push_to o
        refl refl
  try-Effect false t index i (at, ne) b =
      let w = (index + i) % count in
      pushed count k p (try_line t index i) lines h b t w (push_unprotected w t p.mem) refl refl at
        (below (index + i))
        (push_unprotected-IsPool p.mem lines h.is_pool w t (free count p lines h t k at ne))
        (worker_data-push_unprotected w t p.mem)

  force-Effect :
      (locked : Bool) (t : Ptr) (index : ℕ)
      → PcOk count k (force_push t index) p
      → Comes (force_push t index)
      → Effect count k p (force_push t index) lines (
          if locked then (p, force_push t index) else (
            move t (on_line (index % count)) (push_unprotected (index % count) t p.mem) p,
            count_up,
          ))
  force-Effect true t index o b =
      quiet count k p (force_push t index) lines h b (force_push t index) p.line_to_push_to o refl
        refl
  force-Effect false t index (at, ne) b =
      let w = index % count in
      pushed count k p (force_push t index) lines h b t w (push_unprotected w t p.mem) refl refl at
        (below index)
        (push_unprotected-IsPool p.mem lines h.is_pool w t (free count p lines h t k at ne))
        (worker_data-push_unprotected w t p.mem)

  pop-Effect :
      (locked : Bool) (hint i : ℕ)
      → Comes (pop_line hint i)
      → let r = try_pop locked ((i + hint) % count) p.mem in
        Effect count k p
          (pop_line hint i)
          lines
          (if r.0 == null then (p, pop_line hint (i + 1)) else (give k r.0 r.1 p, down_runs r.0))
  pop-Effect locked hint i b =
      let w = (i + hint) % count in
      let x = pop_line hint i in
      elim (try_pop-cases p.mem lines h.is_pool locked w) [
        | inl (none_left, _) ↦
            rw none_left
              (quiet count k p x lines h b (pop_line hint (i + 1)) p.line_to_push_to tt refl refl)
        | inr (ne, e, is) ↦
            let r = try_pop locked w p.mem in
            let some_task : first (lines w) ≢ null = λ z. ne (e ∙ z) in
            let (at, less) = popped count p lines h w (lines w) refl some_task (below (i + hint)) in
            let found : (r.0 == null) ≡ false = ground arith in
            rw found (
              taken count k p x lines h b r.0 w r.1 (update lines w (rest (lines w)))
                (down_runs r.0) refl refl (inr refl) (ap p.place e ∙ at) is less
                (λ a. worker_data-try_pop locked w p.mem a ne))
      ]

  read-Effect :
      (t : Ptr) (e : Bool) (d : Option ℕ)
      → worker_data p.mem t ≡ d
      → PcOk count k (read_line t e) p
      → Comes (read_line t e)
      → Effect count k p (read_line t e) lines (access count k go (read_line t e) p)
  unfolding access
  read-Effect t e none is o b =
      rw (is, access)
        (quiet count k p (read_line t e) lines h b (user (refused t e)) p.line_to_push_to
          (λ z. enqueued_given (p.place t) (o z) (sym (h.placed t) ∙ is)) refl refl)
  read-Effect t e (some w) is o b =
      let at = on_of (p.place t) w (sym (h.placed t) ∙ is) in
      rw (is, access)
        (quiet count k p (read_line t e) lines h b (lock_line t w e) p.line_to_push_to
          (h.in_range t w at, inl at) refl refl)

  pub access-Effect :
      (c : Choice) (x : Pc)
      → PcOk count k x p
      → Comes x
      → Effect count k p x lines (access count k c x p)
  unfolding access
  access-Effect c (user r) o b = begin-Effect c r o b
  access-Effect c (clear t) o b = cleared count k p (clear t) lines h b t refl o.0 o.1
  access-Effect c (pick t) o b =
      quiet count k p (pick t) lines h b (try_line t (p.line_to_push_to % count) 0)
        (u32 (p.line_to_push_to + 1)) o refl refl
  access-Effect c (try_line t index i) o b = elim (Bool-cases (i == count)) [
    | inl end ↦ rw end (
        quiet count k p (try_line t index i) lines h b (force_push t index) p.line_to_push_to o refl
          refl)
    | inr more ↦ rw more (try-Effect (is_busy c) t index i o b)
  ]
  access-Effect c (force_push t index) o b = force-Effect (is_busy c) t index o b
  access-Effect c count_up o b =
      counts count k p count_up lines h b (user nothing) (u32 (p.num_tasks + 1)) tt
        (inl (refl, refl, refl)) refl
  access-Effect c (read_line t e) o b = read-Effect t e (worker_data p.mem t) refl o b
  access-Effect c (lock_line t w e) o b = elim (Bool-cases (is_busy c)) [
    | inl taken_by ↦ rw taken_by (
        quiet count k p (lock_line t w e) lines h b (lock_line t w e) p.line_to_push_to o refl refl)
    | inr open_ ↦ rw open_ (locked-Effect t w e (worker_data p.mem t) refl o b)
  ]
  access-Effect c (pop_line hint i) o b = elim (Bool-cases (i == 2 * count)) [
    | inl end ↦
        rw end (
          quiet count k p (pop_line hint i) lines h b (user nothing) p.line_to_push_to tt refl refl)
    | inr more ↦ rw more (pop-Effect (is_busy c) hint i b)
  ]
  access-Effect c (down_got t) o b =
      counts count k p (down_got t) lines h b (user (got t)) (dec32 p.num_tasks) o
        (inr (refl, refl, refl)) refl
  access-Effect c (down_runs t) o b =
      counts count k p (down_runs t) lines h b (user (runs t)) (dec32 p.num_tasks) o
        (inr (refl, refl, refl)) refl
  access-Effect c fault o b = absurd o
