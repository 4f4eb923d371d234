-- ===== src/Handover/Effect.antt =====
-- What a step of the hand-over comes to, by what it does to the lines.
use concore2full.Base.{
  ℕ, ◌+◌, ◌<◌, ◌≡◌, refl, sym, ap, ◌∙◌, ◌≢◌, ◌⊎◌, inl, inr, true, none, some, List, ◌∷◌, arith,
  length, update, ◌==◌, if◌then◌else◌, has, erase,
}
use concore2full.WorkLine.{Ptr, null, Mem}
use concore2full.WorkLine.Chain.{IsFree, IsLine-worker_data}
use concore2full.WorkLine.Lines.{IsPool, first, rest}
use concore2full.ThreadPool.{u32, dec32, clear_links}
use concore2full.ThreadPool.Enqueue.{clear_links-IsPool}
use concore2full.ThreadPool.Count.{total, total-update, total-erase}
use concore2full.Handover.{
  Place, fresh, coming, on_line, Pool, nothing, runs, got, refused, Pc, user, clear, pick, count_up,
  down_got, down_runs, is_enqueued, is_fresh, give, move,
}
use concore2full.Handover.Memory.{worker_data, worker_data-clear_links, first-has}
use concore2full.Handover.Invariant.{
  line_of, is_given, PcOk, brings, uncounted, overcounted, Lines, Change, Balance,
}

-- What is left of a step when its result is known.
pub record Effect (count k : ℕ) (p : Pool) (x : Pc) (lines : ℕ → List Ptr) (r : Pool × Pc)
    : Type 0 where
  pub lines' : ℕ → List Ptr
  pub in_order : Lines count r.0 lines'
  pub own : PcOk count k r.1 r.0
  pub change : Change count k p r.0 (total count lines) (total count lines')
  pub balance : Balance x r.1 p r.0 (total count lines) (total count lines')
  pub brought : (t : Ptr) → r.0.place t ≡ coming k → brings r.1 ≡ some t

module _ (count k : ℕ) (p : Pool) (x : Pc) (lines : ℕ → List Ptr) (h : Lines count p lines)
    (comes : (t : Ptr) → p.place t ≡ coming k → brings x ≡ some t) where
  same_ok : (y : Pc) (l : ℕ) → PcOk count k y p → PcOk count k y (record p { line_to_push_to = l })
  same_ok (user nothing) l o = o
  same_ok (user (runs t)) l o = o
  same_ok (user (got t)) l o = o
  same_ok (user (refused t e)) l o = o
  same_ok count_up l o = o
  same_ok _ l o = o

  recounted_ok : (y : Pc) (n : ℕ) → PcOk count k y p → PcOk count k y (record p { num_tasks = n })
  recounted_ok (user nothing) n o = o
  recounted_ok (user (runs t)) n o = o
  recounted_ok (user (got t)) n o = o
  recounted_ok (user (refused t e)) n o = o
  recounted_ok count_up n o = o
  recounted_ok _ n o = o

  -- Of the pool at most `line_to_push_to_` has changed.
  pub quiet :
      (y : Pc) (l : ℕ)
      → PcOk count k y p
      → uncounted y + overcounted x ≡ uncounted x + overcounted y
      → brings y ≡ brings x
      → Effect count k p x lines (record p { line_to_push_to = l }, y)
  quiet y l o b c = record {
    lines' = lines;
    in_order = record {
      is_pool = h.is_pool;
      placed = h.placed;
      in_range = h.in_range;
      given = h.given;
    };
    own = same_ok y l o;
    change = inl (refl, refl, refl);
    balance = inl (refl, omega (arith, b));
    brought = λ t e. c ∙ comes t e;
  }

  pub counts :
      (y : Pc) (n : ℕ)
      → PcOk count k y p
      → ((n ≡ u32 (p.num_tasks + 1))
          × (uncounted x ≡ uncounted y + 1)
          × (overcounted x ≡ overcounted y))
        ⊎ ((n ≡ dec32 p.num_tasks)
            × (overcounted x ≡ overcounted y + 1)
            × (uncounted x ≡ uncounted y))
      → brings y ≡ brings x
      → Effect count k p x lines (record p { num_tasks = n }, y)
  counts y n o b c = record {
    lines' = lines;
    in_order = record {
      is_pool = h.is_pool;
      placed = h.placed;
      in_range = h.in_range;
      given = h.given;
    };
    own = recounted_ok y n o;
    change = inl (refl, refl, refl);
    balance =
        inr (elim b [ inl (e, u, v) ↦ inl (e, u, refl, v) | inr (e, u, v) ↦ inr (e, u, refl, v) ]);
    brought = λ t e. c ∙ comes t e;
  }

  pub claims :
      (t : Ptr)
      → brings x ≡ none
      → uncounted x + overcounted x ≡ 0
      → p.place t ≡ fresh
      → t ≢ null
      → Effect count k p x lines (record p { place = update p.place t (coming k) }, clear t)
  claims t b n e ne = record {
    lines' = lines;
    in_order = record {
      is_pool = h.is_pool;
      placed = λ a. ground (arith, h.placed a);
      in_range = λ a w. ground (arith, h.in_range a w);
      given = λ a. ground (arith, h.given a);
    };
    own = ground arith;
    change = inr (inl (t, e, refl, refl, refl));
    balance = inl (refl, omega (arith, n));
    brought = λ a. ground (arith, comes a);
  }

  pub cleared :
      (t : Ptr)
      → x ≡ clear t
      → p.place t ≡ coming k
      → t ≢ null
      → Effect count k p x lines (record p { mem = clear_links t p.mem }, pick t)
  cleared t is e ne = record {
    lines' = lines;
    in_order = record {
      is_pool =
          (clear_links-IsPool p.mem lines t h.is_pool
            (record { ne_null = ne; off = ground (arith, h.placed t) })).0;
      placed = λ a. worker_data-clear_links p.mem t a ∙ h.placed a;
      in_range = h.in_range;
      given = h.given;
    };
    own = (e, ne);
    change = inl (refl, refl, refl);
    balance = inl (refl, ground (arith, is));
    brought = λ a at. ap brings (sym is) ∙ comes a at;
  }

  pub pushed :
      (t : Ptr) (w : ℕ) (m : Mem)
      → brings x ≡ some t
      → uncounted x + overcounted x ≡ 0
      → p.place t ≡ coming k
      → w < count
      → IsPool m (update lines w (t ∷ lines w))
      → ((a : Ptr) → worker_data m a ≡ (if a == t then some w else worker_data p.mem a))
      → Effect count k p x lines (move t (on_line w) m p, count_up)
  pushed t w m b n e lt is d =
      let more = total-update count lines w (t ∷ lines w) lt in
      record {
        lines' = update lines w (t ∷ lines w);
        in_order = record {
          is_pool = is;
          placed = λ a. ground (arith, h.placed a, d a);
          in_range = λ a v. ground (arith, h.in_range a v);
          given = λ a. ground (arith, h.given a);
        };
        own = tt;
        change = inr (inr (inl (t, w, e, lt, refl, refl, omega (arith, more))));
        balance = inl (refl, omega (arith, n, more));
        brought = λ a. ground (arith, comes a);
      }

  pub taken :
      (t : Ptr) (w : ℕ) (m : Mem) (lines' : ℕ → List Ptr) (y : Pc)
      → brings x ≡ none
      → uncounted x + overcounted x ≡ 0
      → (y ≡ down_got t) ⊎ (y ≡ down_runs t)
      → p.place t ≡ on_line w
      → IsPool m lines'
      → total count lines' + 1 ≡ total count lines
      → ((a : Ptr) → worker_data m a ≡ (if a == t then none else worker_data p.mem a))
      → Effect count k p x lines (give k t m p, y)
  taken t w m lines' y b n at e is less d = record {
    lines' = lines';
    in_order = record {
      is_pool = is;
      placed = λ a. ground (arith, h.placed a, d a);
      in_range = λ a v. ground (arith, h.in_range a v);
      given = λ a. ground (arith, h.given a);
    };
    own = ground arith;
    change = inr (inr (inr (t, w, e, refl, refl, less)));
    balance = inl (refl, ground (arith, n));
    brought = λ a. ground (arith, comes a);
  }

pub fresh_of : (q : Place) → is_fresh q ≡ true → q ≡ fresh
fresh_of fresh e = refl
fresh_of (coming j) e = cc
fresh_of _ e = cc

pub enqueued_given : (q : Place) → is_enqueued q ≡ true → line_of q ≡ none → is_given q ≡ true
enqueued_given fresh e d = cc
enqueued_given (coming j) e d = cc
enqueued_given _ e d = ground arith

pub on_of : (q : Place) (w : ℕ) → line_of q ≡ some w → q ≡ on_line w
on_of fresh w e = cc
on_of (coming j) w e = cc
on_of _ w e = ground arith

-- A task that is on a line is on that line only.
module _ (count : ℕ) (p : Pool) (lines : ℕ → List Ptr) (h : Lines count p lines) where
  pub free : (t : Ptr) (k : ℕ) → p.place t ≡ coming k → t ≢ null → IsFree p.mem t
  free t k e ne = record { ne_null = ne; off = ground (arith, h.placed t) }

  has-place : (t : Ptr) (w : ℕ) → has t (lines w) ≡ true → p.place t ≡ on_line w
  has-place t w i = ground (arith, h.placed t, IsLine-worker_data p.mem w t (h.is_pool w) i)

  pub erased :
      (t : Ptr) (w : ℕ)
      → p.place t ≡ on_line w
      → total count (λ v. erase t (lines v)) + 1 ≡ total count lines
  erased t w e =
      total-erase count lines t w (h.in_range t w e)
        ((h.is_pool w).complete t (ground (arith, h.placed t)))
        (λ v ne. ground (arith, has-place t v))

  pub popped :
      (w : ℕ) (xs : List Ptr)
      → lines w ≡ xs
      → first xs ≢ null
      → w < count
      → (p.place (first xs) ≡ on_line w)
        × (total count (update lines w (rest xs)) + 1 ≡ total count lines)
  popped w xs e ne lt =
      let (i, whole) = first-has xs ne in
      let n = total-update count lines w (rest xs) lt in
      (
        has-place (first xs) w (ap (has (first xs)) e ∙ i),
        omega (arith, n, ap length e, ap length whole),
      )
