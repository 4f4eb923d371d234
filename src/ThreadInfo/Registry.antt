-- ===== src/ThreadInfo/Registry.antt =====
-- Which `thread_info` a control flow gets for the thread that it runs on, and who may switch.
use concore2full.Base.{
  ℕ, ◌≡◌, ◌⊎◌, refl, ◌≢◌, true, false, Option, none, some, List, [], ◌∷◌, ◌++◌, arith, ◌==◌,
  if◌then◌else◌, Bool-cases, inl, inr, has, Distinct,
}
use concore2full.ThreadInfo.{
  Info, Threads, add_thread, construct_info, find_in, find_thread, get_current_thread_info,
  try_start_switch, end_switch,
}

-- The threads are listed once each, and no two have the same id.
pub record IsRegistry (t : Threads) : Type 0 where
  pub distinct : Distinct t.g_threads
  pub unique :
      (a b : ℕ)
      → has a t.g_threads ≡ true
      → has b t.g_threads ≡ true
      → (t.info a).thread_id ≡ (t.info b).thread_id
      → a ≡ b

find_in-some :
    (id : ℕ) (info : ℕ → Info) (xs : List ℕ) (a : ℕ)
    → find_in id info xs ≡ some a
    → ((info a).thread_id ≡ id) × (has a xs ≡ true)
unfolding find_in
find_in-some id info [] a e = cc
find_in-some id info (b ∷ xs) a e = ground (arith, find_in-some id info xs a)

find_in-none :
    (id : ℕ) (info : ℕ → Info) (xs : List ℕ) (a : ℕ)
    → find_in id info xs ≡ none
    → has a xs ≡ true
    → (info a).thread_id ≢ id
unfolding find_in
find_in-none id info [] a e i = cc
find_in-none id info (b ∷ xs) a e i = ground (arith, find_in-none id info xs a)

has-append_one :
    (a b : ℕ) (xs : List ℕ) → has a (xs ++ b ∷ []) ≡ (if a == b then true else has a xs)
has-append_one a b [] = ground arith
has-append_one a b (x ∷ xs) = ground (arith, has-append_one a b xs)

Distinct-append_one :
    (b : ℕ) (xs : List ℕ) → has b xs ≡ false → Distinct xs → Distinct (xs ++ b ∷ [])
Distinct-append_one b [] out d = (refl, tt)
Distinct-append_one b (x ∷ xs) out d =
    ground (arith, has-append_one x b xs, Distinct-append_one b xs)

-- A thread that was not listed, with an id that no listed thread has, is listed by its constructor.
construct_info-IsRegistry :
    (a id : ℕ) (t : Threads)
    → IsRegistry t
    → has a t.g_threads ≡ false
    → ((b : ℕ) → has b t.g_threads ≡ true → (t.info b).thread_id ≢ id)
    → IsRegistry (construct_info a id t)
unfolding construct_info add_thread
construct_info-IsRegistry a id t is out other = record {
  distinct = Distinct-append_one a t.g_threads out is.distinct;
  unique = λ b c i j e. ground (
    arith,
    has-append_one b a t.g_threads,
    has-append_one c a t.g_threads,
    is.unique b c,
    other b,
    other c,
  );
}

-- What is listed twice is not listed once each.
twice : (b : ℕ) (xs : List ℕ) → has b xs ≡ true → ¬ Distinct (xs ++ b ∷ [])
twice b [] i d = cc
twice b (x ∷ xs) i d = ground (arith, has-append_one x b xs, twice b xs, d)

module _ (tls id : ℕ) (t : Threads) (is : IsRegistry t) (listed : has tls t.g_threads ≡ true) where
  -- The flow gets a listed `thread_info` with the id, and all stays as it is.
  Found : ℕ × Threads → Type 0
  Found r = (r.1 ≡ t) × ((t.info r.0).thread_id ≡ id) × (has r.0 t.g_threads ≡ true)

  -- No listed thread has the id, and the one at `tls` is taken for it.
  Overwritten : ℕ × Threads → Type 0
  Overwritten r =
      ((a : ℕ) → has a t.g_threads ≡ true → (t.info a).thread_id ≢ id)
      × (r.0 ≡ tls)
      × ((r.1.info tls).thread_id ≡ id)
      × (r.1.g_threads ≡ t.g_threads ++ (tls ∷ []))
      × (¬ IsRegistry r.1)

  looked_up :
      (found : Option ℕ)
      → find_thread id t ≡ found
      → ((t.info tls).thread_id == id) ≡ false
      → Found (get_current_thread_info tls id t) ⊎ Overwritten (get_current_thread_info tls id t)
  unfolding Found Overwritten get_current_thread_info find_thread add_thread
  looked_up (some a) e ne =
      let (same, i) = find_in-some id t.info t.g_threads a e in rw (ne, e) (inl (refl, same, i))
  looked_up none e ne =
      rw (ne, e)
        (inr (
          λ a i. find_in-none id t.info t.g_threads a e i,
          refl,
          ground arith,
          refl,
          λ r. twice tls t.g_threads listed r.distinct,
        ))

  -- In a registry that lists each thread once, with no two of the same id, where the data that the
  -- flow sees as thread-local is listed, as its constructor does: either the flow gets a listed
  -- `thread_info` with the id of the thread that it runs on, also where it sees the data of another
  -- thread, and nothing changes; or no listed thread has that id, the flow gets what it sees, whose
  -- id is overwritten and which is listed once more, and this is no such registry any more.
  pub get_current_thread_info_lem :
      let r = get_current_thread_info tls id t in
      ((r.1 ≡ t) × ((t.info r.0).thread_id ≡ id) × (has r.0 t.g_threads ≡ true))
      ⊎ (((a : ℕ) → has a t.g_threads ≡ true → (t.info a).thread_id ≢ id)
          × (r.0 ≡ tls)
          × ((r.1.info tls).thread_id ≡ id)
          × (r.1.g_threads ≡ t.g_threads ++ (tls ∷ []))
          × (¬ IsRegistry r.1))
  unfolding get_current_thread_info Found Overwritten
  get_current_thread_info_lem = elim (Bool-cases ((t.info tls).thread_id == id)) [
    | inl same ↦ rw same (inl (refl, ground arith, listed))
    | inr other ↦ looked_up (find_thread id t) refl other
  ]

-- Between `try_start_switch` and `end_switch` neither thread can take part in another switch, in
-- either role; afterwards both are free, and no request or continuation is left.
switch-excludes :
    (o g : ℕ) (t : Threads)
    → o ≢ g
    → (t.info o).is_currently_switching ≡ false
    → (t.info g).is_currently_switching ≡ false
    → let t' = (try_start_switch o g t).1 in
      ((try_start_switch o g t).0 ≡ true)
      × ((x : ℕ)
          → ((try_start_switch o x t').0 ≡ false)
            × ((try_start_switch x o t').0 ≡ false)
            × ((try_start_switch g x t').0 ≡ false)
            × ((try_start_switch x g t').0 ≡ false))
      × ((x : ℕ)
          → ((end_switch o g t').info x).is_currently_switching ≡ (t.info x).is_currently_switching)
      × (((end_switch o g t').info o).switching_to ≡ none)
      × (((end_switch o g t').info g).should_switch_with ≡ none)
unfolding try_start_switch end_switch
switch-excludes o g t ne free_o free_g =
    (ground arith, λ x. ground arith, λ x. ground arith, ground arith, ground arith)

-- A switch of a thread with itself would be started, and `switch_to` then returns without ending
-- it: no switch with the thread can start any more. `thread_snapshot::revert` makes no such call.
self_switch-blocks :
    (o : ℕ) (t : Threads)
    → (t.info o).is_currently_switching ≡ false
    → let t' = (try_start_switch o o t).1 in
      ((try_start_switch o o t).0 ≡ true)
      × ((x : ℕ) → ((try_start_switch o x t').0 ≡ false) × ((try_start_switch x o t').0 ≡ false))
unfolding try_start_switch
self_switch-blocks o t free = (ground arith, λ x. ground arith)
