-- ===== src/ThreadPool/Slots.antt =====
-- Which sleep objects `offer_help_until` hands to threads that help the pool.
use concore2full.Base.{
  ℕ, zero, suc, ◌+◌, ◌*◌, ◌<◌, ◌≤◌, ◌≡◌, refl, ◌⊎◌, inl, inr, true, false, ◌&&◌, none, some, List,
  [], ◌∷◌, arith, if◌then◌else◌, has, erase, length, leb, ltb, count, count-erase, has_of_count,
  count_of_has, max,
}
use concore2full.WorkLine.{Mem}
use concore2full.ThreadPool.{
  ThreadPool, free_slots, make, take_slot, give_slot, replicate, fresh_sleep_data,
}

-- The slots that are free and those that helpers hold are together the sleep objects from
-- `threads` to `2 * threads`, each once; all of them exist.
pub record Slots (p : ThreadPool) (held : List ℕ) : Type 0 where
  pub each_once :
      (i : ℕ)
      → count i p.free_sleep_objects + count i held
        ≡ (if leb p.threads i && ltb i (2 * p.threads) then 1 else 0)
  pub exist : 2 * p.threads ≤ length p.sleep_objects

count-free_slots :
    (tc n i : ℕ) → count i (free_slots tc n) ≡ (if leb tc i && ltb i (tc + n) then 1 else 0)
unfolding free_slots
count-free_slots tc zero i = ground arith
count-free_slots tc (suc n) i = ground (arith, count-free_slots tc n i)

length-replicate {ℓ} : {A : Type ℓ} (n : ℕ) (x : A) → length (replicate n x) ≡ n
length-replicate zero x = refl
length-replicate (suc n) x = omega (arith, length-replicate n x)

-- The constructor leaves all slots free.
make-Slots : (m : Mem) (thread_count : ℕ) → Slots (make m thread_count) []
unfolding make
make-Slots m tc = record {
  each_once = λ i. ground (arith, count-free_slots tc tc i);
  exist = omega (arith, length-replicate (tc + max 4 tc) fresh_sleep_data);
}

module _ (p : ThreadPool) (held : List ℕ) (s : Slots p held) where
  take-at :
      (free : List ℕ)
      → p.free_sleep_objects ≡ free
      → ((i : ℕ) × ((take_slot p).0 ≡ some i)
          × (p.threads ≤ i)
          × (i < length p.sleep_objects)
          × (has i held ≡ false)
          × Slots (take_slot p).1 (i ∷ held))
        ⊎ (((take_slot p).0 ≡ none)
            × ((i : ℕ) → p.threads ≤ i → i < 2 * p.threads → has i held ≡ true))
  unfolding take_slot
  take-at [] e =
      inr (rw (e, take_slot), λ i ge lt. has_of_count i held (ground (arith, s.each_once i)))
  take-at (i ∷ free) e =
      let once : count i (i ∷ free) + count i held
          ≡ (if leb p.threads i && ltb i (2 * p.threads) then 1 else 0) =
        rw e at (s.each_once i) in
      inl (
        rw (e, take_slot)
          (
            i,
            refl,
            ground arith,
            ground (arith, s.exist),
            ground (arith, count_of_has i held),
            record { each_once = λ j. ground (arith, s.each_once j); exist = s.exist },
          ))

  -- A helper gets a slot that is no worker's and that no other helper holds; there is none left
  -- only when helpers hold them all, as many as the pool has threads.
  take_slot-Slots :
      ((i : ℕ) × ((take_slot p).0 ≡ some i)
        × (p.threads ≤ i)
        × (i < length p.sleep_objects)
        × (has i held ≡ false)
        × Slots (take_slot p).1 (i ∷ held))
      ⊎ (((take_slot p).0 ≡ none)
          × ((i : ℕ) → p.threads ≤ i → i < 2 * p.threads → has i held ≡ true))
  take_slot-Slots = take-at p.free_sleep_objects refl

  -- A slot that is given back is free again.
  give_slot-Slots : (i : ℕ) → has i held ≡ true → Slots (give_slot i p) (erase i held)
  unfolding give_slot
  give_slot-Slots i h = record {
    each_once = λ j. ground (arith, s.each_once j, count-erase j i held);
    exist = s.exist;
  }
