-- ===== src/MemoryCount/Holders.antt =====
-- A mutex that is locked has a thread that will release it.
use sysprogramming_examples.Prelude.{
  ℕ, zero, suc, ◌+◌, ◌≤◌, ◌<◌, ◌≡◌, ◌≢◌, ◌==◌, ◌⊎◌, refl, sym, ap, ◌∙◌, inl, inr, List, [], ◌∷◌,
  ◌++◌, Option, none, some, arith, Bool-cases,
}
use sysprogramming_examples.Memory.{length, set}
use sysprogramming_examples.Memory.Laws.{length-set}
use sysprogramming_examples.Memory.Index.{get_or-set}
use sysprogramming_examples.MemoryCount.{
  Worker, counting, locked, loaded, stored, waiting, printing, reading, reported, finished, System,
  worker, update, Step, lock_counter, load_counter, store_counter, unlock_counter, end_of_file,
  lock_output, lock_value, read_value, unlock_value, unlock_output, alpha_size, Reach, begin, step,
  main_step, MainStep, lock_announce, unlock_announce, announcing, start,
}
use sysprogramming_examples.MemoryCount.Invariant.{held}

-- The thread has the mutex for the output.
abbrev pub InOutput : Worker → Type 0
InOutput (counting rest) = ⊥
InOutput (locked c rest) = ⊥
InOutput (loaded c val rest) = ⊥
InOutput (stored c rest) = ⊥
InOutput waiting = ⊥
InOutput (printing i printed) = Unit
InOutput (reading i printed) = Unit
InOutput (reported i printed) = Unit
InOutput (finished printed) = ⊥

-- No counter is printed that is not there.
abbrev pub IsWithin : Worker → Type 0
IsWithin (counting rest) = Unit
IsWithin (locked c rest) = Unit
IsWithin (loaded c val rest) = Unit
IsWithin (stored c rest) = Unit
IsWithin waiting = Unit
IsWithin (printing i printed) = i ≤ alpha_size
IsWithin (reading i printed) = i < alpha_size
IsWithin (reported i printed) = i < alpha_size
IsWithin (finished printed) = Unit

pub record IsHeld (s : System) : Type 0 where
  pub holder :
      (c t : ℕ) → s.owner c ≡ some t → (t < length s.workers) × (held (worker s t) ≡ some c)
  pub output_holder :
      (t : ℕ)
      → s.output_owner ≡ some t
      → ((t < length s.workers) × InOutput (worker s t))
        ⊎ ((t ≡ length s.workers) × (s.main_thread ≡ announcing))
  pub within : (t : ℕ) → IsWithin (worker s t)

module _ (s : System) (t : ℕ) (h : t < length s.workers) (sound : IsHeld s) where
  keeps :
      (counter : ℕ → ℕ) (owner : ℕ → Option ℕ) (output : Option ℕ) (next : Worker)
      → ((c u : ℕ)
          → owner c ≡ some u
          → ((t ≡ u) × (held next ≡ some c)) ⊎ ((t ≢ u) × (s.owner c ≡ some u)))
      → ((u : ℕ)
          → output ≡ some u
          → ((t ≡ u) × InOutput next) ⊎ ((t ≢ u) × (s.output_owner ≡ some u)))
      → IsWithin next
      → IsHeld (record {
        counter = counter;
        owner = owner;
        output_owner = output;
        main_thread = s.main_thread;
        workers = set s.workers t next;
      })
  keeps counter owner output next owners outputs mine =
      let after : System = record {
        counter = counter;
        owner = owner;
        output_owner = output;
        main_thread = s.main_thread;
        workers = set s.workers t next;
      } in
      let here : worker after t ≡ next =
        ground (arith, get_or-set (finished []) s.workers t t next h) in
      let there : (u : ℕ) → t ≢ u → worker after u ≡ worker s u =
        λ u e. ground (arith, get_or-set (finished []) s.workers t u next h) in
      let size = length-set s.workers t next in
      record {
        holder = λ c u e. elim (owners c u e) [
          | inl m ↦ (omega (arith, size, m.0), ap held (ap (worker after) (sym (m.0)) ∙ here) ∙ m.1)
          | inr o ↦
              let before = sound.holder c u o.1 in
              (omega (arith, size, before.0), ap held (there u o.0) ∙ before.1)
        ];
        output_holder = λ u e. elim (outputs u e) [
          | inl m ↦ inl (omega (arith, size, m.0), rw (← m.0, here) (m.1))
          | inr o ↦ elim (sound.output_holder u o.1) [
            | inl before ↦ inl (omega (arith, size, before.0), rw (there u o.0) (before.1))
            | inr before ↦ inr (omega (arith, size, before.0), before.1)
          ]
        ];
        within = λ u. elim (Bool-cases (t == u)) [
          | inl same ↦ let equal : t ≡ u = ground arith in rw (← equal, here) mine
          | inr apart ↦
              let different : t ≢ u = λ z. ground (arith, z) in
              rw (there u different) (sound.within u)
        ];
      }

  -- The owners of the mutexes of counters, where none, the own or the one of `c` changes.
  same_owners :
      (next : Worker)
      → held next ≡ held (worker s t)
      → (c u : ℕ) → s.owner c ≡ some u
      → ((t ≡ u) × (held next ≡ some c)) ⊎ ((t ≢ u) × (s.owner c ≡ some u))
  same_owners next e c u o = elim (Bool-cases (t == u)) [
    | inl same ↦
        let equal : t ≡ u = ground arith in
        inl (equal, e ∙ ap (λ x. held (worker s x)) equal ∙ (sound.holder c u o).1)
    | inr apart ↦ inr (λ z. ground (arith, z), o)
  ]

  not_own : (d u : ℕ) → held (worker s t) ≢ some d → s.owner d ≡ some u → t ≢ u
  not_own d u free o equal = free (ap (λ x. held (worker s x)) equal ∙ (sound.holder d u o).1)

  one_more_owner :
      (next : Worker) (c : ℕ)
      → held (worker s t) ≡ none
      → held next ≡ some c
      → (d u : ℕ) → update s.owner c (some t) d ≡ some u
      → ((t ≡ u) × (held next ≡ some d)) ⊎ ((t ≢ u) × (s.owner d ≡ some u))
  one_more_owner next c free mine d u e = elim (Bool-cases (d == c)) [
    | inl same ↦
        let equal : d ≡ c = ground arith in
        let own : some t ≡ some u = rw same at e in inl (cc, mine ∙ ap some (sym equal))
    | inr apart ↦
        let old : s.owner d ≡ some u = rw apart at e in inr (not_own d u (λ z. absurd cc) old, old)
  ]

  one_less_owner :
      (next : Worker) (c : ℕ)
      → held (worker s t) ≡ some c
      → (d u : ℕ) → update s.owner c none d ≡ some u
      → ((t ≡ u) × (held next ≡ some d)) ⊎ ((t ≢ u) × (s.owner d ≡ some u))
  one_less_owner next c mine d u e = elim (Bool-cases (d == c)) [
    | inl same ↦ let gone : none ≡ some u = rw same at e in absurd cc
    | inr apart ↦
        let old : s.owner d ≡ some u = rw apart at e in
        let different : d ≢ c = λ z. ground (arith, z) in
        inr (not_own d u (λ z. let both : some c ≡ some d = sym mine ∙ z in different cc) old, old)
  ]

  same_output :
      (next : Worker)
      → (InOutput (worker s t) → InOutput next)
      → (u : ℕ) → s.output_owner ≡ some u
      → ((t ≡ u) × InOutput next) ⊎ ((t ≢ u) × (s.output_owner ≡ some u))
  same_output next goes u o = elim (Bool-cases (t == u)) [
    | inl same ↦
        let equal : t ≡ u = ground arith in
        elim (sound.output_holder u o) [
          | inl before ↦ inl (equal, goes (rw equal (before.1)))
          | inr before ↦ absurd (omega (arith, h, equal, before.0))
        ]
    | inr apart ↦ inr (λ z. ground (arith, z), o)
  ]

Step-IsHeld : (s s' : System) (t : ℕ) → t < length s.workers → IsHeld s → Step s t s' → IsHeld s'
Step-IsHeld s s' t h k (lock_counter {c} {rest} at_ free after) = rw after (
    keeps s t h k s.counter (update s.owner c (some t)) s.output_owner (locked c rest)
      (one_more_owner s t h k (locked c rest) c (ap held at_) refl)
      (same_output s t h k (locked c rest) (λ o. absurd (rw at_ at o))) tt)
Step-IsHeld s s' t h k (load_counter {c} {rest} at_ after) = rw after (
    keeps s t h k s.counter s.owner s.output_owner (loaded c (s.counter c) rest)
      (same_owners s t h k (loaded c (s.counter c) rest) (sym (ap held at_)))
      (same_output s t h k (loaded c (s.counter c) rest) (λ o. absurd (rw at_ at o))) tt)
Step-IsHeld s s' t h k (store_counter {c} {val} {rest} at_ after) = rw after (
    keeps s t h k (update s.counter c (val + 1)) s.owner s.output_owner (stored c rest)
      (same_owners s t h k (stored c rest) (sym (ap held at_)))
      (same_output s t h k (stored c rest) (λ o. absurd (rw at_ at o))) tt)
Step-IsHeld s s' t h k (unlock_counter {c} {rest} at_ after) = rw after (
    keeps s t h k s.counter (update s.owner c none) s.output_owner (counting rest)
      (one_less_owner s t h k (counting rest) c (ap held at_))
      (same_output s t h k (counting rest) (λ o. absurd (rw at_ at o))) tt)
Step-IsHeld s s' t h k (end_of_file at_ after) = rw after (
    keeps s t h k s.counter s.owner s.output_owner waiting
      (same_owners s t h k waiting (sym (ap held at_)))
      (same_output s t h k waiting (λ o. absurd (rw at_ at o))) tt)
Step-IsHeld s s' t h k (lock_output at_ free after) = rw after (
    keeps s t h k s.counter s.owner (some t) (printing 0 [])
      (same_owners s t h k (printing 0 []) (sym (ap held at_))) (λ u e. inl (cc, tt)) (omega arith))
Step-IsHeld s s' t h k (lock_value {i} {printed} at_ below free after) = rw after (
    keeps s t h k s.counter (update s.owner i (some t)) s.output_owner (reading i printed)
      (one_more_owner s t h k (reading i printed) i (ap held at_) refl)
      (same_output s t h k (reading i printed) (λ o. tt)) below)
Step-IsHeld s s' t h k (read_value {i} {printed} at_ after) = rw after (
    keeps s t h k s.counter s.owner s.output_owner (reported i (printed ++ s.counter i ∷ []))
      (same_owners s t h k (reported i (printed ++ s.counter i ∷ [])) (sym (ap held at_)))
      (same_output s t h k (reported i (printed ++ s.counter i ∷ [])) (λ o. tt))
      (rw at_ at (k.within t)))
Step-IsHeld s s' t h k (unlock_value {i} {printed} at_ after) =
    let below : i < alpha_size = rw at_ at (k.within t) in
    rw after (
      keeps s t h k s.counter (update s.owner i none) s.output_owner (printing (i + 1) printed)
        (one_less_owner s t h k (printing (i + 1) printed) i (ap held at_))
        (same_output s t h k (printing (i + 1) printed) (λ o. tt)) (omega arith))
Step-IsHeld s s' t h k (unlock_output {printed} at_ after) = rw after (
    keeps s t h k s.counter s.owner none (finished printed)
      (same_owners s t h k (finished printed) (sym (ap held at_))) (λ u e. absurd cc) tt)

MainStep-IsHeld : (s s' : System) → IsHeld s → MainStep s s' → IsHeld s'
MainStep-IsHeld s s' k (lock_announce at_ free after) =
    rw after
      (record { holder = k.holder; output_holder = λ t e. inr (cc, refl); within = k.within })
MainStep-IsHeld s s' k (unlock_announce at_ after) =
    rw after (record { holder = k.holder; output_holder = λ t e. absurd cc; within = k.within })

start-IsWithin : (files : List (List ℕ)) (t : ℕ) → IsWithin (worker (start files) t)
start-IsWithin [] t = tt
start-IsWithin (file ∷ files) zero = tt
start-IsWithin (file ∷ files) (suc t) = start-IsWithin files t

pub Reach-IsHeld : (files : List (List ℕ)) (s : System) → Reach files s → IsHeld s
Reach-IsHeld files s begin = record {
  holder = λ c t e. absurd cc;
  output_holder = λ t e. absurd cc;
  within = start-IsWithin files;
}
Reach-IsHeld files s' (step {s} t h reached next) =
    Step-IsHeld s s' t h (Reach-IsHeld files s reached) next
Reach-IsHeld files s' (main_step {s} reached next) =
    MainStep-IsHeld s s' (Reach-IsHeld files s reached) next
