-- ===== src/MemoryCount/Steps.antt =====
-- Each step of a thread keeps the invariant.
use sysprogramming_examples.Prelude.{
  ℕ, zero, suc, ◌+◌, ◌<◌, ◌≡◌, ◌≢◌, ◌==◌, refl, sym, ap, ◌∙◌, inl, inr, true, false, List, [], ◌∷◌,
  ◌++◌, Option, none, some, arith, Bool-cases,
}
use sysprogramming_examples.Memory.{length, get_or, set}
use sysprogramming_examples.Memory.Index.{get_or-set}
use sysprogramming_examples.MemoryCount.{
  Worker, counting, locked, loaded, stored, waiting, printing, reading, reported, finished, System,
  worker, update, Step, lock_counter, load_counter, store_counter, unlock_counter, end_of_file,
  lock_output, lock_value, read_value, unlock_value, unlock_output, occurrences, MainStep,
  lock_announce, unlock_announce,
}
use sysprogramming_examples.MemoryCount.Invariant.{held, pending, all_pending, IsCurrent, IsSound}

all_pending-set :
    (c : ℕ) (workers : List Worker) (t : ℕ) (next : Worker)
    → t < length workers
    → all_pending c (set workers t next) + pending c (get_or workers t (finished []))
      ≡ all_pending c workers + pending c next
all_pending-set c [] t next h = absurd (omega arith)
all_pending-set c (w ∷ workers) zero next h = omega arith
all_pending-set c (w ∷ workers) (suc t) next h =
    omega (arith, all_pending-set c workers t next (omega arith))

module _ (files : List (List ℕ)) (s : System) (t : ℕ) (h : t < length s.workers)
    (sound : IsSound files s) where
  -- What a step has to show.
  keeps :
      (counter : ℕ → ℕ) (owner : ℕ → Option ℕ) (output : Option ℕ) (next : Worker)
      → ((c : ℕ) → held next ≡ some c → owner c ≡ some t)
      → ((u c : ℕ) → u ≢ t → s.owner c ≡ some u → owner c ≡ some u)
      → IsCurrent counter next
      → ((u : ℕ) → u ≢ t → IsCurrent counter (worker s u))
      → ((c : ℕ) → counter c + pending c next ≡ s.counter c + pending c (worker s t))
      → IsSound files (record {
        counter = counter;
        owner = owner;
        output_owner = output;
        main_thread = s.main_thread;
        workers = set s.workers t next;
      })
  keeps counter owner output next own others mine theirs count =
      let after : System = record {
        counter = counter;
        owner = owner;
        output_owner = output;
        main_thread = s.main_thread;
        workers = set s.workers t next;
      } in
      let here : worker after t ≡ next =
        ground (arith, get_or-set (finished []) s.workers t t next h) in
      let there : (u : ℕ) → t ≢ u → worker after u ≡ worker s u =
        λ u e. ground (arith, get_or-set (finished []) s.workers t u next h) in
      record {
        owned = λ u c e. elim (Bool-cases (t == u)) [
          | inl same ↦
              let equal : t ≡ u = ground arith in
              own c (ap held (sym here ∙ ap (worker after) equal) ∙ e) ∙ ap some equal
          | inr apart ↦
              let different : t ≢ u = λ z. ground (arith, z) in
              others u c (λ z. different (sym z))
                (sound.owned u c (ap held (sym (there u different)) ∙ e))
        ];
        current = λ u. elim (Bool-cases (t == u)) [
          | inl same ↦ let equal : t ≡ u = ground arith in rw (← equal, here) mine
          | inr apart ↦
              let different : t ≢ u = λ z. ground (arith, z) in
              rw (there u different) (theirs u (λ z. different (sym z)))
        ];
        counted =
            λ c. omega (arith, all_pending-set c s.workers t next h, count c, sound.counted c);
      }

-- A mutex that nobody has is taken.
acquired :
    (owner : ℕ → Option ℕ) (t c u d : ℕ)
    → owner c ≡ none
    → owner d ≡ some u
    → update owner c (some t) d ≡ some u
acquired owner t c u d free e = elim (Bool-cases (d == c)) [
  | inr apart ↦ rw apart e
  | inl same ↦
      let equal : d ≡ c = ground arith in
      let clash : none ≡ some u = sym free ∙ ap owner (sym equal) ∙ e in absurd cc
]

-- The own mutex is released.
released :
    (owner : ℕ → Option ℕ) (t c u d : ℕ)
    → u ≢ t
    → owner c ≡ some t
    → owner d ≡ some u
    → update owner c none d ≡ some u
released owner t c u d other mine e = elim (Bool-cases (d == c)) [
  | inr apart ↦ rw apart e
  | inl same ↦
      let equal : d ≡ c = ground arith in
      let clash : some t ≡ some u = sym mine ∙ ap owner (sym equal) ∙ e in absurd (other cc)
]

now_owner :
    (owner : ℕ → Option ℕ) (t c d : ℕ) → some c ≡ some d → update owner c (some t) d ≡ some t
now_owner owner t c d e =
    let equal : d ≡ c = cc in let test : (d == c) ≡ true = ground arith in rw test refl

-- A write to another counter than that of a thread.
IsCurrent-update :
    (counter : ℕ → ℕ) (c val : ℕ) (w : Worker)
    → ((d : ℕ) → held w ≡ some d → d ≢ c)
    → IsCurrent counter w
    → IsCurrent (update counter c val) w
IsCurrent-update counter c val (counting rest) other h = tt
IsCurrent-update counter c val (locked d rest) other h = tt
IsCurrent-update counter c val (loaded d value rest) other h =
    let apart : d ≢ c = other d refl in let test : (d == c) ≡ false = ground arith in rw test h
IsCurrent-update counter c val (stored d rest) other h = tt
IsCurrent-update counter c val waiting other h = tt
IsCurrent-update counter c val (printing i printed) other h = tt
IsCurrent-update counter c val (reading i printed) other h = tt
IsCurrent-update counter c val (reported i printed) other h = tt
IsCurrent-update counter c val (finished printed) other h = tt

counted_once :
    (counter : ℕ → ℕ) (c val d : ℕ) (rest : List ℕ)
    → counter c ≡ val
    → update counter c (val + 1) d + occurrences d rest ≡ counter d + occurrences d (c ∷ rest)
counted_once counter c val d rest e = elim (Bool-cases (d == c)) [
  | inr apart ↦ let back : (c == d) ≡ false = ground arith in rw (apart, back) (omega arith)
  | inl same ↦
      let equal : d ≡ c = ground arith in
      let back : (c == d) ≡ true = ground arith in
      let value : counter d ≡ val = ap counter equal ∙ e in rw (same, back) (omega arith)
]

pub Step-IsSound :
    (files : List (List ℕ)) (s s' : System) (t : ℕ)
    → t < length s.workers
    → IsSound files s
    → Step s t s'
    → IsSound files s'
Step-IsSound files s s' t h sound (lock_counter {c} {rest} at_ free after) = rw after (
    keeps files s t h sound s.counter (update s.owner c (some t)) s.output_owner (locked c rest)
      (λ d e. now_owner s.owner t c d e) (λ u d other e. acquired s.owner t c u d free e) tt
      (λ u other. sound.current u) (λ d. rw at_ refl))
Step-IsSound files s s' t h sound (load_counter {c} {rest} at_ after) = rw after (
    keeps files s t h sound s.counter s.owner s.output_owner (loaded c (s.counter c) rest)
      (λ d e. sound.owned t d (ap held at_ ∙ e)) (λ u d other e. e) refl
      (λ u other. sound.current u) (λ d. rw at_ refl))
Step-IsSound files s s' t h sound (store_counter {c} {val} {rest} at_ after) =
    let mine : s.owner c ≡ some t = sound.owned t c (ap held at_) in
    let fresh : s.counter c ≡ val = rw at_ at (sound.current t) in
    rw after (
      keeps files s t h sound (update s.counter c (val + 1)) s.owner s.output_owner (stored c rest)
        (λ d e. sound.owned t d (ap held at_ ∙ e)) (λ u d other e. e) tt
        (λ u other.
          IsCurrent-update s.counter c (val + 1) (worker s u)
            (λ d holds equal.
              let clash : some u ≡ some t = sym (sound.owned u d holds) ∙ ap s.owner equal ∙ mine in
              other cc)
            (sound.current u))
        (λ d. rw at_ (counted_once s.counter c val d rest fresh)))
Step-IsSound files s s' t h sound (unlock_counter {c} {rest} at_ after) = rw after (
    keeps files s t h sound s.counter (update s.owner c none) s.output_owner (counting rest)
      (λ d e. absurd cc)
      (λ u d other e. released s.owner t c u d other (sound.owned t c (ap held at_)) e) tt
      (λ u other. sound.current u) (λ d. rw at_ refl))
Step-IsSound files s s' t h sound (end_of_file at_ after) = rw after (
    keeps files s t h sound s.counter s.owner s.output_owner waiting (λ d e. absurd cc)
      (λ u d other e. e) tt (λ u other. sound.current u) (λ d. rw at_ refl))
Step-IsSound files s s' t h sound (lock_output at_ free after) = rw after (
    keeps files s t h sound s.counter s.owner (some t) (printing 0 []) (λ d e. absurd cc)
      (λ u d other e. e) tt (λ u other. sound.current u) (λ d. rw at_ refl))
Step-IsSound files s s' t h sound (lock_value {i} {printed} at_ below free after) = rw after (
    keeps files s t h sound s.counter (update s.owner i (some t)) s.output_owner (reading i printed)
      (λ d e. now_owner s.owner t i d e) (λ u d other e. acquired s.owner t i u d free e) tt
      (λ u other. sound.current u) (λ d. rw at_ refl))
Step-IsSound files s s' t h sound (read_value {i} {printed} at_ after) = rw after (
    keeps files s t h sound s.counter s.owner s.output_owner
      (reported i (printed ++ s.counter i ∷ [])) (λ d e. sound.owned t d (ap held at_ ∙ e))
      (λ u d other e. e) tt (λ u other. sound.current u) (λ d. rw at_ refl))
Step-IsSound files s s' t h sound (unlock_value {i} {printed} at_ after) = rw after (
    keeps files s t h sound s.counter (update s.owner i none) s.output_owner
      (printing (i + 1) printed) (λ d e. absurd cc)
      (λ u d other e. released s.owner t i u d other (sound.owned t i (ap held at_)) e) tt
      (λ u other. sound.current u) (λ d. rw at_ refl))
Step-IsSound files s s' t h sound (unlock_output {printed} at_ after) = rw after (
    keeps files s t h sound s.counter s.owner none (finished printed) (λ d e. absurd cc)
      (λ u d other e. e) tt (λ u other. sound.current u) (λ d. rw at_ refl))

-- A step of main keeps it, too.
pub MainStep-IsSound :
    (files : List (List ℕ)) (s s' : System) → IsSound files s → MainStep s s' → IsSound files s'
MainStep-IsSound files s s' sound (lock_announce at_ free after) =
    rw after (record { owned = sound.owned; current = sound.current; counted = sound.counted })
MainStep-IsSound files s s' sound (unlock_announce at_ after) =
    rw after (record { owned = sound.owned; current = sound.current; counted = sound.counted })
