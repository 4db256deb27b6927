-- ===== src/MemoryCount.antt =====
-- posix/threads/thread-memory-count-mutex.c: a thread for each file counts its bytes in one array of
-- counters, with a mutex for each counter, and prints the counters when its file has been read. The
-- threads and main, which announces them under the mutex for the output, run in any interleaving of
-- their steps. After that main only waits for the threads. The calls for files and threads succeed, and no
-- counter reaches 2^63.
pub mod Invariant
pub mod Steps
pub mod Laws
pub mod Termination
pub mod Holders
pub mod Progress
use sysprogramming_examples.Prelude.{
  ℕ, suc, ◌+◌, ◌<◌, ◌==◌, ◌≡◌, List, [], ◌∷◌, ◌++◌, Option, none, some, if◌then◌else◌,
}
use sysprogramming_examples.Memory.{length, get_or, set}

-- `ALPHA_SIZE`
abbrev pub alpha_size : ℕ
alpha_size = 256

-- Where a thread is in `run`. `rest` is what it has still to read of its file, `printed` the values
-- that it has printed.
pub data Worker : Type 0 where
  -- before the next byte
  counting : (rest : List ℕ) → Worker
  -- with the mutex of `c`, before `counter[c]` is read, and before it is written
  locked : (c : ℕ) → (rest : List ℕ) → Worker
  loaded : (c val : ℕ) → (rest : List ℕ) → Worker
  -- before the mutex of `c` is released
  stored : (c : ℕ) → (rest : List ℕ) → Worker
  -- before the mutex for the output is taken
  waiting : Worker
  -- with that mutex, before counter `i`, and with the mutex of `i`, before it is read and after that
  printing : (i : ℕ) → (printed : List ℕ) → Worker
  reading : (i : ℕ) → (printed : List ℕ) → Worker
  reported : (i : ℕ) → (printed : List ℕ) → Worker
  finished : (printed : List ℕ) → Worker

-- Where main is, behind the creation of the threads: before its message, with the mutex for the output,
-- and waiting for the threads.
pub data Main : Type 0 where
  starting announcing joining : Main

-- `data.counter`, who has which mutex of `mutex_arr`, who has `output_mutex`, main and the threads. As
-- an owner, main has the number behind that of the last thread.
pub record System : Type 0 where
  pub counter : ℕ → ℕ
  pub owner : ℕ → Option ℕ
  pub output_owner : Option ℕ
  pub main_thread : Main
  pub workers : List Worker

-- An array with one element changed.
abbrev pub update {ℓ} : {A : Type ℓ} → (ℕ → A) → ℕ → A → ℕ → A
update f c v x = if x == c then v else f x

abbrev pub worker : System → ℕ → Worker
worker s t = get_or s.workers t (finished [])

-- Thread `t` goes on as `next`.
abbrev pub goes_on : System → (t : ℕ) → (next : Worker) → System
goes_on s t next = record {
  counter = s.counter;
  owner = s.owner;
  output_owner = s.output_owner;
  main_thread = s.main_thread;
  workers = set s.workers t next;
}

abbrev pub with_owner : System → (c : ℕ) → Option ℕ → System
with_owner s c holder = record {
  counter = s.counter;
  owner = update s.owner c holder;
  output_owner = s.output_owner;
  main_thread = s.main_thread;
  workers = s.workers;
}

abbrev pub with_output_owner : System → Option ℕ → System
with_output_owner s holder = record {
  counter = s.counter;
  owner = s.owner;
  output_owner = holder;
  main_thread = s.main_thread;
  workers = s.workers;
}

abbrev pub with_counter : System → (c val : ℕ) → System
with_counter s c val = record {
  counter = update s.counter c val;
  owner = s.owner;
  output_owner = s.output_owner;
  main_thread = s.main_thread;
  workers = s.workers;
}

abbrev pub with_main : System → Main → System
with_main s next = record {
  counter = s.counter;
  owner = s.owner;
  output_owner = s.output_owner;
  main_thread = next;
  workers = s.workers;
}

-- One step of main.
pub data MainStep (s : System) (s' : System) : Type 0 where
  lock_announce :
      s.main_thread ≡ starting
      → s.output_owner ≡ none
      → s' ≡ with_main (with_output_owner s (some (length s.workers))) announcing
      → MainStep s s'
  unlock_announce :
      s.main_thread ≡ announcing → s' ≡ with_main (with_output_owner s none) joining → MainStep s s'

-- One step of thread `t`. A mutex can be locked while nobody has it; `counter[c]++` is a read and a
-- write.
pub data Step (s : System) (t : ℕ) (s' : System) : Type 0 where
  lock_counter :
      {c : ℕ} {rest : List ℕ}
      → worker s t ≡ counting (c ∷ rest)
      → s.owner c ≡ none
      → s' ≡ goes_on (with_owner s c (some t)) t (locked c rest)
      → Step s t s'
  load_counter :
      {c : ℕ} {rest : List ℕ}
      → worker s t ≡ locked c rest
      → s' ≡ goes_on s t (loaded c (s.counter c) rest)
      → Step s t s'
  store_counter :
      {c val : ℕ} {rest : List ℕ}
      → worker s t ≡ loaded c val rest
      → s' ≡ goes_on (with_counter s c (val + 1)) t (stored c rest)
      → Step s t s'
  unlock_counter :
      {c : ℕ} {rest : List ℕ}
      → worker s t ≡ stored c rest
      → s' ≡ goes_on (with_owner s c none) t (counting rest)
      → Step s t s'
  end_of_file : worker s t ≡ counting [] → s' ≡ goes_on s t waiting → Step s t s'
  lock_output :
      worker s t ≡ waiting
      → s.output_owner ≡ none
      → s' ≡ goes_on (with_output_owner s (some t)) t (printing 0 [])
      → Step s t s'
  lock_value :
      {i : ℕ} {printed : List ℕ}
      → worker s t ≡ printing i printed
      → i < alpha_size
      → s.owner i ≡ none
      → s' ≡ goes_on (with_owner s i (some t)) t (reading i printed)
      → Step s t s'
  read_value :
      {i : ℕ} {printed : List ℕ}
      → worker s t ≡ reading i printed
      → s' ≡ goes_on s t (reported i (printed ++ s.counter i ∷ []))
      → Step s t s'
  unlock_value :
      {i : ℕ} {printed : List ℕ}
      → worker s t ≡ reported i printed
      → s' ≡ goes_on (with_owner s i none) t (printing (i + 1) printed)
      → Step s t s'
  unlock_output :
      {printed : List ℕ}
      → worker s t ≡ printing alpha_size printed
      → s' ≡ goes_on (with_output_owner s none) t (finished printed)
      → Step s t s'

-- A thread for each file, and the counters at 0.
abbrev start_workers : List (List ℕ) → List Worker
start_workers [] = []
start_workers (file ∷ files) = counting file ∷ start_workers files

abbrev pub start : List (List ℕ) → System
start files = record {
  counter = λ c. 0;
  owner = λ c. none;
  output_owner = none;
  main_thread = starting;
  workers = start_workers files;
}

-- The states that main and its threads can get to.
pub data Reach (files : List (List ℕ)) : System → Type 0 where
  begin : Reach files (start files)
  step :
      {s s' : System} (t : ℕ) → t < length s.workers → Reach files s → Step s t s' → Reach files s'
  main_step : {s s' : System} → Reach files s → MainStep s s' → Reach files s'

-- How often `c` occurs.
abbrev pub occurrences : (c : ℕ) → List ℕ → ℕ
occurrences c [] = 0
occurrences c (b ∷ bytes) = (if b == c then 1 else 0) + occurrences c bytes

abbrev pub total : (c : ℕ) → List (List ℕ) → ℕ
total c [] = 0
total c (file ∷ files) = occurrences c file + total c files
