-- ===== src/Memory.antt =====
-- The memory of an array: `nmemb` elements of `size` bytes each from `base` on are a list, the
-- pointer `POINTER(base, idx, size)` of posix/include/sortimpl.h is the index `idx`. An access
-- that leaves the array is a fault.
pub mod Laws
pub mod Access
pub mod Index
use sysprogramming_examples.Prelude.{
  ℕ, zero, suc, ◌+◌, ◌≤◌, Bool, ◌&&◌, List, [], ◌∷◌, ◌++◌, leb, ltb, if◌then◌else◌,
}
use sysprogramming_examples.Prelude.Run.{Run, ok, fault, ◌>>=◌}

module _ {ℓ} {A : Type ℓ} where
  abbrev pub length : List A → ℕ
  length [] = 0
  length (x ∷ xs) = suc (length xs)

  abbrev pub take : ℕ → List A → List A
  take zero xs = []
  take (suc n) [] = []
  take (suc n) (x ∷ xs) = x ∷ take n xs

  abbrev pub drop : ℕ → List A → List A
  drop zero xs = xs
  drop (suc n) [] = []
  drop (suc n) (x ∷ xs) = drop n xs

  abbrev pub get_or : List A → ℕ → A → A
  get_or [] i d = d
  get_or (x ∷ xs) zero d = x
  get_or (x ∷ xs) (suc i) d = get_or xs i d

  -- A write out of bounds changes nothing.
  abbrev pub set : List A → ℕ → A → List A
  set [] i v = []
  set (x ∷ xs) zero v = v ∷ xs
  set (x ∷ xs) (suc i) v = x ∷ set xs i v

  -- Read one element through a pointer.
  unfoldable pub load : List A → ℕ → Run A
  load [] i = fault
  load (x ∷ xs) zero = ok x
  load (x ∷ xs) (suc i) = load xs i

  -- Write one element through a pointer.
  unfoldable pub store : List A → ℕ → A → Run (List A)
  store a i v = if ltb i (length a) then ok (set a i v) else fault

  -- `memcpy` and `memmove` of `n` elements, from index `s` of `src` to index `d` of `dst`.
  unfoldable pub move_block : (dst : List A) (d : ℕ) (src : List A) (s n : ℕ) → Run (List A)
  move_block dst d src s n =
      if leb (d + n) (length dst) && leb (s + n) (length src)
      then ok (take d dst ++ take n (drop s src) ++ drop (d + n) dst)
      else fault

  -- What a function that works in place on `n` elements does to the array, called with a pointer to
  -- the element `start`: it reaches these elements only.
  unfoldable pub on_part :
      (work : List A → ℕ → Run (List A)) → List A → (start n : ℕ) → Run (List A)
  on_part work a start n =
      let changed : Run (List A) = do
        part ← work (take n (drop start a)) n
        ok (take start a ++ (part ++ drop (start + n) a))
      in if leb (start + n) (length a) then changed else fault
