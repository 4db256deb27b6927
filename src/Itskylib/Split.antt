-- ===== src/Itskylib/Split.antt =====
-- posix/lib/lib.c: is_string_char and split_to_array, which moves the strings of a buffer together
-- in place. A pointer into the buffer is an index, a `char` is the number of its byte. The two-level
-- structure for the string pointers is a list in their order: string n is in block
-- n / MAX_BLOCK_SIZE, and a block number of MAX_BLOCK_COUNT or more is outside. `malloc` succeeds. A
-- number of strings that does not fit into an `int` is a fault.
pub mod Collect
pub mod Laws
use sysprogramming_examples.Prelude.{
  ℕ, zero, suc, ◌+◌, ◌*◌, ◌^◌, Bool, ◌&&◌, ◌||◌, List, [], ◌∷◌, ◌++◌, leb, ltb, if◌then◌else◌,
}
use sysprogramming_examples.Prelude.Run.{Run, ok, fault, no_fuel, ◌>>=◌}
use sysprogramming_examples.Memory.{length, load, store}

pub is_string_char : ℕ → Bool
is_string_char c =
    (leb 65 c && leb c 90)
    || ((leb 48 c && leb c 57) || ((leb 97 c && leb c 122) || (leb 160 c && leb c 255)))

-- The buffer and the pointers after a string is copied.
pub record Copied : Type 0 where
  pub content : List ℕ
  pub source_pointer : ℕ
  pub target_pointer : ℕ

-- The first inner loop goes through one string and its end.
pub copy_string :
    (fuel : ℕ) → (content : List ℕ) → (source_pointer target_pointer end_pointer : ℕ) → Run Copied
copy_string zero content source target end = no_fuel
copy_string (suc fuel) content source target end =
    let string_char : ℕ → Run Copied = λ c. do
      content' ← store content target c
      copy_string fuel content' (source + 1) (target + 1) end
    in let separator : Run Copied = do
      content' ← store content target 0
      ok (record { content = content'; source_pointer = source + 1; target_pointer = target + 1 })
      in let body : Run Copied = do
        c ← load content source
        if is_string_char c then string_char c else separator
        in if leb source end
          then body
          else ok (record { content = content; source_pointer = source; target_pointer = target })

-- The second inner loop goes to the beginning of the next string.
pub skip_separators : (fuel : ℕ) → (content : List ℕ) → (source_pointer end_pointer : ℕ) → Run ℕ
skip_separators zero content source end = no_fuel
skip_separators (suc fuel) content source end =
    let more = skip_separators fuel content (source + 1) end in
    let body : Run ℕ = do c ← load content source; if is_string_char c then ok source else more
    in if leb source end then body else ok source

-- MAX_BLOCK_SIZE
abbrev pub max_block_size : ℕ
max_block_size = 100000

-- MAX_BLOCK_COUNT * MAX_BLOCK_SIZE
abbrev pub max_strings : ℕ
max_strings = 100000 * max_block_size

-- `struct string_array`, and the buffer that its pointers point into
pub record StringArray : Type 0 where
  pub content : List ℕ
  pub strings : List ℕ

-- The outer loop
pub split_loop :
    (fuel : ℕ)
    → (content : List ℕ) → (source_pointer target_pointer end_pointer : ℕ) → (strings : List ℕ)
    → Run StringArray
split_loop zero content source target end strings = no_fuel
split_loop (suc fuel) content source target end strings =
    let next : Copied → List ℕ → Run StringArray = λ c strings'. do
      source' ← skip_separators (end + 2) c.content c.source_pointer end
      split_loop fuel c.content source' c.target_pointer end strings'
    in let found : Copied → Run StringArray =
        λ c. if ltb (length strings) max_strings then next c (strings ++ target ∷ []) else fault in
      let body : Run StringArray = do
        c ← copy_string (end + 2) content source target end
        if ltb target c.target_pointer then found c else next c strings
      in if leb source end then body else ok (record { content = content; strings = strings })

-- The loop over `i` that fills `result.strings`, with `rounds` = string_count - i. `strings` are the
-- pointers in the two-level structure.
unfoldable pub collect :
    (rounds i block_pos string_pos : ℕ) → (strings result : List ℕ) → Run (List ℕ)
collect zero i block_pos string_pos strings result = ok result
collect (suc rounds) i block_pos string_pos strings result =
    let full = leb max_block_size (string_pos + 1) in
    let next : List ℕ → Run (List ℕ) = λ result'.
      collect rounds (i + 1) (if full then block_pos + 1 else block_pos)
        (if full then 0 else string_pos + 1) strings result' in
    do
      pointer ← load strings (block_pos * max_block_size + string_pos)
      result' ← store result i pointer
      next result'

-- The array of the result; `malloc` gives memory for a number of pointers.
unfoldable pub result_of : (malloc : ℕ → List ℕ) → StringArray → Run StringArray
result_of malloc split =
    let string_count = length split.strings in
    let copied : Run StringArray = do
      strings ← collect string_count 0 0 0 split.strings (malloc string_count)
      ok (record { content = split.content; strings = strings })
    in if ltb string_count (2 ^ 31) then copied else fault

-- `content` has `size` + 1 bytes.
unfoldable pub split_to_array :
    (malloc : ℕ → List ℕ) → (content : List ℕ) → (size : ℕ) → Run StringArray
unfolding split_loop copy_string skip_separators is_string_char
split_to_array malloc content size = do
  split ← split_loop (size + 2) content 0 0 size []
  result_of malloc split
