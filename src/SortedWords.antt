-- ===== src/SortedWords.antt =====
-- posix/socket/tcp-thread-sorted-once-server.c: the words of a file, sorted once and sent to each
-- client in lines. A string is the list of its bytes. A write behind the end of `line` is a fault,
-- and so are an exit with an error and a length that does not fit into an `int`. The calls for threads and sockets succeed; `pthread_once` lets one
-- thread sort the words before any is sent.
pub mod Tokens
pub mod Laws
pub mod Printed
use sysprogramming_examples.Prelude.{
  ℕ, zero, suc, ◌+◌, ◌-◌, ◌^◌, ◌==◌, Bool, true, false, not, ◌&&◌, ◌||◌, List, [], ◌∷◌, ◌++◌,
  Option, none, some, leb, ltb, if◌then◌else◌,
}
use sysprogramming_examples.Prelude.Run.{Run, ok, fault, ◌>>=◌}
use sysprogramming_examples.Memory.{length}
use sysprogramming_examples.SortCommon.{CompareFun3, MetricFun2, compare_str_full}
use sysprogramming_examples.Isort.{isort_r}
use sysprogramming_examples.Msort.{msort_r}
use sysprogramming_examples.Hsort.{hsort_r}
use sysprogramming_examples.TernaryHsort.{ternary_hsort_r}
use sysprogramming_examples.Fsort.{fsort_r}
use sysprogramming_examples.Psort.Parallel.{Platform}

abbrev pub line_size : ℕ
line_size = 200

abbrev pub newline : ℕ
newline = 10

abbrev pub space : ℕ
space = 32

-- `enum mt_sort_type`
pub data MtSortType : Type 0 where
  mt_heap_sort mt_ternary_heap_sort mt_quick_sort mt_flash_sort : MtSortType
  mt_insertion_sort mt_merge_sort : MtSortType

-- The switch over `opt_char`; none stands for the usage message, which ends the program.
unfoldable pub selected_sort_type : (opt_char : ℕ) → Option MtSortType
selected_sort_type opt_char =
    if opt_char == 104
    then some mt_heap_sort
    else if opt_char == 116
    then some mt_ternary_heap_sort
    else if opt_char == 102
    then some mt_flash_sort
    else if opt_char == 113
    then some mt_quick_sort
    else if opt_char == 105
    then some mt_insertion_sort
    else if opt_char == 109
    then some mt_merge_sort
    else none

-- `argv_opt` has two characters, the first of which is a minus sign.
unfoldable pub parse_option : (argv_opt : List ℕ) → Option MtSortType
parse_option (sign ∷ opt_char ∷ []) = if sign == 45 then selected_sort_type opt_char else none
parse_option [] = none
parse_option (sign ∷ []) = none
parse_option (sign ∷ opt_char ∷ more ∷ rest) = none

-- `(void *) NULL` as a parameter that is not used
abbrev null : ℕ
null = 0

module _ {κ} {Double : Type κ} (p : Platform (List ℕ) ℕ Double)
    (metric_str_full : MetricFun2 (List ℕ) Double ℕ) where
  -- thread_once, with the words that read_to_array has read.
  unfoldable pub thread_once : MtSortType → (strings : List (List ℕ)) → Run (List (List ℕ))
  thread_once mt_heap_sort strings = hsort_r strings (length strings) compare_str_full null
  thread_once mt_ternary_heap_sort strings =
      ternary_hsort_r strings (length strings) compare_str_full null
  thread_once mt_quick_sort strings = ok (p.qsort_r strings (length strings) compare_str_full null)
  thread_once mt_flash_sort strings =
      fsort_r p.doubles strings (length strings) compare_str_full null metric_str_full null
  thread_once mt_insertion_sort strings = isort_r strings (length strings) compare_str_full null
  thread_once mt_merge_sort strings =
      msort_r strings (length strings) compare_str_full null (p.malloc (length strings))

-- `*pos = '\n'` and the `write_string` of the line, which is `used_len` = length line bytes before.
unfoldable pub finish_line : (line : List ℕ) → Run (List ℕ)
finish_line line = if ltb (length line) (line_size + 1) then ok (line ++ newline ∷ []) else fault

-- `sprintf(pos, " %s", string)`, which writes a terminating 0, too.
unfoldable pub append_word : (line string : List ℕ) → Run (List ℕ)
append_word line string =
    if leb (length line + (length string + 2)) (line_size + 1)
    then ok (line ++ space ∷ string)
    else fault

-- What `string` leaves in `line`, before which `sent` has been sent.
unfoldable pub place_word :
    (sent : List (List ℕ)) → (line string : List ℕ) → Run (List (List ℕ) × List ℕ)
place_word sent line string =
    let appended : Run (List (List ℕ) × List ℕ) = do
      line' ← append_word line string
      ok (sent, line')
    in if ltb (line_size + 1) (length string + 1)
      then ok (sent ++ (string ∷ (newline ∷ []) ∷ []), line)
      else appended

-- One turn of the loop over the words: the strings that are sent, and the line afterwards.
unfoldable pub next_word : (line string : List ℕ) → Run (List (List ℕ) × List ℕ)
next_word line string =
    let flushed : Run (List (List ℕ) × List ℕ) = do
      full ← finish_line line
      place_word (full ∷ []) [] string
    in let placed : Run (List (List ℕ) × List ℕ) =
        if ltb line_size (length line + (length string + 1))
        then flushed
        else place_word [] line string in
      if ltb (length line + (length string + 1)) (2 ^ 31) then placed else fault

-- The loop over the words and the line after it: the strings that are sent.
unfoldable pub word_lines : (line : List ℕ) → (strings : List (List ℕ)) → Run (List (List ℕ))
word_lines [] [] = ok []
word_lines (c ∷ line) [] = do full ← finish_line (c ∷ line); ok (full ∷ [])
word_lines line (string ∷ strings) = do
  (sent, line') ← next_word line string
  more ← word_lines line' strings
  ok (sent ++ more)

-- What the server does with a connection: strings sent with `write_string`, messages on its own output,
-- and the end.
pub data Action : Type 0 where
  sent : List ℕ → Action
  printed_wrong_message : List ℕ → Action
  printed_transmitted closed : Action

-- "GETX" and "DONE"
abbrev pub getx : List ℕ
getx = 71 ∷ 69 ∷ 84 ∷ 88 ∷ []

abbrev pub done : List ℕ
done = 68 ∷ 79 ∷ 78 ∷ 69 ∷ []

pub same_bytes : List ℕ → List ℕ → Bool
same_bytes [] [] = true
same_bytes [] (d ∷ t) = false
same_bytes (c ∷ s) [] = false
same_bytes (c ∷ s) (d ∷ t) = (c == d) && same_bytes s t

-- `n` minus signs.
abbrev rule : ℕ → List ℕ
rule zero = []
rule (suc n) = 45 ∷ rule n

abbrev send_all : List (List ℕ) → List Action → List Action
send_all [] rest = rest
send_all (s ∷ strings) rest = sent s ∷ send_all strings rest

-- transmit_sorted_words, with what the two calls of read_4byte_string get from the client, and the
-- line "thread %d\n".
unfoldable pub transmit_sorted_words :
    (request confirmation thread_line : List ℕ) → (strings : List (List ℕ)) → Run (List Action)
unfolding same_bytes
transmit_sorted_words request confirmation thread_line strings =
    let finished =
      if same_bytes confirmation done then [] else printed_wrong_message confirmation ∷ [] in
    let served : Run (List Action) = do
      lines ← word_lines [] strings
      let header =
          (newline ∷ rule 60 ++ newline ∷ []) ∷ thread_line ∷ (rule 60 ++ newline ∷ []) ∷ []
      let footer = (rule 60 ++ newline ∷ newline ∷ []) ∷ [] ∷ []
      ok (
          send_all header
            (send_all lines (send_all footer (printed_transmitted ∷ finished ++ closed ∷ []))))
    in if same_bytes request getx then served else ok (printed_wrong_message request ∷ closed ∷ [])
