-- ===== src/Fsort.antt =====
-- posix/lib/fsort.c: flashsort. The arithmetic of doubles is a parameter. `malloc` and `alloca`
-- succeed; an exit with an error message is a fault. An array of counters is a list of its numbers.
pub mod Classes
use sysprogramming_examples.Prelude.{
  ℕ, zero, suc, ◌+◌, ◌-◌, ◌%◌, ◌==◌, Bool, ◌&&◌, ◌||◌, List, [], ◌∷◌, ltb, leb, is_neg, is_pos,
  is_zero, size_mod, if◌then◌else◌,
}
use sysprogramming_examples.Prelude.Run.{Run, ok, fault, no_fuel, ◌>>=◌}
use sysprogramming_examples.Memory.{load, store, on_part}
use sysprogramming_examples.SortCommon.{
  CompareFun2, CompareFun3, MetricFun1, MetricFun2, compare_extend, metric_extend, swap_elements,
}
use sysprogramming_examples.Hsort.{hsort_r}
use sysprogramming_examples.Isort.{isort_r}

-- What the source uses of `double`: the arithmetic, `<`, the conversions from and to `size_t`, and
-- the constants 1e-9 and 0.42.
pub record Doubles {κ} (Double : Type κ) : Type κ where
  pub plus : Double → Double → Double
  pub minus : Double → Double → Double
  pub times : Double → Double → Double
  pub divided : Double → Double → Double
  pub less : Double → Double → Bool
  pub from_size : ℕ → Double
  pub to_size : Double → ℕ
  pub tiny : Double
  pub class_factor : Double

module _ {κ} {Double : Type κ} (d : Doubles Double) where
  -- `prod` after the two tests
  clamp : (prod last : Double) → Double
  clamp prod last =
      let low = if d.less prod (d.from_size 0) then d.from_size 0 else prod in
      if d.less last low then last else low

  unfoldable pub calculate_k : (factor value : Double) → (lsize : ℕ) → ℕ
  unfolding clamp
  calculate_k factor value lsize =
      let prod = d.plus (d.times factor value) d.tiny in
      d.to_size (clamp prod (d.from_size ((lsize + size_mod - 1) % size_mod)))

-- `l[k]++`
unfoldable pub increment : List ℕ → ℕ → Run (List ℕ)
increment l k = do count ← load l k; store l k ((count + 1) % size_mod)

-- The loop over k ≥ 1 in which `l` becomes the sums, and `ll` gets them, with `rounds` = lsize - k.
unfoldable pub cumulate : (rounds k : ℕ) → (l ll : List ℕ) → Run (List ℕ × List ℕ)
cumulate zero k l ll = ok (l, ll)
cumulate (suc rounds) k l ll = do
  count ← load l k
  below ← load l (k - 1)
  l' ← store l k ((count + below) % size_mod)
  ll' ← store ll (k + 1) ((count + below) % size_mod)
  cumulate rounds (k + 1) l' ll'

-- A list of `n` times the same number.
unfoldable pub filled : ℕ → ℕ → List ℕ
filled zero x = []
filled (suc n) x = x ∷ filled n x

module _ {ℓ κ} {A : Type ℓ} {M : Type κ} (compare : CompareFun3 A M) (argc : M) where
  -- The least element, and the greatest one with its index, with `rounds` = nmemb - i.
  unfoldable pub extremes :
      (rounds i : ℕ) → List A → (amin : A) → (idx_max : ℕ) → (amax : A) → Run (A × (ℕ × A))
  extremes zero i base amin idx_max amax = ok (amin, (idx_max, amax))
  extremes (suc rounds) i base amin idx_max amax = do
    x ← load base i
    extremes rounds (i + 1) base (if is_neg (compare x amin argc) then x else amin)
        (if is_pos (compare x amax argc) then i else idx_max)
        (if is_pos (compare x amax argc) then x else amax)

  -- `hsort_r` or `isort_r` for the `n` elements of a class.
  unfoldable pub sort_class : List A → (start n : ℕ) → Run (List A)
  sort_class base start n =
      if ltb 7 n
      then on_part (λ part m. hsort_r part m compare argc) base start n
      else if ltb 1 n
      then on_part (λ part m. isort_r part m compare argc) base start n
      else ok base

  -- The loop over the classes, with `rounds` = lsize - k.
  unfoldable pub sort_classes : (rounds k nmemb : ℕ) → (ll : List ℕ) → List A → Run (List A)
  sort_classes zero k nmemb ll base = ok base
  sort_classes (suc rounds) k nmemb ll base =
      let wrong : ℕ → ℕ → ℕ → Bool = λ from to n. (ltb 1 n && ltb to from) || ltb nmemb n in
      let sort_from : ℕ → ℕ → Run (List A) =
        λ from n. do base' ← sort_class base from n; sort_classes rounds (k + 1) nmemb ll base'
      in do
        from ← load ll k
        to ← load ll (k + 1)
        let n = (to + size_mod - from) % size_mod
        if wrong from to n then fault else sort_from from n

module _ {ℓ} {A : Type ℓ} (class : A → ℕ) where
  -- `class` is what calculate_k gives for the metric of an element. The count of the elements in each
  -- class, with `rounds` = nmemb - i.
  unfoldable pub count_classes : (rounds i : ℕ) → List A → List ℕ → Run (List ℕ)
  count_classes zero i base l = ok l
  count_classes (suc rounds) i base l = do
    x ← load base i
    l' ← increment l (class x)
    count_classes rounds (i + 1) base l'

  -- `while (j >= l[k])`
  unfoldable pub next_unmoved : (fuel : ℕ) → List A → List ℕ → (j k : ℕ) → Run (ℕ × ℕ)
  next_unmoved zero base l j k = no_fuel
  next_unmoved (suc fuel) base l j k =
      let advance : Run (ℕ × ℕ) = do
        x ← load base (j + 1)
        next_unmoved fuel base l (j + 1) (class x)
      in do end ← load l k; if leb end j then advance else ok (j, k)

  -- `while (j != l[k])`: the element in `flash` goes to the end of its class, which is still free, and
  -- the element found there is the next one.
  unfoldable pub flash_cycle :
      (fuel : ℕ)
      → List A
      → List ℕ
      → (j k nmove : ℕ) → (flash : A) → Run (List A × (List ℕ × (ℕ × ℕ)))
  flash_cycle zero base l j k nmove flash = no_fuel
  flash_cycle (suc fuel) base l j k nmove flash =
      let move : Run (List A × (List ℕ × (ℕ × ℕ))) = do
        let k' = class flash
        end ← load l k'
        let place = (end + size_mod - 1) % size_mod
        found ← load base place
        base' ← store base place flash
        l' ← store l k' place
        flash_cycle fuel base' l' j k' (nmove + 1) found
      in do end ← load l k; if j == end then ok (base, (l, (k, nmove))) else move

  -- `while (nmove < nmemb - 1)`
  unfoldable pub permute :
      (fuel : ℕ) → (nmemb : ℕ) → List A → List ℕ → (j k nmove : ℕ) → Run (List A)
  permute zero nmemb base l j k nmove = no_fuel
  permute (suc fuel) nmemb base l j k nmove =
      let cycle : Run (List A) = do
        (j', k') ← next_unmoved (suc nmemb) base l j k
        flash ← load base j'
        (base', (l', (k'', nmove'))) ← flash_cycle (suc nmemb) base l j' k' nmove flash
        permute fuel nmemb base' l' j' k'' nmove'
      in if ltb nmove (nmemb - 1) then cycle else ok base

module _ {ℓ κ} {A : Type ℓ} {M : Type κ} where
  -- What follows the search for the extremes: counting, permutation, and sorting of the classes.
  unfoldable pub fsort_by_classes :
      List A → (nmemb lsize idx_max : ℕ) → (class : A → ℕ) → CompareFun3 A M → M → Run (List A)
  fsort_by_classes base nmemb lsize idx_max class compare argc = do
    l ← count_classes class nmemb 0 base (filled lsize 0)
    first ← load l 0
    ll ← store (filled (lsize + 1) 0) 1 first
    (l', ll') ← cumulate (lsize - 1) 1 l ll
    swapped ← swap_elements base 0 idx_max
    permuted ← permute class (suc nmemb) nmemb swapped l' 0 (lsize - 1) 0
    sort_classes compare argc lsize 0 nmemb ll' permuted

module _ {ℓ κ μ ν} {A : Type ℓ} {M : Type κ} {Double : Type μ} {MetricData : Type ν}
    (d : Doubles Double) where
  unfoldable pub fsort_f :
      List A
      → (nmemb : ℕ) → (factor : Double) → CompareFun3 A M
      → M
      → MetricFun2 A Double MetricData
      → MetricData
      → Run (List A)
  fsort_f base nmemb factor compare argc metric argm =
      let size = (calculate_k d (d.from_size nmemb) factor nmemb + 1) % size_mod in
      let lsize = if ltb size 2 then 2 else size in
      let body : Run (List A) = do
        start ← load base 0
        (amin, (idx_max, amax)) ← extremes compare argc nmemb 0 base start 0 start
        let amin_metric = metric amin argm
        let step = d.divided (d.from_size (lsize - 1)) (d.minus (metric amax argm) amin_metric)
        let class : A → ℕ = λ x. calculate_k d step (d.minus (metric x argm) amin_metric) lsize
        let by_classes = fsort_by_classes base nmemb lsize idx_max class compare argc
        if is_zero (compare amin amax argc) then ok base else by_classes
      in if leb nmemb 1 then ok base else body

  unfoldable pub fsort_r :
      List A
      → (nmemb : ℕ) → CompareFun3 A M
      → M
      → MetricFun2 A Double MetricData
      → MetricData
      → Run (List A)
  fsort_r base nmemb compare argc metric argm =
      fsort_f base nmemb d.class_factor compare argc metric argm

unfoldable pub fsort {ℓ μ} :
    {A : Type ℓ} {Double : Type μ}
    → Doubles Double
    → List A
    → (nmemb : ℕ) → CompareFun2 A
    → MetricFun1 A Double
    → Run (List A)
fsort d base nmemb compare metric = fsort_r d base nmemb compare_extend compare metric_extend metric
