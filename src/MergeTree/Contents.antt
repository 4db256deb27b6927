-- ===== src/MergeTree/Contents.antt =====
-- A list of segments, and its strings one after another.
use mathlib.Core.List.{append-nil, append_assoc, perm_middle}
use mathlib.Core.List.Perm
use native.Mathlib.Nat.{
  div-add-mod', mod-lt, div-add-mod, mul-mod_left, mod-eq_of_lt, mul-add-mod_self_right,
}
use sysprogramming_examples.Prelude.{
  ℕ, zero, suc, ◌+◌, ◌-◌, ◌*◌, ◌/◌, ◌%◌, ◌≤◌, ◌<◌, ◌≡◌, ◌≢◌, sym, ap, ◌∙◌, List, [], ◌∷◌, ◌++◌,
  Perm, arith,
}
use sysprogramming_examples.Memory.{length, get_or, set}
use sysprogramming_examples.Memory.Laws.{length-set}
use sysprogramming_examples.Memory.Index.{get_or-set}
use sysprogramming_examples.Order.{All}

module _ {ℓ} {A : Type ℓ} where
  abbrev pub concat : List (List A) → List A
  concat [] = []
  concat (s ∷ segments) = s ++ concat segments

  append_cancel : (l : List A) {a b : List A} → Perm (l ++ a) (l ++ b) → Perm a b
  append_cancel [] p = p
  append_cancel (x ∷ l) p = append_cancel l (Perm.cons_inv p)

  swap_front : (l m r : List A) → Perm (l ++ (m ++ r)) (m ++ (l ++ r))
  swap_front [] m r = Perm.rfl
  swap_front (x ∷ l) m r =
      Perm.trans (Perm.cons x (swap_front l m r)) (Perm.symm (perm_middle m (l ++ r)))

  -- A segment that is replaced.
  concat-set :
      (v : List A) (segments : List (List A)) (i : ℕ)
      → i < length segments
      → Perm (get_or segments i [] ++ concat (set segments i v)) (v ++ concat segments)
  concat-set v [] i h = absurd (omega arith)
  concat-set v (s ∷ segments) zero h = swap_front s v (concat segments)
  concat-set v (s ∷ segments) (suc i) h =
      let replaced = concat-set v segments i (omega arith) in
      Perm.trans (swap_front (get_or segments i []) s (concat (set segments i v)))
        (Perm.trans (Perm.append_left s replaced) (swap_front s v (concat segments)))

  -- A segment gets the strings of another one, which has none afterwards.
  pub concat-merged :
      (v : List A) (segments : List (List A)) (i j : ℕ)
      → i < j
      → j < length segments
      → Perm v (get_or segments i [] ++ get_or segments j [])
      → Perm (concat (set (set segments i v) j [])) (concat segments)
  concat-merged v segments i j hi hj p =
      let l = get_or segments i [] in
      let r = get_or segments j [] in
      let middle = set segments i v in
      let other : get_or middle j [] ≡ r =
        ground (arith, get_or-set [] segments i j v (omega arith)) in
      let first = concat-set v segments i (omega arith) in
      let second : Perm (r ++ concat (set middle j [])) (concat middle) =
        rw other at (concat-set [] middle j (omega (arith, length-set segments i v))) in
      append_cancel (l ++ r) (
        rw (append_assoc l r (concat (set middle j []))) (
          Perm.trans (Perm.append_left l second)
            (Perm.trans first (Perm.append_right (concat segments) p))))

  pub get_or-All {κ} :
      (P : List A → Type κ) (segments : List (List A)) (i : ℕ)
      → P []
      → All P segments
      → P (get_or segments i [])
  get_or-All P [] i e h = e
  get_or-All P (s ∷ segments) zero e h = h.0
  get_or-All P (s ∷ segments) (suc i) e h = get_or-All P segments i e h.1

  pub set-All {κ} :
      (P : List A → Type κ) (segments : List (List A)) (i : ℕ) (v : List A)
      → P v
      → All P segments
      → All P (set segments i v)
  set-All P [] i v p h = h
  set-All P (s ∷ segments) zero v p h = (p, h.1)
  set-All P (s ∷ segments) (suc i) v p h = (h.0, set-All P segments i v p h.1)

  -- The only segment with strings.
  pub concat-first :
      (s : List A) (segments : List (List A))
      → ((k : ℕ) → get_or segments k [] ≡ [])
      → concat (s ∷ segments) ≡ s
  concat-first s [] h = append-nil s
  concat-first s (t ∷ segments) h =
      ap (λ l. s ++ (l ++ concat segments)) (h 0) ∙ concat-first s segments (λ k. h (suc k))

one_part : (s n r : ℕ) → 0 < s → s * n ≡ r → r < 2 * s → r ≢ 0 → r ≡ s
one_part s zero r h e k m = absurd (m (omega arith))
one_part s (suc zero) r h e k m = omega arith
one_part s (suc (suc n)) r h e k m =
    let more : s * suc (suc n) ≡ s * n + 2 * s = grind arith in absurd (omega arith)

-- What is divisible by `s` and not by 2 * `s` is `s` more than what is divisible by 2 * `s`.
pub odd_multiple :
    (k s : ℕ) → 0 < s → k % s ≡ 0 → k % (2 * s) ≢ 0 → (s ≤ k) × ((k - s) % (2 * s) ≡ 0)
odd_multiple k s h e n =
    let r = k % (2 * s) in
    let q = k / (2 * s) in
    let whole : q * (2 * s) + r ≡ k = div-add-mod' k (2 * s) in
    let small : r < 2 * s = mod-lt k (omega arith) in
    let double : q * (2 * s) ≡ q * 2 * s = grind arith in
    let rest : r % s ≡ 0 =
      sym (mul-add-mod_self_right (q * 2) s r)
      ∙ ap (λ x. (x + r) % s) (sym double)
      ∙ ap (λ x. x % s) whole
      ∙ e in
    let parts : s * (r / s) + r % s ≡ r = div-add-mod r s in
    let once : r ≡ s = one_part s (r / s) r h (omega arith) small n in
    let front : k - s ≡ q * (2 * s) = omega arith in
    (omega arith, ap (λ x. x % (2 * s)) front ∙ mul-mod_left q (2 * s))

-- Multiples of 2 * `s` are multiples of `s`, and `s` more is none of 2 * `s`.
pub even_multiple : (k s : ℕ) → 0 < s → k % (2 * s) ≡ 0 → k % s ≡ 0
even_multiple k s h e =
    let whole : k / (2 * s) * (2 * s) + k % (2 * s) ≡ k = div-add-mod' k (2 * s) in
    let double : k / (2 * s) * (2 * s) ≡ k / (2 * s) * 2 * s = grind arith in
    let multiple : k ≡ k / (2 * s) * 2 * s = omega arith in
    ap (λ x. x % s) multiple ∙ mul-mod_left (k / (2 * s) * 2) s

pub next_multiple : (k s : ℕ) → 0 < s → k % (2 * s) ≡ 0 → (k + s) % (2 * s) ≡ s
next_multiple k s h e =
    let whole : k / (2 * s) * (2 * s) + k % (2 * s) ≡ k = div-add-mod' k (2 * s) in
    let multiple : k + s ≡ k / (2 * s) * (2 * s) + s = omega arith in
    ap (λ x. x % (2 * s)) multiple
    ∙ mul-add-mod_self_right (k / (2 * s)) (2 * s) s
    ∙ mod-eq_of_lt (omega arith)
