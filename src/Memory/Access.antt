-- ===== src/Memory/Access.antt =====
-- Accesses at a position that a decomposition of the array names.
use mathlib.Core.List.{append_assoc}
use sysprogramming_examples.Prelude.{
  ℕ, zero, suc, ◌+◌, ◌≤◌, ◌<◌, ◌≡◌, refl, ap, sym, ◌∙◌, List, [], ◌∷◌, ◌++◌, arith, le→leb, lt→ltb,
}
use sysprogramming_examples.Prelude.Run.{ok}
use sysprogramming_examples.Memory.{length, take, drop, set, load, store, move_block}
use sysprogramming_examples.Memory.Laws.{
  length-append, length-drop, take-append, drop-append, drop-drop,
}

module _ {ℓ} {A : Type ℓ} where
  pub load-middle :
      (i : ℕ) (l : List A) (x : A) (r : List A) → i ≡ length l → load (l ++ x ∷ r) i ≡ ok x
  unfolding load
  load-middle zero [] x r h = refl
  load-middle zero (y ∷ l) x r h = absurd (omega arith)
  load-middle (suc i) [] x r h = absurd (omega arith)
  load-middle (suc i) (y ∷ l) x r h = load-middle i l x r (omega arith)

  set-middle :
      (i : ℕ) (l : List A) (x v : A) (r : List A) → i ≡ length l → set (l ++ x ∷ r) i v ≡ l ++ v ∷ r
  set-middle zero [] x v r h = refl
  set-middle zero (y ∷ l) x v r h = absurd (omega arith)
  set-middle (suc i) [] x v r h = absurd (omega arith)
  set-middle (suc i) (y ∷ l) x v r h = ap (◌∷◌ y) (set-middle i l x v r (omega arith))

  pub store-middle :
      (i : ℕ) (l : List A) (x v : A) (r : List A)
      → i ≡ length l
      → store (l ++ x ∷ r) i v ≡ ok (l ++ v ∷ r)
  unfolding store
  store-middle i l x v r h =
      let inside : i < length (l ++ x ∷ r) = omega (arith, length-append l (x ∷ r)) in
      rw (lt→ltb _ _ inside, set-middle i l x v r h)

  pub move_block_lem :
      (dst : List A) (d : ℕ) (src : List A) (s n : ℕ)
      → d + n ≤ length dst
      → s + n ≤ length src
      → move_block dst d src s n ≡ ok (take d dst ++ take n (drop s src) ++ drop (d + n) dst)
  unfolding move_block
  move_block_lem dst d src s n h k = rw (le→leb _ _ h, le→leb _ _ k)

  -- The elements of `a` from index `p` on begin with `l`.
  abbrev pub At : List A → ℕ → List A → Type ℓ
  At a p l = (rest : List A) × (drop p a ≡ l ++ rest)

  pub At-load : (a : List A) (p : ℕ) (x : A) (l : List A) → At a p (x ∷ l) → load a p ≡ ok x
  unfolding load
  At-load [] zero x l (rest, e) = absurd (cc)
  At-load [] (suc p) x l (rest, e) = absurd (cc)
  At-load (y ∷ a) zero x l (rest, e) = cc
  At-load (y ∷ a) (suc p) x l h = At-load a p x l h

  pub At-next : (a : List A) (p : ℕ) (x : A) (l : List A) → At a p (x ∷ l) → At a (p + 1) l
  At-next a p x l (rest, e) = (rest, sym (drop-drop 1 p (p + 1) a (omega arith)) ∙ ap (drop 1) e)

  pub At-length :
      (a : List A) (p : ℕ) (l : List A) → At a p l → p ≤ length a → p + length l ≤ length a
  At-length a p l (rest, e) h = omega (arith, length-drop p a, ap length e, length-append l rest)

  -- A nonempty stretch of the array lies in it.
  pub At-inside :
      (a : List A) (p : ℕ) (x : A) (l : List A) → At a p (x ∷ l) → p + suc (length l) ≤ length a
  At-inside a p x l (rest, e) =
      omega (arith, length-drop p a, ap length e, length-append (x ∷ l) rest)

  -- A block copied behind what is already written.
  pub move_block-At :
      (out junk a l : List A) (result p n : ℕ)
      → result ≡ length out
      → n ≡ length l
      → n ≤ length junk
      → p + n ≤ length a
      → At a p l
      → move_block (out ++ junk) result a p n ≡ ok (out ++ (l ++ drop n junk))
  move_block-At out junk a l result p n hr hn hj hp (rest, e) =
      let front = take-append result out junk hr in
      let copied : take n (drop p a) ≡ l = ap (take n) e ∙ take-append n l rest hn in
      let back : drop (result + n) (out ++ junk) ≡ drop n junk =
        sym (drop-drop n result (result + n) (out ++ junk) (omega arith))
        ∙ ap (drop n) (drop-append result out junk hr) in
      move_block_lem (out ++ junk) result a p n (omega (arith, length-append out junk)) hp
      ∙ rw (front, copied, back) (simp append_assoc)
