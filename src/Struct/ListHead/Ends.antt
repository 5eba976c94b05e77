-- ===== src/Struct/ListHead/Ends.antt =====
-- The operations of lolibc/kstruct/list.h on the lists that rings hold: both ends, and any place.

use mathlib.Core.Path.{subst}
use loos_lab.Base.{
  ℕ, ◌≡◌, refl, sym, ap, ◌∙◌, false, List, [], ◌∷◌, ◌++◌, arith, ◌==◌, length, length-append, has,
  Distinct,
}
use loos_lab.Struct.ListHead.{
  Links, init_list_head, insert_between, list_add, list_add_tail, list_del, list_is_empty, list_pop,
  list_pop_tail,
}
use loos_lab.Struct.ListHead.Ring.{
  Chain, Ring, first_of, last_of, Chain-next, Chain-prev, has-append, insert-Chain, delete-Chain,
}

append-nil : (xs : List ℕ) → xs ++ [] ≡ xs
append-nil [] = refl
append-nil (x ∷ xs) = ap (λ (ys : List ℕ). x ∷ ys) (append-nil xs)

Distinct-insert :
    (xs ys : List ℕ) (new : ℕ)
    → Distinct (xs ++ ys)
    → has new (xs ++ ys) ≡ false
    → Distinct (xs ++ new ∷ ys)
Distinct-insert [] ys new d h = (h, d)
Distinct-insert (x ∷ xs) ys new d h = (
  ground (arith, has-append x xs ys, has-append x xs (new ∷ ys)),
  Distinct-insert xs ys new d.1 (ground arith),
)

Distinct-delete :
    (xs : List ℕ) (e : ℕ) (ys : List ℕ) → Distinct (xs ++ e ∷ ys) → Distinct (xs ++ ys)
Distinct-delete [] e ys d = d.1
Distinct-delete (x ∷ xs) e ys d =
    (ground (arith, has-append x xs ys, has-append x xs (e ∷ ys)), Distinct-delete xs e ys d.1)

-- `init_list_head` makes an empty ring.
pub init_list_head-Ring : (l : Links) (head : ℕ) → Ring (init_list_head l head) head []
unfolding init_list_head
init_list_head-Ring l head = ground arith

-- `list_is_empty` tells whether the ring holds nothing.
pub list_is_empty-Ring :
    (l : Links) (head : ℕ) (xs : List ℕ) → Ring l head xs → list_is_empty l head ≡ (length xs == 0)
unfolding list_is_empty
list_is_empty-Ring l head [] r = ground arith
list_is_empty-Ring l head (x ∷ xs) r = ground arith

-- `list_add` puts a new element in front.
pub list_add-Ring :
    (l : Links) (head new : ℕ) (xs : List ℕ)
    → Ring l head xs
    → has new (head ∷ xs) ≡ false
    → Ring (list_add l head new) head (new ∷ xs)
unfolding list_add
list_add-Ring l head new xs r h =
    let chain = insert-Chain l head [] xs head new r.0 r.1 (ground arith) h (ground arith) in
    let same : list_add l head new ≡ insert_between l (first_of xs head) head new =
      ap (λ (n : ℕ). insert_between l n head new) (Chain-next l head xs head r.0) in
    (subst (λ (l' : Links). Chain l' head (new ∷ xs) head) (sym same) chain, ground arith)

-- `list_add_tail` puts a new element behind the others.
pub list_add_tail-Ring :
    (l : Links) (head new : ℕ) (xs : List ℕ)
    → Ring l head xs
    → has new (head ∷ xs) ≡ false
    → Ring (list_add_tail l head new) head (xs ++ (new ∷ []))
unfolding list_add_tail
list_add_tail-Ring l head new xs r h =
    let same : xs ++ [] ≡ xs = append-nil xs in
    let r' : Ring l head (xs ++ []) = rw same r in
    let h' : has new (head ∷ xs ++ []) ≡ false = rw same h in
    let chain = insert-Chain l head xs [] head new r'.0 r'.1 r'.1.0 h' (ground arith) in
    (rw (sym (Chain-prev l head xs head r.0)) at chain, Distinct-insert (head ∷ xs) [] new r'.1 h')

-- `list_del` takes out one element, wherever it stands; the others keep their order, and the element is
-- a ring of its own.
pub list_del-Ring :
    (l : Links) (head : ℕ) (xs : List ℕ) (e : ℕ) (ys : List ℕ)
    → Ring l head (xs ++ e ∷ ys)
    → Ring (list_del l e) head (xs ++ ys) × Ring (list_del l e) e []
list_del-Ring l head xs e ys r = (
  (delete-Chain l head xs e ys head r.0 r.1 (ground arith), Distinct-delete (head ∷ xs) e ys r.1),
  unfold list_del init_list_head in ground arith,
)

-- `list_pop` and `list_pop_tail` answer 0 on an empty ring and change nothing.
pub list_pop_empty :
    (l : Links) (head : ℕ)
    → Ring l head []
    → (list_pop l head ≡ (0, l)) × (list_pop_tail l head ≡ (0, l))
unfolding list_pop list_pop_tail
list_pop_empty l head r =
    let none_left = list_is_empty-Ring l head [] r in
    (ground (arith, none_left), ground (arith, none_left))

-- `list_pop` takes out the first element.
pub list_pop-Ring :
    (l : Links) (head x : ℕ) (xs : List ℕ)
    → Ring l head (x ∷ xs)
    → ((list_pop l head).0 ≡ x) × Ring (list_pop l head).1 head xs
unfolding list_pop
list_pop-Ring l head x xs r =
    let eq : list_pop l head ≡ (x, list_del l x) =
      ground (arith, list_is_empty-Ring l head (x ∷ xs) r, r.0.0) in
    (
      ap (λ (p : ℕ × Links). p.0) eq,
      subst (λ (p : ℕ × Links). Ring p.1 head xs) (sym eq) (list_del-Ring l head [] x xs r).0,
    )

last_of-snoc : (a : ℕ) (xs : List ℕ) (x : ℕ) → last_of a (xs ++ x ∷ []) ≡ x
last_of-snoc a [] x = refl
last_of-snoc a (y ∷ ys) x = last_of-snoc y ys x

-- `list_pop_tail` takes out the last element.
pub list_pop_tail-Ring :
    (l : Links) (head : ℕ) (xs : List ℕ) (x : ℕ)
    → Ring l head (xs ++ x ∷ [])
    → ((list_pop_tail l head).0 ≡ x) × Ring (list_pop_tail l head).1 head xs
unfolding list_pop_tail
list_pop_tail-Ring l head xs x r =
    let last : l.prev head ≡ x =
      Chain-prev l head (xs ++ x ∷ []) head r.0 ∙ last_of-snoc head xs x in
    let eq : list_pop_tail l head ≡ (x, list_del l x) =
      ground (arith, list_is_empty-Ring l head (xs ++ x ∷ []) r, length-append xs (x ∷ []), last) in
    let rest : Ring (list_del l x) head xs =
      rw (append-nil xs) at (list_del-Ring l head xs x [] r).0 in
    (ap (λ (p : ℕ × Links). p.0) eq, subst (λ (p : ℕ × Links). Ring p.1 head xs) (sym eq) rest)
