-- ===== src/Struct/ListHead/Ring.antt =====
-- What a ring of lolibc/kstruct/list.h holds, and what insertion and removal at any place do to it.

use loos_lab.Base.{
  ℕ, ◌≡◌, refl, ◌≢◌, ◌⊎◌, inl, inr, true, false, ◌||◌, List, [], ◌∷◌, ◌++◌, arith, has, Distinct,
}
use loos_lab.Struct.ListHead.{Links, init_list_head, insert_between, list_del}

-- From `a` the links lead through `xs` to `b`, in both directions.
abbrev pub Chain : Links → ℕ → List ℕ → ℕ → Type 0
Chain l a [] b = (l.next a ≡ b) × (l.prev b ≡ a)
Chain l a (x ∷ xs) b = (l.next a ≡ x) × (l.prev x ≡ a) × Chain l x xs b

-- The ring at `head` holds the elements `xs`, in this order.
abbrev pub Ring : Links → ℕ → List ℕ → Type 0
Ring l head xs = Chain l head xs head × Distinct (head ∷ xs)

abbrev pub first_of : List ℕ → ℕ → ℕ
first_of [] b = b
first_of (x ∷ xs) b = x

abbrev pub last_of : ℕ → List ℕ → ℕ
last_of a [] = a
last_of a (x ∷ xs) = last_of x xs

pub Chain-next :
    (l : Links) (a : ℕ) (xs : List ℕ) (b : ℕ) → Chain l a xs b → l.next a ≡ first_of xs b
Chain-next l a [] b c = c.0
Chain-next l a (x ∷ xs) b c = c.0

pub Chain-prev :
    (l : Links) (a : ℕ) (xs : List ℕ) (b : ℕ) → Chain l a xs b → l.prev b ≡ last_of a xs
Chain-prev l a [] b c = c.1
Chain-prev l a (x ∷ xs) b c = Chain-prev l x xs b c.2

pub last_of-in : (a : ℕ) (xs : List ℕ) → has (last_of a xs) (a ∷ xs) ≡ true
last_of-in a [] = ground arith
last_of-in a (x ∷ xs) = ground (arith, last_of-in x xs)

pub first_of-in : (ys : List ℕ) (b : ℕ) → (first_of ys b ≡ b) ⊎ (has (first_of ys b) ys ≡ true)
first_of-in [] b = inl refl
first_of-in (y ∷ ys) b = inr (ground arith)

pub has-append : (y : ℕ) (xs ys : List ℕ) → has y (xs ++ ys) ≡ has y xs || has y ys
has-append y [] ys = refl
has-append y (x ∷ xs) ys = ground (arith, has-append y xs ys)

pub Chain-mid-prev :
    (l : Links) (a : ℕ) (xs : List ℕ) (e : ℕ) (ys : List ℕ) (b : ℕ)
    → Chain l a (xs ++ e ∷ ys) b
    → l.prev e ≡ last_of a xs
Chain-mid-prev l a [] e ys b c = c.1
Chain-mid-prev l a (x ∷ xs) e ys b c = Chain-mid-prev l x xs e ys b c.2

pub Chain-mid-next :
    (l : Links) (a : ℕ) (xs : List ℕ) (e : ℕ) (ys : List ℕ) (b : ℕ)
    → Chain l a (xs ++ e ∷ ys) b
    → l.next e ≡ first_of ys b
Chain-mid-next l a [] e ys b c = Chain-next l e ys b c.2
Chain-mid-next l a (x ∷ xs) e ys b c = Chain-mid-next l x xs e ys b c.2

-- The links that a chain does not use may change.
pub Chain-frame :
    (l l' : Links) (a : ℕ) (xs : List ℕ) (b : ℕ)
    → Chain l a xs b
    → ((y : ℕ) → has y (a ∷ xs) ≡ true → l'.next y ≡ l.next y)
    → ((y : ℕ) → (has y xs ≡ true) ⊎ (y ≡ b) → l'.prev y ≡ l.prev y)
    → Chain l' a xs b
Chain-frame l l' a [] b c sn sp = (ground (arith, sn a), ground (arith, sp b))
Chain-frame l l' a (x ∷ xs) b c sn sp = (
  ground (arith, sn a),
  ground (arith, sp x),
  Chain-frame l l' x xs b c.2 (λ y h. sn y (ground arith)) (λ y h. sp y (ground arith)),
)

pub insert-Chain :
    (l : Links) (a : ℕ) (xs ys : List ℕ) (b new : ℕ)
    → Chain l a (xs ++ ys) b
    → Distinct (a ∷ xs ++ ys)
    → has b (xs ++ ys) ≡ false
    → has new (a ∷ xs ++ ys) ≡ false
    → new ≢ b
    → Chain (insert_between l (first_of ys b) (last_of a xs) new) a (xs ++ new ∷ ys) b
unfolding insert_between
insert-Chain l a [] [] b new c d hb hn nb = ground arith
insert-Chain l a [] (y ∷ ys) b new c d hb hn nb =
    let l' = insert_between l y a new in
    let tail : Chain l' y ys b =
      Chain-frame l l' y ys b c.2 (λ z h. ground arith) (λ z h. ground arith) in
    (ground arith, ground arith, (ground arith, ground arith, tail))
insert-Chain l a (x ∷ xs) ys b new c d hb hn nb = (
  ground (arith, has-append (last_of x xs) xs ys, last_of-in x xs),
  ground (arith, has-append x xs ys, first_of-in ys b),
  insert-Chain l x xs ys b new c.2 d.1 (ground arith) (ground arith) nb,
)

-- The removed element is alone afterwards; the rest is as before.
pub delete-Chain :
    (l : Links) (a : ℕ) (xs : List ℕ) (e : ℕ) (ys : List ℕ) (b : ℕ)
    → Chain l a (xs ++ e ∷ ys) b
    → Distinct (a ∷ xs ++ e ∷ ys)
    → has b (xs ++ e ∷ ys) ≡ false
    → Chain (list_del l e) a (xs ++ ys) b
unfolding list_del init_list_head
delete-Chain l a [] e [] b c d hb = ground arith
delete-Chain l a [] e (y ∷ ys) b c d hb =
    let l' = list_del l e in
    let tail : Chain l' y ys b =
      Chain-frame l l' y ys b c.2.2 (λ z h. ground arith) (λ z h. ground arith) in
    (ground arith, ground arith, tail)
delete-Chain l a (x ∷ xs) e ys b c d hb =
    let prev_e = Chain-mid-prev l x xs e ys b c.2 in
    let next_e = Chain-mid-next l x xs e ys b c.2 in
    (
      ground (
        arith,
        prev_e,
        has-append (last_of x xs) xs (e ∷ ys),
        has-append e xs (e ∷ ys),
        last_of-in x xs,
      ),
      ground (arith, next_e, has-append x xs (e ∷ ys), has-append e xs (e ∷ ys), first_of-in ys b),
      delete-Chain l x xs e ys b c.2 d.1 (ground arith),
    )
