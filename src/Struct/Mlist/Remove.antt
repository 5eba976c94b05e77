-- ===== src/Struct/Mlist/Remove.antt =====
-- `mlist_remove` of lolibc/struct/mlist.c on an element between two others.

use loos_lab.Memory.{Mem}
use loos_lab.Memory.Words.{put64, get64, get64-put64_ne}
use loos_lab.Struct.Mlist.Pop.{free_store}
use loos_lab.Base.{
  ℕ, zero, suc, ◌+◌, ◌-◌, ◌<◌, ◌≡◌, refl, sym, ap, ◌∙◌, ◌≢◌, List, [], ◌∷◌, ◌++◌, arith, eq→==,
  ne→==, length,
}
use loos_lab.Base.Run.{done}
use loos_lab.Libc.Stdlib.Heap.{Heap, free}
use loos_lab.Struct.Mlist.{
  mem_of, head, tail, elem_next, elem_data, mlist_is_empty, remove_elem, remove_loop, mlist_remove,
}
use loos_lab.Struct.Mlist.Queue.{
  Apart, Chain, last_elem, AllApart, IsChunk, Separate, IsMlist, Chain-store, Clear, Clear-Misses,
  Links-store, Clear-chunk, last-ne-first,
}

-- No element before the one that is looked for has the value.
abbrev pub NoneHas : (value : ℕ) → List (ℕ × ℕ) → Type 0
NoneHas value [] = Unit
NoneHas value ((k, d) ∷ xs) = (d ≢ value) × NoneHas value xs

AllApart-Apart :
    (k : ℕ) (before : List (ℕ × ℕ)) (e value : ℕ) (rest : List (ℕ × ℕ))
    → AllApart k (before ++ ((e, value) ∷ rest))
    → Apart (k - 16) 40 (e - 16) 40
AllApart-Apart k [] e value rest all = all.0
AllApart-Apart k ((j, d) ∷ before) e value rest all = AllApart-Apart k before e value rest all.1

behind :
    (list : ℕ) (before : List (ℕ × ℕ)) (e value : ℕ) (rest : List (ℕ × ℕ))
    → Separate list (before ++ ((e, value) ∷ rest))
    → IsChunk list e × AllApart e rest × Separate list rest
behind list [] e value rest s = s
behind list ((k, d) ∷ before) e value rest s = behind list before e value rest s.2

-- The link of a chunk is no part of an element, its own included.
Clear-link :
    (list : ℕ) (before : List (ℕ × ℕ)) (e value : ℕ) (rest : List (ℕ × ℕ))
    → Separate list (before ++ ((e, value) ∷ rest))
    → Clear (e - 16) (before ++ ((e, value) ∷ rest))
Clear-link list [] e value rest s =
    (omega (arith, s.0), Clear-chunk list e (e - 16) rest (omega arith) (omega arith) s.1 s.2)
Clear-link list ((k, d) ∷ before) e value rest s = (
  omega (
    arith,
    s.0,
    AllApart-Apart k before e value rest s.1,
    (behind list before e value rest s.2).0,
  ),
  Clear-link list before e value rest s.2,
)

last_behind :
    (before : List (ℕ × ℕ)) (e value : ℕ) (z : ℕ × ℕ) (after : List (ℕ × ℕ))
    → last_elem (before ++ ((e, value) ∷ (z ∷ after))) ≡ last_elem (z ∷ after)
last_behind [] e value z after = refl
last_behind (x ∷ []) e value z after = refl
last_behind (x ∷ (y ∷ before)) e value z after = last_behind (y ∷ before) e value z after

found_elem :
    (fuel : ℕ) (h : Heap) (list value p e : ℕ) (before rest : List (ℕ × ℕ))
    → Chain (mem_of h) p (before ++ ((e, value) ∷ rest))
    → Separate list (before ++ ((e, value) ∷ rest))
    → NoneHas value before
    → length before < fuel
    → remove_loop fuel h list value p ≡ done (remove_elem h list e)
unfolding remove_loop
found_elem zero h list value p e before rest c s no_match lt = absurd (omega arith)
found_elem (suc n) h list value p e [] rest c s no_match lt =
    let some_elem : e ≢ 0 = omega (arith, s.0) in
    rw (c.0, ne→== e 0 some_elem, eq→== (elem_data h e) value c.1) refl
found_elem (suc n) h list value p e ((k, d) ∷ before) rest c s no_match lt =
    let some_elem : k ≢ 0 = omega (arith, s.0) in
    let differ : elem_data h k ≢ value = λ same. no_match.0 (sym c.1 ∙ same) in
    rw (c.0, ne→== k 0 some_elem, ne→== (elem_data h k) value differ)
      (found_elem n h list value (elem_next h k) e before rest c.2 s.2 no_match.1 (omega arith))

removed :
    (fuel : ℕ) (h : Heap) (list value : ℕ)
    → list ≢ 0
    → head h list ≢ 0
    → mlist_remove fuel h list value ≡ remove_loop fuel h list value (head h list)
unfolding mlist_remove mlist_is_empty
removed fuel h list value not_null some_elem =
    rw (ne→== list 0 not_null, ne→== (head h list) 0 some_elem) refl

freed_inside :
    (h : Heap) (list e : ℕ) → e ≢ head h list → e ≢ tail h list → remove_elem h list e ≡ free h e
unfolding remove_elem
freed_inside h list e not_head not_tail =
    rw (ne→== e (head h list) not_head, ne→== e (tail h list) not_tail) refl

-- A store into the link of a chunk leaves the list.
linked :
    (m : Mem) (list e value : ℕ) (before rest : List (ℕ × ℕ)) (v : ℕ)
    → IsMlist m list (before ++ ((e, value) ∷ rest))
    → IsMlist (put64 m (e - 16) v) list (before ++ ((e, value) ∷ rest))
linked m list e value before rest v q =
    let all = before ++ ((e, value) ∷ rest) in
    let place = behind list before e value rest q.separate in
    record {
      not_null = q.not_null;
      chain = rw (get64-put64_ne m (e - 16) list v (omega (arith, place.0))) (
          Chain-store m (get64 m list) (e - 16) v all
            (Clear-Misses (e - 16) all (Clear-link list before e value rest q.separate)) q.chain);
      last = get64-put64_ne m (e - 16) (list + 8) v (omega (arith, place.0)) ∙ q.last;
      links = Links-store m (e - 16) v all (Clear-link list before e value rest q.separate) q.links;
      separate = q.separate;
    }

-- `mlist_remove` of the value of an element between two others frees the element and leaves a list of the same elements,
-- the freed one among them.
pub mlist_remove_keeps :
    (fuel : ℕ) (h : Heap) (list value e : ℕ) (x z : ℕ × ℕ) (before after : List (ℕ × ℕ))
    → IsMlist (mem_of h) list (x ∷ before ++ ((e, value) ∷ (z ∷ after)))
    → NoneHas value (x ∷ before)
    → length before + 1 < fuel
    → (mlist_remove fuel h list value ≡ done (free h e))
      × IsMlist (mem_of (free h e)) list (x ∷ before ++ ((e, value) ∷ (z ∷ after)))
mlist_remove_keeps fuel h list value e (k, d) z before after q no_match lt =
    let rest = z ∷ after in
    let place = behind list ((k, d) ∷ before) e value rest q.separate in
    let first : head h list ≡ k = q.chain.0 in
    let not_head : e ≢ head h list = λ same.
      omega (arith, same, first, AllApart-Apart k before e value rest q.separate.1, place.0) in
    let not_tail : e ≢ tail h list = λ same.
      last-ne-first list e value z after place.1 place.2 place.0.0
        (sym (last_behind ((k, d) ∷ before) e value z after) ∙ sym q.last ∙ sym same) in
    let (v, eq) = free_store h e place.0.0 place.0.1 in
    (
      removed fuel h list value q.not_null (omega (arith, first, q.separate.0))
          ∙ found_elem fuel h list value (head h list) e ((k, d) ∷ before) rest q.chain q.separate
              no_match (omega arith)
          ∙ ap (λ (h' : Heap). done h') (freed_inside h list e not_head not_tail),
      rw eq (linked (mem_of h) list e value ((k, d) ∷ before) rest v q),
    )
