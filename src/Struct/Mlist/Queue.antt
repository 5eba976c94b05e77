-- ===== src/Struct/Mlist/Queue.antt =====
-- Lists of lolibc/struct/mlist.c as sequences of elements and values, and what a store leaves of them.

use loos_lab.Memory.{Mem}
use loos_lab.Base.{ℕ, ◌+◌, ◌-◌, ◌^◌, ◌≤◌, ◌<◌, ◌≡◌, ◌∙◌, ◌≢◌, ◌⊎◌, List, [], ◌∷◌, arith}
use loos_lab.Memory.Words.{put64, get64, get64-put64_ne}

abbrev pub Apart : (a n b k : ℕ) → Type 0
Apart a n b k = (a + n ≤ b) ⊎ (b + k ≤ a)

-- From `p` on along `next` stand the elements of `xs` with their values, and then NULL.
abbrev pub Chain : Mem → (p : ℕ) → List (ℕ × ℕ) → Type 0
Chain m p [] = p ≡ 0
Chain m p ((e, value) ∷ xs) = (p ≡ e) × (get64 m (e + 16) ≡ value) × Chain m (get64 m (e + 8)) xs

abbrev pub last_elem : List (ℕ × ℕ) → ℕ
last_elem [] = 0
last_elem ((e, value) ∷ []) = e
last_elem ((e, value) ∷ (x ∷ xs)) = last_elem (x ∷ xs)

-- The chunk of the element `e`, with its header, shares no byte with the other chunks.
abbrev pub AllApart : (e : ℕ) → List (ℕ × ℕ) → Type 0
AllApart e [] = Unit
AllApart e ((k, value) ∷ xs) = Apart (e - 16) 40 (k - 16) 40 × AllApart e xs

-- An address that `malloc` can have handed out.
abbrev pub IsChunk : (list e : ℕ) → Type 0
IsChunk list e = (16 ≤ e) × (e < 2 ^ 64) × Apart (e - 16) 40 list 16

abbrev pub Separate : (list : ℕ) → List (ℕ × ℕ) → Type 0
Separate list [] = Unit
Separate list ((e, value) ∷ xs) = IsChunk list e × AllApart e xs × Separate list xs

-- The `prev` of the first element of `xs` is `k`, and that of each other one is the element before it.
abbrev pub Backs : Mem → (k : ℕ) → List (ℕ × ℕ) → Type 0
Backs m k [] = Unit
Backs m k ((e, value) ∷ xs) = (get64 m e ≡ k) × Backs m e xs

-- The `prev` links of all elements but the first: `mlist_pop` leaves that of the new first element as it was.
abbrev pub Links : Mem → List (ℕ × ℕ) → Type 0
Links m [] = Unit
Links m ((e, value) ∷ xs) = Backs m e xs

-- At `list` stands a list of the elements and values `xs`.
pub record IsMlist (m : Mem) (list : ℕ) (xs : List (ℕ × ℕ)) : Type 0 where
  pub not_null : list ≢ 0
  pub chain : Chain m (get64 m list) xs
  pub last : get64 m (list + 8) ≡ last_elem xs
  pub links : Links m xs
  pub separate : Separate list xs

-- The 8 bytes at `a` are no `next` and no `data` of an element.
abbrev pub Misses : (a : ℕ) → List (ℕ × ℕ) → Type 0
Misses a [] = Unit
Misses a ((e, value) ∷ xs) = Apart a 8 (e + 8) 16 × Misses a xs

pub Chain-store :
    (m : Mem) (p a v : ℕ) (xs : List (ℕ × ℕ))
    → Misses a xs
    → Chain m p xs
    → Chain (put64 m a v) p xs
Chain-store m p a v [] miss c = c
Chain-store m p a v ((e, value) ∷ xs) miss c = (
  c.0,
  get64-put64_ne m a (e + 16) v (omega (arith, miss.0)) ∙ c.1,
  rw (get64-put64_ne m a (e + 8) v (omega (arith, miss.0)))
      (Chain-store m (get64 m (e + 8)) a v xs miss.1 c.2),
)

pub Chain-start :
    (m : Mem) (list p : ℕ) (xs : List (ℕ × ℕ)) → Chain m p xs → Separate list xs → p < 2 ^ 64
Chain-start m list p [] c s = omega (arith, c)
Chain-start m list p ((e, value) ∷ xs) c s = omega (arith, c.0, s.0.1)

-- The 8 bytes at `a` are in no field of an element.
abbrev pub Clear : (a : ℕ) → List (ℕ × ℕ) → Type 0
Clear a [] = Unit
Clear a ((e, value) ∷ xs) = Apart a 8 e 24 × Clear a xs

pub Clear-Misses : (a : ℕ) (xs : List (ℕ × ℕ)) → Clear a xs → Misses a xs
Clear-Misses a [] c = tt
Clear-Misses a ((e, value) ∷ xs) c = (omega (arith, c.0), Clear-Misses a xs c.1)

pub Backs-store :
    (m : Mem) (k a v : ℕ) (xs : List (ℕ × ℕ)) → Clear a xs → Backs m k xs → Backs (put64 m a v) k xs
Backs-store m k a v [] clear b = tt
Backs-store m k a v ((e, value) ∷ xs) clear b =
    (get64-put64_ne m a e v (omega (arith, clear.0)) ∙ b.0, Backs-store m e a v xs clear.1 b.1)

pub Links-store :
    (m : Mem) (a v : ℕ) (xs : List (ℕ × ℕ)) → Clear a xs → Links m xs → Links (put64 m a v) xs
Links-store m a v [] clear l = tt
Links-store m a v ((e, value) ∷ xs) clear l = Backs-store m e a v xs clear.1 l

-- A store into the list, or into another chunk, misses the elements.
pub Clear-list :
    (list a : ℕ) (xs : List (ℕ × ℕ)) → list ≤ a → a + 8 ≤ list + 16 → Separate list xs → Clear a xs
Clear-list list a [] lo hi s = tt
Clear-list list a ((e, value) ∷ xs) lo hi s = (omega (arith, s.0), Clear-list list a xs lo hi s.2)

pub Clear-chunk :
    (list e a : ℕ) (xs : List (ℕ × ℕ))
    → e - 16 ≤ a
    → a + 8 ≤ e - 16 + 40
    → AllApart e xs
    → Separate list xs
    → Clear a xs
Clear-chunk list e a [] lo hi apart s = tt
Clear-chunk list e a ((k, value) ∷ xs) lo hi apart s =
    (omega (arith, apart.0, s.0), Clear-chunk list e a xs lo hi apart.1 s.2)

pub Misses-list :
    (list a : ℕ) (xs : List (ℕ × ℕ)) → list ≤ a → a + 8 ≤ list + 16 → Separate list xs → Misses a xs
Misses-list list a xs lo hi s = Clear-Misses a xs (Clear-list list a xs lo hi s)

pub Misses-chunk :
    (list e a : ℕ) (xs : List (ℕ × ℕ))
    → e - 16 ≤ a
    → a + 8 ≤ e - 16 + 40
    → AllApart e xs
    → Separate list xs
    → Misses a xs
Misses-chunk list e a xs lo hi apart s = Clear-Misses a xs (Clear-chunk list e a xs lo hi apart s)

-- `head` and `tail` tell a list of one element from a longer one.
pub last-ne-first :
    (list e value : ℕ) (x : ℕ × ℕ) (xs : List (ℕ × ℕ))
    → AllApart e (x ∷ xs)
    → Separate list (x ∷ xs)
    → 16 ≤ e
    → last_elem (x ∷ xs) ≢ e
last-ne-first list e value (k, v) [] apart s le eq = absurd (omega (arith, apart.0, s.0.0, eq))
last-ne-first list e value (k, v) (y ∷ ys) apart s le eq =
    last-ne-first list e value y ys apart.1 s.2 le eq

-- A store into a chunk that the list does not use leaves the list.
pub IsMlist-store :
    (m : Mem) (list e a v : ℕ) (xs : List (ℕ × ℕ))
    → IsChunk list e
    → AllApart e xs
    → e - 16 ≤ a
    → a + 8 ≤ e - 16 + 40
    → IsMlist m list xs
    → IsMlist (put64 m a v) list xs
IsMlist-store m list e a v xs chunk apart lo hi q = record {
  not_null = q.not_null;
  chain = rw (get64-put64_ne m a list v (omega (arith, chunk))) (
      Chain-store m (get64 m list) a v xs (Misses-chunk list e a xs lo hi apart q.separate)
        q.chain);
  last = get64-put64_ne m a (list + 8) v (omega (arith, chunk)) ∙ q.last;
  links = Links-store m a v xs (Clear-chunk list e a xs lo hi apart q.separate) q.links;
  separate = q.separate;
}
