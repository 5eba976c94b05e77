-- ===== src/Struct/Map/Entries.antt =====
-- The map as the list of its entries.

use loos_lab.Base.{
  ℕ, zero, suc, ◌+◌, ◌-◌, ◌%◌, ◌^◌, ◌≤◌, ◌<◌, ◌≡◌, refl, ap, ◌∙◌, Bool, false, not, ◌&&◌, ◌||◌,
  some, List, [], ◌∷◌, ◌++◌, arith, ◌==◌, if◌then◌else◌, length, get_or, set, take, drop,
  length-set,
}
use loos_lab.Struct.Map.{Item, Map, map_add, find_loop, map_find, map_pop}

-- The array has its 16 places, and `len` of them are used.
pub record IsMap (m : Map) : Type 0 where
  pub places : length m.item ≡ 16
  pub used : m.len ≤ 16

abbrev pub entries : Map → List Item
entries m = take m.len m.item

-- The value of the first entry with the key.
abbrev pub lookup : List Item → ℕ → ℕ
lookup [] key = 2 ^ 64 - 1
lookup (x ∷ xs) key = if x.key == key then x.value else lookup xs key

take-set :
    (n : ℕ) (xs : List Item) (v : Item)
    → n < length xs
    → take (suc n) (set xs n v) ≡ take n xs ++ v ∷ []
take-set n [] v h = absurd (omega arith)
take-set zero (x ∷ xs) v h = refl
take-set (suc n) (x ∷ xs) v h = ap (λ (ys : List Item). x ∷ ys) (take-set n xs v (omega arith))

find_loop-lookup :
    (n i : ℕ) (m : Map) (key : ℕ)
    → i + n ≤ length m.item
    → find_loop n m i key ≡ lookup (take n (drop i m.item)) key
unfolding find_loop
find_loop-lookup zero i m key h = refl
find_loop-lookup (suc n) i m key h =
    ground (arith, find_loop-lookup n (suc i) m key (omega arith), drop_step i m.item (omega arith))
  where
    drop_step :
        (i : ℕ) (xs : List Item)
        → i < length xs
        → drop i xs ≡ get_or xs i (record { key = 0; value = 0 }) ∷ drop (suc i) xs
    drop_step i [] h = absurd (omega arith)
    drop_step zero (x ∷ xs) h = refl
    drop_step (suc i) (x ∷ xs) h = drop_step i xs (omega arith)

-- `map_find` answers the value of the first entry with the key, and -1 if there is none.
pub map_find-lookup : (m : Map) → IsMap m → (key : ℕ) → map_find m key ≡ lookup (entries m) key
unfolding map_find
map_find-lookup m is key = find_loop-lookup m.len 0 m key (omega (arith, is.places, is.used))

-- The key occurs.
abbrev pub known : List Item → ℕ → Bool
known [] key = false
known (x ∷ xs) key = x.key == key || known xs key

lookup-append :
    (xs : List Item) (v : Item) (key : ℕ)
    → lookup (xs ++ v ∷ []) key
      ≡ (if not (known xs key) && v.key == key then v.value else lookup xs key)
lookup-append [] v key = ground arith
lookup-append (x ∷ xs) v key = ground (arith, lookup-append xs v key)

take-set_end : (n : ℕ) (xs : List Item) (v : Item) → take n (set xs n v) ≡ take n xs
take-set_end zero xs v = refl
take-set_end (suc n) [] v = refl
take-set_end (suc n) (x ∷ xs) v = ap (λ (ys : List Item). x ∷ ys) (take-set_end n xs v)

-- `map_add` on a map with a place left puts the entry behind the others, and `map_pop` takes it away
-- again.
pub map_pop-map_add :
    (m : Map)
    → IsMap m
    → m.len < 16
    → (key value : ℕ)
    → IsMap (map_add m key value)
      × (entries (map_add m key value) ≡ entries m ++ record { key = key; value = value } ∷ [])
      × ((map_pop (map_add m key value)).0 ≡ some m.len)
      × (entries (map_pop (map_add m key value)).1 ≡ entries m)
unfolding map_add map_pop
map_pop-map_add m is room key value =
    let item : Item = record { key = key; value = value } in
    let more : (m.len + 1) % 256 ≡ suc m.len = omega arith in
    (
      record { places = length-set m.item m.len item ∙ is.places; used = omega arith },
      rw more (take-set m.len m.item item (omega (arith, is.places))),
      ground arith,
      ground (arith, more, take-set_end m.len m.item item),
    )

-- After `map_add` of a key that is not there `map_find` answers the value; for every other key, and
-- for a key that is there already, it answers as before.
pub map_find-map_add :
    (m : Map)
    → IsMap m
    → m.len < 16
    → (key value k : ℕ)
    → map_find (map_add m key value) k
      ≡ (if not (known (entries m) k) && key == k then value else map_find m k)
map_find-map_add m is room key value k =
    let (is', eq, _, _) = map_pop-map_add m is room key value in
    let item : Item = record { key = key; value = value } in
    map_find-lookup (map_add m key value) is' k
    ∙ ap (λ (xs : List Item). lookup xs k) eq
    ∙ lookup-append (entries m) item k
    ∙ ground (arith, map_find-lookup m is k)
