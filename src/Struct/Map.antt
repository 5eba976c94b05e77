-- ===== src/Struct/Map.antt =====
-- lolibc/struct/map.c: a map of at most 16 items in the order they were added. An item past the array
-- is dropped here; in C the write runs past it.
pub mod Entries
use loos_lab.Base.{
  ℕ, zero, suc, ◌+◌, ◌-◌, ◌%◌, ◌^◌, Option, none, some, List, ◌==◌, if◌then◌else◌, get_or, set,
}

pub record Item : Type 0 where
  pub key : ℕ
  pub value : ℕ

-- `len` is a `uint8_t`; `item` has 16 places.
pub record Map : Type 0 where
  pub len : ℕ
  pub item : List Item

unfoldable pub map_add : Map → (key value : ℕ) → Map
map_add m key value = record {
  len = (m.len + 1) % 256;
  item = set m.item m.len (record { key = key; value = value });
}

-- The loop of `map_find`, over the items left.
find_loop : ℕ → Map → (i key : ℕ) → ℕ
find_loop zero m i key = 2 ^ 64 - 1
find_loop (suc n) m i key =
    let item = get_or m.item i (record { key = 0; value = 0 }) in
    if item.key == key then item.value else find_loop n m (suc i) key

-- The answer is the `uintptr_t` -1 for a key that is not there.
unfoldable pub map_find : Map → ℕ → ℕ
unfolding find_loop
map_find m key = find_loop m.len m 0 key

-- The popped item, as its index; none stands for `(void *)-1`.
unfoldable pub map_pop : Map → Option ℕ × Map
map_pop m = if m.len == 0 then (none, m) else (some (m.len - 1), record m { len = m.len - 1 })
