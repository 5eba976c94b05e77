-- ===== src/Struct/ListHead.antt =====
-- lolibc/kstruct/list.h: circular doubly linked lists. A `struct list_head` is its address; the links
-- of all of them are the state.
pub mod Ring
pub mod Ends
use loos_lab.Base.{ℕ, Bool, ◌==◌, if◌then◌else◌}

pub record Links : Type 0 where
  pub next : ℕ → ℕ
  pub prev : ℕ → ℕ

abbrev pub write : (ℕ → ℕ) → ℕ → ℕ → ℕ → ℕ
write f a v b = if b == a then v else f b

-- `a->next = v`, `a->prev = v`
abbrev pub set_next : Links → ℕ → ℕ → Links
set_next l a v = record l { next = write l.next a v }

abbrev pub set_prev : Links → ℕ → ℕ → Links
set_prev l a v = record l { prev = write l.prev a v }

unfoldable pub init_list_head : Links → ℕ → Links
init_list_head l list = set_prev (set_next l list list) list list

-- `_list_add`
unfoldable pub insert_between : Links → (next prev new : ℕ) → Links
insert_between l next prev new =
    set_next (set_prev (set_next (set_prev l next new) new next) new prev) prev new

unfoldable pub list_add : Links → (head new : ℕ) → Links
list_add l head new = insert_between l (l.next head) head new

unfoldable pub list_add_tail : Links → (head new : ℕ) → Links
list_add_tail l head new = insert_between l head (l.prev head) new

-- `_list_del`
unfoldable pub join : Links → (prev next : ℕ) → Links
join l prev next = set_next (set_prev l next prev) prev next

unfoldable pub list_del : Links → ℕ → Links
unfolding join
list_del l entry =
    let l' = join l (l.prev entry) (l.next entry) in set_prev (set_next l' entry entry) entry entry

unfoldable pub list_replace : Links → (old new : ℕ) → Links
list_replace l old new =
    let l₁ = set_next l new (l.next old) in
    let l₂ = set_prev l₁ (l₁.next new) new in
    let l₃ = set_prev l₂ new (l₂.prev old) in set_next l₃ (l₃.prev new) new

unfoldable pub list_replace_init : Links → (old new : ℕ) → Links
list_replace_init l old new = init_list_head (list_replace l old new) old

unfoldable pub list_move : Links → (list head : ℕ) → Links
list_move l list head = list_add (join l (l.prev list) (l.next list)) head list

unfoldable pub list_move_tail : Links → (list head : ℕ) → Links
list_move_tail l list head = list_add_tail (join l (l.prev list) (l.next list)) head list

unfoldable pub list_is_empty : Links → ℕ → Bool
list_is_empty l head = l.next head == head

unfoldable pub list_is_last : Links → (list head : ℕ) → Bool
list_is_last l list head = l.next list == head

unfoldable pub list_splice : Links → (list head : ℕ) → Links
list_splice l list head =
    let l₁ = set_next l (l.prev head) (l.next list) in
    let l₂ = set_prev l₁ (l₁.next list) (l₁.prev head) in
    let l₃ = set_next l₂ (l₂.prev list) head in set_prev l₃ head (l₃.prev list)

-- A removed element, or 0 from an empty list.
unfoldable pub list_pop : Links → ℕ → ℕ × Links
list_pop l head = if list_is_empty l head then (0, l) else (l.next head, list_del l (l.next head))

unfoldable pub list_pop_tail : Links → ℕ → ℕ × Links
list_pop_tail l head =
    if list_is_empty l head then (0, l) else (l.prev head, list_del l (l.prev head))

unfoldable pub list_splice_init : Links → (list head : ℕ) → Links
list_splice_init l list head = init_list_head (list_splice l list head) list
