-- ===== src/Driver/Ahci/Sectors.antt =====
-- What the command that driver/ahci.c builds asks the disk for.

use Prim.Native.Nat.{max}
use loos_lab.Memory.{within}
use loos_lab.Base.{
  ℕ, zero, suc, ◌+◌, ◌-◌, ◌*◌, ◌/◌, ◌%◌, ◌^◌, ◌≤◌, ◌<◌, ◌≡◌, refl, ap, ◌∙◌, Bool, false, ◌||◌, List,
  [], ◌∷◌, arith, length,
}
use loos_lab.Driver.Ahci.{PrdtEntry, Fis, Request, entry_count, count_left, prd_entries, request}

-- Whether an entry holds the byte at physical address `x`: `dbc` is one less than the bytes of its entry.
unfoldable pub held : List PrdtEntry → (x : ℕ) → Bool
held [] x = false
held (e ∷ es) x =
    within (PrdtEntry.dba e + 2 ^ 32 * PrdtEntry.dbau e) (PrdtEntry.dbc e + 1) x || held es x

-- How far the entries reach: entries of 8 KiB, each 4 KiB behind the one before, and one of `last` sectors.
unfoldable pub reach : (rounds last : ℕ) → ℕ
reach zero last = 512 * last
reach (suc n) last = 0x1000 * suc n + max 0x1000 (512 * last)

-- The sector that a device reads in the LBA registers, and the number of sectors.
unfoldable pub first_sector : Fis → ℕ
first_sector f =
    Fis.lba0 f
    + 2 ^ 8 * Fis.lba1 f
    + 2 ^ 16 * Fis.lba2 f
    + 2 ^ 24 * Fis.lba3 f
    + 2 ^ 32 * Fis.lba4 f
    + 2 ^ 40 * Fis.lba5 f

unfoldable pub sectors : Fis → ℕ
sectors f = Fis.countl f + 2 ^ 8 * Fis.counth f

length-prd_entries : (n buf count : ℕ) → length (prd_entries n buf count) ≡ n + 1
unfolding prd_entries
length-prd_entries zero buf count = refl
length-prd_entries (suc n) buf count =
    omega (arith, length-prd_entries n (buf + 0x1000) ((count + 2 ^ 32 - 16) % 2 ^ 32))

lowered :
    (n count : ℕ)
    → 16 * suc n < count
    → count < 2 ^ 32
    → (count + 2 ^ 32 - 16) % 2 ^ 32 ≡ count - 16
lowered n count low small = omega arith

count_left_lem :
    (n count : ℕ) → 16 * n < count → count < 2 ^ 32 → count_left n count + 16 * n ≡ count
unfolding count_left
count_left_lem zero count low small = omega arith
count_left_lem (suc n) count low small =
    let next = lowered n count low small in
    omega (
      arith,
      next,
      count_left_lem n ((count + 2 ^ 32 - 16) % 2 ^ 32) (omega (arith, next)) (omega (arith, next)),
    )

-- An entry of 8 KiB, and what the entries behind it hold.
reach_more :
    (n last buf x : ℕ)
    → 0 < last
    → last ≤ 16
    → within buf 8192 x || within (buf + 0x1000) (reach n last) x
      ≡ within buf (reach (suc n) last) x
unfolding reach
reach_more zero last buf x lo hi = ground arith
reach_more (suc n) last buf x lo hi = ground arith

held-prd_entries :
    (n buf count x : ℕ)
    → 16 * n < count
    → count ≤ 16 * n + 16
    → buf + 512 * count ≤ 2 ^ 32
    → held (prd_entries n buf count) x ≡ within buf (reach n (count - 16 * n)) x
unfolding prd_entries held reach
held-prd_entries zero buf count x low high fits = ground arith
held-prd_entries (suc n) buf count x low high fits =
    let next = lowered n count low (omega arith) in
    let left = (count + 2 ^ 32 - 16) % 2 ^ 32 in
    let place : buf % 2 ^ 32 + 2 ^ 32 * (buf / 2 ^ 32 % 2 ^ 32) ≡ buf = omega arith in
    let last : left - 16 * n ≡ count - 16 * suc n = omega (arith, next) in
    let ih : held (prd_entries n (buf + 0x1000) left) x
        ≡ within (buf + 0x1000) (reach n (left - 16 * n)) x =
      held-prd_entries n (buf + 0x1000) left x (omega (arith, next)) (omega (arith, next))
        (omega (arith, next)) in
    rw (place, ih, last) (reach_more n (count - 16 * suc n) buf x (omega arith) (omega arith))

pub count-entry_count :
    (count : ℕ) → 0 < count → count ≤ 16 * 65535 → entry_count count ≡ (count - 1) / 16 + 1
unfolding entry_count
count-entry_count count low high = omega arith

rounds_lem : (count : ℕ) → 0 < count → count ≤ 16 * 65535 → entry_count count - 1 ≡ (count - 1) / 16
rounds_lem count low high = omega (arith, count-entry_count count low high)

-- The registers of the command: the low 48 bits of the start, and what is left of the count.
pub request-fields :
    (command start count buf : ℕ)
    → 0 < count
    → count ≤ 16 * 65535
    → (first_sector (Request.cmdfis (request command start count buf)) ≡ start % 2 ^ 48)
      × (sectors (Request.cmdfis (request command start count buf)) ≡ (count - 1) % 16 + 1)
unfolding request first_sector sectors
request-fields command start count buf low high =
    let rounds = count-entry_count count low high in
    (
      omega arith,
      omega (
        arith,
        rounds,
        count_left_lem (entry_count count - 1) count (omega (arith, rounds)) (omega arith),
      ),
    )

-- For 1 to 16 * 65535 sectors and a buffer below 2 ^ 32, the entries are as many as the header says. They hold the bytes
-- from the start of the buffer on, 512 for each sector, if there are at most 16 sectors, and otherwise 4 KiB for each
-- entry but the last and, from there on, 4 KiB or the bytes of the last entry, whichever is more. The command names the
-- low 48 bits of the start, and (count - 1) % 16 + 1 sectors.
pub request-sectors :
    (command start count buf : ℕ)
    → 0 < count
    → count ≤ 16 * 65535
    → buf + 512 * count ≤ 2 ^ 32
    → (length (Request.prdt_entry (request command start count buf))
        ≡ Request.prdtl (request command start count buf))
      × ((x : ℕ)
          → held (Request.prdt_entry (request command start count buf)) x
            ≡ within buf (reach ((count - 1) / 16) ((count - 1) % 16 + 1)) x)
      × (first_sector (Request.cmdfis (request command start count buf)) ≡ start % 2 ^ 48)
      × (sectors (Request.cmdfis (request command start count buf)) ≡ (count - 1) % 16 + 1)
unfolding request
request-sectors command start count buf low high fits =
    let rounds = rounds_lem count low high in
    let fields = request-fields command start count buf low high in
    (
      omega (
        arith,
        length-prd_entries (entry_count count - 1) buf count,
        count-entry_count count low high,
      ),
      λ x.
          ap (λ (n : ℕ). held (prd_entries n buf count) x) rounds
          ∙ held-prd_entries ((count - 1) / 16) buf count x (omega arith) (omega arith) fits
          ∙ ap (λ (last : ℕ). within buf (reach ((count - 1) / 16) last) x) (omega arith),
      fields.0,
      fields.1,
    )
