-- ===== src/Driver/Ahci/Tests.antt =====
-- Concrete runs of driver/ahci.c on a port whose slot 0 is taken.

use loos_lab.Memory.{Mem, within}
use loos_lab.Driver.Ahci.Transfer.{Delivers, ahci_read-disk}
use loos_lab.Base.{
  ℕ, zero, suc, ◌+◌, ◌-◌, ◌*◌, ◌/◌, ◌%◌, ◌^◌, ◌<◌, bit_or, ◌≡◌, refl, ap, ◌∙◌, inl, inr, true,
  false, none, List, [], ◌∷◌, arith, ◌==◌, if◌then◌else◌, length,
}
use loos_lab.Base.Int.{pos, negsuc}
use loos_lab.Base.Run.{done}
use loos_lab.Struct.Bitmap.{get_bit, get_bits_range}
use loos_lab.Driver.Ahci.{
  PrdtEntry, Request, ata_cmd_read_dma_ext, request, Port, do_ahci_read, do_ahci_write, ahci_read,
}
use loos_lab.Driver.Ahci.Sectors.{held, reach, first_sector, sectors, request-sectors}
use loos_lab.Driver.Ahci.Answer.{IsFirstFree, Waits, do_ahci_write_refused, cleared, later}

-- The port is busy in round 0, and the wait for slot 1 has one round before the slot is cleared.
abbrev port : Port
port = record {
  sact = 1;
  ci = 0;
  tfd = λ round. if round == 0 then 0x80 else 0x50;
  ci_after = λ round. if round == 0 then 2 else 0;
  is_after = λ round. 1;
  is_last = 1;
}

slot_taken : (j : ℕ) → j < 1 → get_bit (bit_or 1 0) j ≡ true
unfolding get_bit
slot_taken zero lt = refl
slot_taken (suc j) lt = absurd (omega arith)

port-IsFirstFree : IsFirstFree (bit_or 1 0) 1
unfolding IsFirstFree get_bit
port-IsFirstFree = (slot_taken, refl)

port-Waits : Waits port 1 0 2 true
unfolding get_bit
port-Waits = later refl refl (cleared refl)

-- 24 sectors, from sector 5 on: the entries hold 8 KiB, and the command names 8 sectors.
request-sectors_example :
    (length (Request.prdt_entry (request 0x25 5 24 0x10000))
      ≡ Request.prdtl (request 0x25 5 24 0x10000))
    × ((x : ℕ)
        → held (Request.prdt_entry (request 0x25 5 24 0x10000)) x
          ≡ within 0x10000 (reach ((24 - 1) / 16) ((24 - 1) % 16 + 1)) x)
    × (first_sector (Request.cmdfis (request 0x25 5 24 0x10000)) ≡ 5 % 2 ^ 48)
    × (sectors (Request.cmdfis (request 0x25 5 24 0x10000)) ≡ (24 - 1) % 16 + 1)
request-sectors_example =
    request-sectors 0x25 5 24 0x10000 (omega arith) (omega arith) (omega arith)

-- Each byte of the disk is the last one of its address.
abbrev disk : ℕ → ℕ
disk a = a % 256

abbrev window : ℕ
window = 0x9000000000000000

-- A device that fills the first entry of a request.
abbrev filled_entry : List PrdtEntry → (sector : ℕ) → Mem → Mem
filled_entry [] sector m y = m y
filled_entry (e ∷ es) sector m y =
    let base = window + (PrdtEntry.dba e + 2 ^ 32 * PrdtEntry.dbau e) in
    if within base (PrdtEntry.dbc e + 1) y then disk (512 * sector + (y - base)) else m y

abbrev sata : Request → Mem → Mem
sata r m = filled_entry (Request.prdt_entry r) (first_sector (Request.cmdfis r)) m

filled_entry-first :
    (e : PrdtEntry) (sector : ℕ) (m : Mem) (x : ℕ)
    → x < PrdtEntry.dbc e + 1
    → filled_entry (e ∷ []) sector m (window + (PrdtEntry.dba e + 2 ^ 32 * PrdtEntry.dbau e) + x)
      ≡ disk (512 * sector + x)
filled_entry-first e sector m x lt = ground arith

sata-Delivers : Delivers window disk sata
unfolding Delivers
sata-Delivers r e m x entries read size lt =
    ap
      (λ (es : List PrdtEntry).
        filled_entry es (first_sector (Request.cmdfis r)) m
          (window + (PrdtEntry.dba e + 2 ^ 32 * PrdtEntry.dbau e) + x))
      entries
    ∙ filled_entry-first e (first_sector (Request.cmdfis r)) m x lt

-- Two sectors through an array at 0x10000 into a buffer behind it.
ahci_read-disk_example :
    (m' : Mem) × (ahci_read sata (window + 0x10000) 3 0xF00 port (λ x. 0) 5 2 (window + 0x20000)
      ≡ done (pos 0, m'))
    × ((x : ℕ) → x < 2 * 512 → m' (window + 0x20000 + x) ≡ disk (512 * 5 + x))
    × ((x : ℕ)
        → within (window + 0x20000) (2 * 512) x ≡ false
        → m' x ≡ sata (request ata_cmd_read_dma_ext 5 2 (window + 0x10000)) (λ x. 0) x)
unfolding get_bits_range get_bit
ahci_read-disk_example =
    ahci_read-disk window disk sata (window + 0x10000) port (λ x. 0) 0xF00 5 2 (window + 0x20000) 1
      1 2 3 sata-Delivers (omega arith) (omega arith) refl (omega arith) (inr (omega arith))
      (omega arith) port-IsFirstFree (omega arith) refl port-Waits refl (omega arith)

-- With one slot only, which is taken.
do_ahci_write_refused_example :
    (do_ahci_read 3 0x100 port 5 2 0x10000 ≡ done (negsuc 0, none))
    × (do_ahci_write 3 0x100 port 5 2 0x10000 ≡ done (negsuc 0, none))
unfolding get_bits_range
do_ahci_write_refused_example =
    do_ahci_write_refused port 0x100 5 2 0x10000 3 (inl (λ j lt. slot_taken j (omega arith)))
