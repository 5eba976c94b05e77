-- ===== src/Driver/Ahci/Transfer.antt =====
-- What `ahci_read` of driver/ahci.c brings into a buffer.

use loos_lab.Base.Int.{pos}
use loos_lab.Base.Run.{done}
use loos_lab.Libc.Block.{memcpy}
use loos_lab.Libc.Block.Laws.{memcpy-copied}
use loos_lab.Struct.Bitmap.{get_bits_range}
use loos_lab.Driver.Ahci.Answer.{IsFirstFree, Waits, do_ahci_read-Waits}
use loos_lab.Base.{
  ℕ, ◌+◌, ◌-◌, ◌*◌, ◌%◌, ◌^◌, ◌≤◌, ◌<◌, bit_or, ◌≡◌, refl, ap, ◌∙◌, ◌⊎◌, true, false, [], ◌∷◌,
  arith,
}
use loos_lab.Memory.{Mem, within, copied, ◌≗◌}
use loos_lab.Driver.Ahci.{
  PrdtEntry, Fis, Request, entry_count, prd_entries, ata_cmd_read_dma_ext, request, Port, is_busy,
  has_error, max_spin, after_command, ahci_read,
}
use loos_lab.Driver.Ahci.Sectors.{first_sector, sectors, count-entry_count, request-fields}

-- The documented work of a device on a command to read with one entry that has room for its sectors: the bytes of the
-- sectors stand where the entry points to. `window` is where physical memory begins among the addresses of the kernel.
unfoldable pub Delivers : (window : ℕ) (disk : ℕ → ℕ) (device : Request → Mem → Mem) → Type 0
unfolding first_sector sectors
Delivers window disk device =
    (r : Request) (e : PrdtEntry) (m : Mem) (x : ℕ)
    → Request.prdt_entry r ≡ e ∷ []
    → Fis.command (Request.cmdfis r) ≡ ata_cmd_read_dma_ext
    → PrdtEntry.dbc e + 1 ≡ 512 * sectors (Request.cmdfis r)
    → x < PrdtEntry.dbc e + 1
    → device r m (window + (PrdtEntry.dba e + 2 ^ 32 * PrdtEntry.dbau e) + x)
      ≡ disk (512 * first_sector (Request.cmdfis r) + x)

-- Up to 16 sectors make one entry.
prd_entries-one :
    (count buf : ℕ)
    → 0 < count
    → count ≤ 16
    → prd_entries (entry_count count - 1) buf count
      ≡ record { dba = buf % 2 ^ 32; dbau = 0; dbc = count * 512 - 1; i = 1 } ∷ []
unfolding prd_entries
prd_entries-one count buf low high =
    ap (λ (n : ℕ). prd_entries n buf count) single
    ∙ ap (λ (d : ℕ). record { dba = buf % 2 ^ 32; dbau = 0; dbc = d; i = 1 } ∷ []) bytes
  where
    single : entry_count count - 1 ≡ 0
    single = omega (arith, count-entry_count count low (omega arith))

    bytes : (count * 512 + 2 ^ 32 - 1) % 2 ^ 22 ≡ count * 512 - 1
    bytes = omega arith

copied-in : (m : Mem) (dst src n x : ℕ) → x < n → copied m dst src n (dst + x) ≡ m (src + x)
unfolding copied
copied-in m dst src n x lt = rw (inside) (ap m (omega arith))
  where
    inside : within dst n (dst + x) ≡ true
    inside = ground arith

copied-out : (m : Mem) (dst src n x : ℕ) → within dst n x ≡ false → copied m dst src n x ≡ m x
unfolding copied
copied-out m dst src n x out = rw (out) refl

request-Delivers :
    (window : ℕ) (disk : ℕ → ℕ) (device : Request → Mem → Mem) (m : Mem) (start count buf x : ℕ)
    → Delivers window disk device
    → 0 < count
    → count ≤ 16
    → window + buf % 2 ^ 32 ≡ buf
    → start < 2 ^ 48
    → x < 512 * count
    → device (request ata_cmd_read_dma_ext start count buf) m (buf + x) ≡ disk (512 * start + x)
unfolding Delivers request
request-Delivers window disk device m start count buf x d low high here sector lt =
    ap (device r m) (omega (arith, here))
    ∙ d r e m x (prd_entries-one count buf low high) refl (omega (arith, about.1)) (omega arith)
    ∙ ap disk (omega (arith, about.0))
  where
    r : Request
    r = request ata_cmd_read_dma_ext start count buf

    e : PrdtEntry
    e = record { dba = buf % 2 ^ 32; dbau = 0; dbc = count * 512 - 1; i = 1 }

    about :
        (first_sector (Request.cmdfis r) ≡ start % 2 ^ 48)
        × (sectors (Request.cmdfis r) ≡ (count - 1) % 16 + 1)
    about = request-fields ata_cmd_read_dma_ext start count buf low (omega arith)

-- With a device that delivers, a port that is ready in time and a wait that ends with no error, `ahci_read` of up to 16
-- sectors answers 0, puts their bytes in the buffer and changes nothing else behind the device.
pub ahci_read-disk :
    (window : ℕ) (disk : ℕ → ℕ) (device : Request → Mem → Mem) (ahci_buf : ℕ) (p : Port) (m : Mem)
    (host_cap start count buf slot ready rounds fuel : ℕ)
    → Delivers window disk device
    → 0 < count
    → count ≤ 16
    → window + ahci_buf % 2 ^ 32 ≡ ahci_buf
    → start < 2 ^ 48
    → (buf ≤ ahci_buf) ⊎ (ahci_buf + count * 512 ≤ buf)
    → slot < get_bits_range host_cap 8 4
    → IsFirstFree (bit_or (Port.sact p) (Port.ci p)) slot
    → ready < max_spin
    → is_busy (Port.tfd p ready) ≡ false
    → Waits p slot 0 rounds true
    → has_error (Port.is_last p) ≡ false
    → rounds ≤ fuel
    → (m' : Mem) × (ahci_read device ahci_buf fuel host_cap p m start count buf ≡ done (pos 0, m'))
      × ((x : ℕ) → x < count * 512 → m' (buf + x) ≡ disk (512 * start + x))
      × ((x : ℕ)
          → within buf (count * 512) x ≡ false
          → m' x ≡ device (request ata_cmd_read_dma_ext start count ahci_buf) m x)
unfolding ahci_read after_command
ahci_read-disk window disk device ahci_buf p m host_cap start count buf slot ready rounds fuel d low
      high here sector apart lt first soon idle w fine le =
    ((memcpy after buf ahci_buf (count * 512 % 2 ^ 32)).0, returns, delivered, kept)
  where
    after : Mem
    after = device (request ata_cmd_read_dma_ext start count ahci_buf) m

    size : count * 512 % 2 ^ 32 ≡ count * 512
    size = omega arith

    returns :
        ahci_read device ahci_buf fuel host_cap p m start count buf
        ≡ done (pos 0, (memcpy after buf ahci_buf (count * 512 % 2 ^ 32)).0)
    returns =
        rw
          (
            ahci_read,
            do_ahci_read-Waits p host_cap start count ahci_buf slot ready fuel le lt first soon idle
                w,
            fine,
          )
          refl

    copy :
        (memcpy after buf ahci_buf (count * 512 % 2 ^ 32)).0
        ≗ copied after buf ahci_buf (count * 512)
    copy x = rw (size) (memcpy-copied after buf ahci_buf (count * 512) apart x)

    delivered :
        (x : ℕ)
        → x < count * 512
        → (memcpy after buf ahci_buf (count * 512 % 2 ^ 32)).0 (buf + x) ≡ disk (512 * start + x)
    delivered x lt =
        copy (buf + x)
        ∙ copied-in after buf ahci_buf (count * 512) x lt
        ∙ request-Delivers window disk device m start count ahci_buf x d low high here sector
            (omega arith)

    kept :
        (x : ℕ)
        → within buf (count * 512) x ≡ false
        → (memcpy after buf ahci_buf (count * 512 % 2 ^ 32)).0 x ≡ after x
    kept x out = copy x ∙ copied-out after buf ahci_buf (count * 512) x out
