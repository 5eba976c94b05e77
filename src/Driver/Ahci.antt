-- ===== src/Driver/Ahci.antt =====
-- driver/ahci.c: reading from and writing to a SATA disk. `do_ahci_read` and `do_ahci_write` are the same lines but for the
-- command byte. What a register holds when it is read is an argument, a function of the round where a loop polls it. What
-- the device does with a request is a parameter, a function on the memory.
pub mod Sectors
pub mod Answer
pub mod Transfer
pub mod Probe
pub mod Tests
use loos_lab.Memory.{Mem}
use loos_lab.Libc.Block.{memcpy}
use loos_lab.Base.{
  ℕ, zero, suc, ◌+◌, ◌-◌, ◌*◌, ◌/◌, ◌%◌, ◌^◌, bit_or, Bool, true, false, not, ◌&&◌, ◌||◌, Option,
  none, some, List, [], ◌∷◌, ◌==◌, if◌then◌else◌,
}
use loos_lab.Base.Int.{ℤ, pos, negsuc}
use loos_lab.Base.Run.{Run, ◌>>=◌, done, out_of_fuel}
use loos_lab.Struct.Bitmap.{get_bit, get_bits_range}

-- `det == HBA_PORT_DET_PRESENT && ipm == HBA_PORT_IPM_ACTIVE`
abbrev pub is_present : (ssts : ℕ) → Bool
is_present ssts = ssts % 16 == 3 && ssts / 2 ^ 8 % 16 == 1

-- The loop of `ahic_probe_port` over the ports left, with the status of each port. `pi` is the same in every round.
unfoldable pub probe_loop : (left i pi : ℕ) (ssts : ℕ → ℕ) (port_num : ℕ) (port_no : ℤ) → ℤ
probe_loop zero i pi ssts port_num port_no = port_no
probe_loop (suc n) i pi ssts port_num port_no =
    let skipped = probe_loop n (i + 1) pi ssts port_num port_no in
    let second = if port_num + 1 == 2 then pos i else port_no in
    let counted = probe_loop n (i + 1) pi ssts (port_num + 1) second in
    if pi % 2 == 0 then skipped else if is_present (ssts i) then counted else skipped

unfoldable pub ahic_probe_port : (pi : ℕ) (ssts : ℕ → ℕ) → ℤ
unfolding probe_loop
ahic_probe_port pi ssts = probe_loop 32 0 pi ssts 0 (negsuc 0)

-- The loop of `find_cmdslot` over the slots left, from slot `i` on: the first one whose bit is clear.
unfoldable pub slot_loop : (left slots i : ℕ) → Option ℕ
slot_loop zero slots i = none
slot_loop (suc n) slots i =
    let rest = slot_loop n (slots / 2) (i + 1) in if slots % 2 == 0 then some i else rest

unfoldable pub find_cmdslot : (host_cap sact ci : ℕ) → Option ℕ
unfolding slot_loop
find_cmdslot host_cap sact ci = slot_loop (get_bits_range host_cap 8 4) (bit_or sact ci) 0

-- `HBA_PRDT_ENTRY` without its reserved fields
pub record PrdtEntry : Type 0 where
  pub dba : ℕ
  pub dbau : ℕ
  pub dbc : ℕ
  pub i : ℕ

-- `FIS_REG_H2D` without the fields that stay 0
pub record Fis : Type 0 where
  pub fis_type : ℕ
  pub c : ℕ
  pub command : ℕ
  pub lba0 : ℕ
  pub lba1 : ℕ
  pub lba2 : ℕ
  pub device : ℕ
  pub lba3 : ℕ
  pub lba4 : ℕ
  pub lba5 : ℕ
  pub countl : ℕ
  pub counth : ℕ

-- The command header, and the command table that it points to.
pub record Request : Type 0 where
  pub cfl : ℕ
  pub w : ℕ
  pub prdtl : ℕ
  pub prdt_entry : List PrdtEntry
  pub cmdfis : Fis

-- `cmdheader->prdtl`, of 16 bits
unfoldable pub entry_count : (count : ℕ) → ℕ
entry_count count = ((count + 2 ^ 32 - 1) % 2 ^ 32 / 16 % 2 ^ 16 + 1) % 2 ^ 16

-- `count` behind the loop over the entries, an `uint32_t`: every round takes 16 sectors from it.
unfoldable pub count_left : (rounds count : ℕ) → ℕ
count_left zero count = count
count_left (suc n) count = count_left n ((count + 2 ^ 32 - 16) % 2 ^ 32)

-- The entries of the loop, and the last one, whose `dbau` stays 0. `dbc` has 22 bits.
unfoldable pub prd_entries : (rounds buf count : ℕ) → List PrdtEntry
prd_entries zero buf count =
    record { dba = buf % 2 ^ 32; dbau = 0; dbc = (count * 512 + 2 ^ 32 - 1) % 2 ^ 22; i = 1 } ∷ []
prd_entries (suc n) buf count =
    record { dba = buf % 2 ^ 32; dbau = buf / 2 ^ 32 % 2 ^ 32; dbc = 8 * 1024 - 1; i = 1 }
    ∷ prd_entries n (buf + 0x1000) ((count + 2 ^ 32 - 16) % 2 ^ 32)

abbrev pub ata_cmd_read_dma_ext : ℕ
ata_cmd_read_dma_ext = 0x25

abbrev pub ata_cmd_write_dma_ext : ℕ
ata_cmd_write_dma_ext = 0x35

abbrev pub fis_type_reg_h2d : ℕ
fis_type_reg_h2d = 0x27

-- What is put in the header and the table for a command byte.
unfoldable pub request : (command start count buf : ℕ) → Request
unfolding entry_count count_left prd_entries
request command start count buf =
    let rounds = entry_count count - 1 in
    let left = count_left rounds count in
    record {
      cfl = 20 / 4;
      w = 0;
      prdtl = entry_count count;
      prdt_entry = prd_entries rounds buf count;
      cmdfis = record {
        fis_type = fis_type_reg_h2d;
        c = 1;
        command = command;
        lba0 = start % 2 ^ 8;
        lba1 = start / 2 ^ 8 % 2 ^ 8;
        lba2 = start / 2 ^ 16 % 2 ^ 8;
        device = 2 ^ 6;
        lba3 = start / 2 ^ 24 % 2 ^ 8;
        lba4 = start / 2 ^ 32 % 2 ^ 8;
        lba5 = start / 2 ^ 40 % 2 ^ 8;
        countl = left % 2 ^ 8;
        counth = left / 2 ^ 8 % 2 ^ 8;
      };
    }

-- The registers of a port: `sact` and `ci` before the command, `tfd` in each round of the first loop, `ci` and `is` in
-- each round of the second one, and `is` behind it.
pub record Port : Type 0 where
  pub sact : ℕ
  pub ci : ℕ
  pub tfd : ℕ → ℕ
  pub ci_after : ℕ → ℕ
  pub is_after : ℕ → ℕ
  pub is_last : ℕ

-- `tfd & (ATA_DEV_BUSY | ATA_DEV_DRQ)`
abbrev pub is_busy : ℕ → Bool
is_busy tfd = get_bit tfd 7 || get_bit tfd 3

-- `is & HBA_PxIS_TFES`
abbrev pub has_error : ℕ → Bool
has_error is = get_bit is 30

-- Whether the port is busy in all the rounds that are left, from round `spin` on.
unfoldable pub is_hung : (left : ℕ) → (tfd : ℕ → ℕ) → (spin : ℕ) → Bool
is_hung zero tfd spin = true
is_hung (suc n) tfd spin =
    let rest = is_hung n tfd (spin + 1) in if is_busy (tfd spin) then rest else false

abbrev pub max_spin : ℕ
max_spin = 1000000

-- The loop that waits for the slot: whether it ends without an error.
unfoldable pub await : (fuel : ℕ) → Port → (slot round : ℕ) → Run Bool
await zero p slot round = out_of_fuel
await (suc n) p slot round =
    let rest = await n p slot (round + 1) in
    if not (get_bit (Port.ci_after p round) slot)
    then done true
    else if has_error (Port.is_after p round)
    then done false
    else rest

-- From the slot that was found on: the answer, and what was issued in which slot.
unfoldable pub issue :
    (command fuel : ℕ) → Port → (start count buf : ℕ) → Option ℕ → Run (ℤ × Option (ℕ × Request))
unfolding is_hung await request
issue command fuel p start count buf none = done (negsuc 0, none)
issue command fuel p start count buf (some slot) =
    if is_hung max_spin (Port.tfd p) 0 then done (negsuc 0, none) else do
      ended ← await fuel p slot 0
      let issued = some (slot, request command start count buf)
      done (if ended && not (has_error (Port.is_last p)) then pos 0 else negsuc 0, issued)

unfoldable pub do_ahci_command :
    (command fuel host_cap : ℕ) → Port → (start count buf : ℕ) → Run (ℤ × Option (ℕ × Request))
unfolding find_cmdslot issue
do_ahci_command command fuel host_cap p start count buf =
    issue command fuel p start count buf (find_cmdslot host_cap (Port.sact p) (Port.ci p))

unfoldable pub do_ahci_read :
    (fuel host_cap : ℕ) → Port → (start count buf : ℕ) → Run (ℤ × Option (ℕ × Request))
unfolding do_ahci_command
do_ahci_read = do_ahci_command ata_cmd_read_dma_ext

unfoldable pub do_ahci_write :
    (fuel host_cap : ℕ) → Port → (start count buf : ℕ) → Run (ℤ × Option (ℕ × Request))
unfolding do_ahci_command
do_ahci_write = do_ahci_command ata_cmd_write_dma_ext

-- The memory behind a command: `device r m` is the memory once the device has run the request `r`.
unfoldable pub after_command : (device : Request → Mem → Mem) → Option (ℕ × Request) → Mem → Mem
after_command device none m = m
after_command device (some (slot, r)) m = device r m

-- `ahci_buf` is the address of the array of that name.
unfoldable pub ahci_read :
    (device : Request → Mem → Mem) (ahci_buf fuel host_cap : ℕ)
    → Port
    → Mem
    → (start count buf : ℕ) → Run (ℤ × Mem)
unfolding do_ahci_read after_command
ahci_read device ahci_buf fuel host_cap p m start count buf = do
  (ret, issued) ← do_ahci_read fuel host_cap p start count ahci_buf
  done (ret, (memcpy (after_command device issued m) buf ahci_buf (count * 512 % 2 ^ 32)).0)

unfoldable pub ahci_write :
    (device : Request → Mem → Mem) (ahci_buf fuel host_cap : ℕ)
    → Port
    → Mem
    → (start count buf : ℕ) → Run (ℤ × Mem)
unfolding do_ahci_write after_command
ahci_write device ahci_buf fuel host_cap p m start count buf = do
  let copy = (memcpy m ahci_buf buf (count * 512 % 2 ^ 32)).0
  (ret, issued) ← do_ahci_write fuel host_cap p start count ahci_buf
  done (ret, after_command device issued copy)
