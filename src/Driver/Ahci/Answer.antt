-- ===== src/Driver/Ahci/Answer.antt =====
-- How `do_ahci_read` of driver/ahci.c ends.

use loos_lab.Base.{
  ℕ, zero, suc, ◌+◌, ◌/◌, ◌%◌, ◌^◌, ◌≤◌, ◌<◌, bit_or, ◌≡◌, refl, sym, ap, ◌∙◌, ◌⊎◌, inl, inr, Bool,
  true, false, not, ◌&&◌, Option, none, some, arith, ◌==◌, if◌then◌else◌,
}
use loos_lab.Base.Int.{pos, negsuc}
use loos_lab.Base.Run.{done}
use loos_lab.Struct.Bitmap.{get_bit, get_bits_range}
use loos_lab.Driver.Ahci.{
  slot_loop, find_cmdslot, ata_cmd_read_dma_ext, ata_cmd_write_dma_ext, request, Port, is_busy,
  has_error, is_hung, max_spin, await, issue, do_ahci_command, do_ahci_read, do_ahci_write,
}
use native.Mathlib.Nat.{pow-suc, mul_comm, div-div-eq-div-mul, div-one}

-- Slot `slot` is the first one whose bit in `slots` is clear.
unfoldable pub IsFirstFree : (slots slot : ℕ) → Type 0
IsFirstFree slots slot =
    ((j : ℕ) → j < slot → get_bit slots j ≡ true) × (get_bit slots slot ≡ false)

half_bit : (x j : ℕ) → get_bit (x / 2) j ≡ get_bit x (suc j)
unfolding get_bit
half_bit x j = ap (λ (y : ℕ). y % 2 == 1) (sym shift)
  where
    shift : x / 2 ^ suc j ≡ x / 2 / 2 ^ j
    shift = rw (pow-suc 2 j, mul_comm (2 ^ j) 2) (sym (div-div-eq-div-mul x 2 (2 ^ j)))

low_bit : (x : ℕ) → get_bit x 0 ≡ (x % 2 == 1)
unfolding get_bit
low_bit x = ap (λ (y : ℕ). y % 2 == 1) (div-one x)

slot_loop-first :
    (n slots i k : ℕ) → k < n → IsFirstFree slots k → slot_loop n slots i ≡ some (i + k)
unfolding slot_loop IsFirstFree
slot_loop-first zero slots i k lt first = absurd (omega arith)
slot_loop-first (suc n) slots i zero lt first = rw (clear) (ap some (omega arith))
  where
    clear : (slots % 2 == 0) ≡ true
    clear = ground (arith, sym (low_bit slots) ∙ first.1)
slot_loop-first (suc n) slots i (suc k) lt first = rw (set) (
    slot_loop-first n (slots / 2) (i + 1) k (omega arith)
      ((λ j h. half_bit slots j ∙ first.0 (suc j) (omega arith)), half_bit slots k ∙ first.1)
    ∙ ap some (omega arith))
  where
    set : (slots % 2 == 0) ≡ false
    set = ground (arith, sym (low_bit slots) ∙ first.0 0 (omega arith))

-- A port that is ready in some round is not taken for hung.
is_hung-ready :
    (n : ℕ) (tfd : ℕ → ℕ) (spin k : ℕ)
    → k < n
    → is_busy (tfd (spin + k)) ≡ false
    → is_hung n tfd spin ≡ false
unfolding is_hung
is_hung-ready zero tfd spin k lt ready = absurd (omega arith)
is_hung-ready (suc n) tfd spin zero lt ready =
    rw (ap (λ (x : ℕ). is_busy (tfd x)) here ∙ ready) refl
  where
    here : spin ≡ spin + 0
    here = omega arith
is_hung-ready (suc n) tfd spin (suc k) lt ready = step (is_busy (tfd spin)) (
    is_hung-ready n tfd (spin + 1) k (omega arith)
      (ap (λ (x : ℕ). is_busy (tfd x)) (omega arith) ∙ ready))
  where
    step :
        (b : Bool)
        → is_hung n tfd (spin + 1) ≡ false
        → (if b then is_hung n tfd (spin + 1) else false) ≡ false
    step true e = e
    step false e = refl

slot_loop-full :
    (n slots i : ℕ) → ((j : ℕ) → j < n → get_bit slots j ≡ true) → slot_loop n slots i ≡ none
unfolding slot_loop
slot_loop-full zero slots i full = refl
slot_loop-full (suc n) slots i full =
    rw (set)
      (slot_loop-full n (slots / 2) (i + 1) (λ j h. half_bit slots j ∙ full (suc j) (omega arith)))
  where
    set : (slots % 2 == 0) ≡ false
    set = ground (arith, sym (low_bit slots) ∙ full 0 (omega arith))

is_hung-busy :
    (n : ℕ) (tfd : ℕ → ℕ) (spin : ℕ)
    → ((j : ℕ) → j < n → is_busy (tfd (spin + j)) ≡ true)
    → is_hung n tfd spin ≡ true
unfolding is_hung
is_hung-busy zero tfd spin busy = refl
is_hung-busy (suc n) tfd spin busy = rw (now) (
    is_hung-busy n tfd (spin + 1)
      (λ j h. ap (λ (x : ℕ). is_busy (tfd x)) (omega arith) ∙ busy (suc j) (omega arith)))
  where
    now : is_busy (tfd spin) ≡ true
    now = ap (λ (x : ℕ). is_busy (tfd x)) (omega arith) ∙ busy 0 (omega arith)

-- The wait for slot `slot` from a round on: it is over in the last round, as an error or not.
pub data Waits (p : Port) (slot : ℕ) : (round rounds : ℕ) → (ended : Bool) → Type 0 where
  cleared : {r : ℕ} → get_bit (Port.ci_after p r) slot ≡ false → Waits p slot r 1 true
  failed :
      {r : ℕ}
      → get_bit (Port.ci_after p r) slot ≡ true
      → has_error (Port.is_after p r) ≡ true
      → Waits p slot r 1 false
  later :
      {r n : ℕ} {b : Bool}
      → get_bit (Port.ci_after p r) slot ≡ true
      → has_error (Port.is_after p r) ≡ false
      → Waits p slot (r + 1) n b
      → Waits p slot r (suc n) b

await-Waits :
    {p : Port} {slot : ℕ} {b : Bool} (fuel : ℕ) {r n : ℕ}
    → n ≤ fuel
    → Waits p slot r n b
    → await fuel p slot r ≡ done b
unfolding await
await-Waits zero le (cleared clear) = absurd (omega arith)
await-Waits zero le (failed set error) = absurd (omega arith)
await-Waits zero le (later set fine w) = absurd (omega arith)
await-Waits (suc fuel) le (cleared clear) = rw (clear) refl
await-Waits (suc fuel) le (failed set error) = rw (set, error) refl
await-Waits (suc fuel) le (later set fine w) = rw (set, fine) (await-Waits fuel (omega arith) w)

-- In the first free slot a port issues the request as soon as the port is ready, and answers 0 if the slot is cleared
-- with no error in the rounds of the wait nor behind it, and else -1.
pub do_ahci_read-Waits :
    (p : Port) (host_cap start count buf slot ready : ℕ) {rounds : ℕ} {ended : Bool} (fuel : ℕ)
    → rounds ≤ fuel
    → slot < get_bits_range host_cap 8 4
    → IsFirstFree (bit_or (Port.sact p) (Port.ci p)) slot
    → ready < max_spin
    → is_busy (Port.tfd p ready) ≡ false
    → Waits p slot 0 rounds ended
    → do_ahci_read fuel host_cap p start count buf
      ≡ done (
        if ended && not (has_error (Port.is_last p)) then pos 0 else negsuc 0,
        some (slot, request ata_cmd_read_dma_ext start count buf),
      )
unfolding do_ahci_read do_ahci_command find_cmdslot issue
do_ahci_read-Waits p host_cap start count buf slot ready fuel le lt first soon idle w =
    rw
      (
        do_ahci_read,
        do_ahci_command,
        find_cmdslot,
        found,
        is_hung-ready max_spin (Port.tfd p) 0 ready soon reached,
        await-Waits fuel le w,
      )
      refl
  where
    found : slot_loop (get_bits_range host_cap 8 4) (bit_or (Port.sact p) (Port.ci p)) 0 ≡ some slot
    found =
        slot_loop-first (get_bits_range host_cap 8 4) (bit_or (Port.sact p) (Port.ci p)) 0 slot lt
          first
        ∙ ap some (omega arith)

    reached : is_busy (Port.tfd p (0 + ready)) ≡ false
    reached = ap (λ (x : ℕ). is_busy (Port.tfd p x)) (omega arith) ∙ idle

command_refused :
    (command : ℕ) (p : Port) (host_cap start count buf fuel : ℕ)
    → ((j : ℕ)
        → j < get_bits_range host_cap 8 4
        → get_bit (bit_or (Port.sact p) (Port.ci p)) j ≡ true)
      ⊎ ((j : ℕ) → j < max_spin → is_busy (Port.tfd p j) ≡ true)
    → do_ahci_command command fuel host_cap p start count buf ≡ done (negsuc 0, none)
unfolding do_ahci_command find_cmdslot issue
command_refused command p host_cap start count buf fuel (inl full) =
    ap (issue command fuel p start count buf)
      (slot_loop-full (get_bits_range host_cap 8 4) (bit_or (Port.sact p) (Port.ci p)) 0 full)
command_refused command p host_cap start count buf fuel (inr busy) =
    nothing_issued (find_cmdslot host_cap (Port.sact p) (Port.ci p))
  where
    hung : is_hung max_spin (Port.tfd p) 0 ≡ true
    hung =
        is_hung-busy max_spin (Port.tfd p) 0
          (λ j h. ap (λ (x : ℕ). is_busy (Port.tfd p x)) (omega arith) ∙ busy j h)

    nothing_issued :
        (found : Option ℕ) → issue command fuel p start count buf found ≡ done (negsuc 0, none)
    nothing_issued none = refl
    nothing_issued (some slot) = rw (hung) refl

-- With no slot free, or with the port busy in each of 1000000 rounds, `do_ahci_read` and `do_ahci_write` issue nothing
-- and answer -1.
pub do_ahci_write_refused :
    (p : Port) (host_cap start count buf fuel : ℕ)
    → ((j : ℕ)
        → j < get_bits_range host_cap 8 4
        → get_bit (bit_or (Port.sact p) (Port.ci p)) j ≡ true)
      ⊎ ((j : ℕ) → j < max_spin → is_busy (Port.tfd p j) ≡ true)
    → (do_ahci_read fuel host_cap p start count buf ≡ done (negsuc 0, none))
      × (do_ahci_write fuel host_cap p start count buf ≡ done (negsuc 0, none))
unfolding do_ahci_read do_ahci_write
do_ahci_write_refused p host_cap start count buf fuel stuck = (
  command_refused ata_cmd_read_dma_ext p host_cap start count buf fuel stuck,
  command_refused ata_cmd_write_dma_ext p host_cap start count buf fuel stuck,
)
