-- ===== src/Struct/Bitmap/Tests.antt =====
-- The bitmap of lolibc/struct/bitmap.c at small maps.

use loos_lab.Base.{ℕ, zero, suc, ◌<◌, ◌≡◌, refl, true, arith, ◌==◌, if◌then◌else◌}
use loos_lab.Base.Run.{done}
use loos_lab.Memory.{Mem}
use loos_lab.Struct.Bitmap.{get_bit, bitmap_alloc, bitmap_free}
use loos_lab.Struct.Bitmap.Bits.{taken, IsByteMem}
use loos_lab.Struct.Bitmap.Runs.{Free}
use loos_lab.Struct.Bitmap.Alloc.{both, RunGets, bitmap_free-bitmap_alloc}

-- The byte `b` at address 100, and zeros.
abbrev one_byte : ℕ → Mem
one_byte b x = if x == 100 then b else 0

one_byte-IsByteMem : (b : ℕ) → b < 256 → IsByteMem (one_byte b)
one_byte-IsByteMem b h x = ground arith

-- Places 0, 1 and 2 of 0x07 are taken.
low_taken : (k : ℕ) → k < 3 → taken (one_byte 7) 100 k ≡ true
unfolding get_bit
low_taken zero h = refl
low_taken (suc zero) h = refl
low_taken (suc (suc zero)) h = refl
low_taken (suc (suc (suc k))) h = absurd (omega arith)

no_run_before : (k : ℕ) → k < 3 → ¬ Free (one_byte 7) 100 k 2
no_run_before k h free = both (low_taken k h) (free k (omega arith) (omega arith))

two-Free : Free (one_byte 7) 100 3 2
unfolding get_bit
two-Free zero lo hi = absurd (omega arith)
two-Free (suc zero) lo hi = absurd (omega arith)
two-Free (suc (suc zero)) lo hi = absurd (omega arith)
two-Free (suc (suc (suc zero))) lo hi = refl
two-Free (suc (suc (suc (suc zero)))) lo hi = refl
two-Free (suc (suc (suc (suc (suc k))))) lo hi = absurd (omega arith)

bitmap_free-bitmap_alloc_example :
    (m' m'' : Mem) × (bitmap_alloc (one_byte 7) 100 8 2 ≡ done (3, m'))
    × RunGets (one_byte 7) m' 100 3 2 true
    × (bitmap_free m' 100 8 3 2 ≡ done m'')
    × ((j : ℕ) → taken m'' 100 j ≡ taken (one_byte 7) 100 j)
bitmap_free-bitmap_alloc_example =
    bitmap_free-bitmap_alloc (one_byte 7) 100 8 2 3 (one_byte-IsByteMem 7 (omega arith))
      (omega arith) (omega arith) (omega arith) two-Free no_run_before
