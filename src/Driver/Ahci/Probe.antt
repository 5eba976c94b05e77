-- ===== src/Driver/Ahci/Probe.antt =====
-- What `ahic_probe_port` of driver/ahci.c makes of the register of implemented ports.
use loos_lab.Base.{ℕ, zero, suc, ◌+◌, ◌%◌, ◌≡◌, refl}
use loos_lab.Base.Int.{ℤ, negsuc}
use loos_lab.Driver.Ahci.{probe_loop, ahic_probe_port}

probe_loop-even :
    (n i pi : ℕ) (ssts : ℕ → ℕ) (port_num : ℕ) (port_no : ℤ)
    → pi % 2 ≡ 0
    → probe_loop n i pi ssts port_num port_no ≡ port_no
unfolding probe_loop
probe_loop-even zero i pi ssts port_num port_no even = refl
probe_loop-even (suc n) i pi ssts port_num port_no even =
    rw (even) (probe_loop-even n (i + 1) pi ssts port_num port_no even)

-- Without port 0 no port is found, whichever other ports there are.
probe-port_0 : (pi : ℕ) (ssts : ℕ → ℕ) → pi % 2 ≡ 0 → ahic_probe_port pi ssts ≡ negsuc 0
unfolding ahic_probe_port
probe-port_0 pi ssts even = probe_loop-even 32 0 pi ssts 0 (negsuc 0) even
