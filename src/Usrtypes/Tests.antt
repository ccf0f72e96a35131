-- ===== src/Usrtypes/Tests.antt =====
-- The helpers on a full ring of ten slots that starts at 0.
use linuxapp.Common.{◌≡◌, ◌≢◌, ◌↔◌, ◌+◌, ◌-◌, ◌==◌, if◌then◌else◌, true, arith, ℕ}
use linuxapp.Usrtypes.{isempty, isfull, delete_flush, add_flush}
use linuxapp.Usrtypes.Ring.{occupancy, ring_lem}

ring_lem_example :
    ((isempty 0 9 ≡ true) ↔ (occupancy 0 9 10 ≡ 0))
    × (occupancy (delete_flush 0 10) 9 10
        ≡ (if occupancy 0 9 10 == 0 then 10 - 1 else occupancy 0 9 10 - 1))
    × (occupancy 0 (add_flush 9 10) 10
        ≡ (if (occupancy 0 9 10 + 1) == 10 then 0 else occupancy 0 9 10 + 1))
    × ((isfull 0 9 ≡ true) ↔ ((occupancy 0 9 10 + 1 ≡ 10) × (◌≢◌ {A = ℕ} 0 0)))
ring_lem_example = ring_lem 0 9 10 (omega arith) (omega arith) (omega arith)
