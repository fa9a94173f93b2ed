-- ===== src/Tests/KernelHeap.antt =====
-- A hundred bytes, aligned to eight, come from the zone of 128 bytes.
use obliteration.Prelude.{◌*◌, ◌-◌, ◌^◌, ◌≡◌, ◌≤◌, ◌<◌, refl, max, arith, done}
use obliteration.Kernel.VmHeap.{Zone, zone_for, zones_of, push_zones, push_zone, round_size}
use obliteration.Kernel.VmHeap.Zones.{zone_for-fits}

hundred_bytes : zone_for 3 100 ≡ done (record { size = 128; align_mask = 7 })
unfolding zone_for zones_of push_zones push_zone round_size
hundred_bytes = refl

zone_for-fits_example :
    (z : Zone) × (zone_for 3 100 ≡ done z)
    × (100 ≤ z.size)
    × (z.size < max 17 (2 * 100))
    × (z.align_mask ≡ 2 ^ 3 - 1)
zone_for-fits_example = zone_for-fits 3 100 (omega arith) (omega arith)
