-- ===== src/Tests/Writes.antt =====
-- Where writes go.
use xcpfs.Base.{ℕ, ◌≡◌, refl, false, none, some, [], ◌∷◌, arith}
use xcpfs.Base.Int.{pos, sub_one}
use xcpfs.Format.{reg_data, type_code}
use xcpfs.ZoneMgmt.Types.{ZmInfo, exp_open}
use xcpfs.ZoneMgmt.Device.{zone_append, blkdev_zone_mgmt}
use xcpfs.ZoneMgmt.Blocks.Account.{is_valid, IsCounted}
use xcpfs.ZoneMgmt.Alloc.{spinning, AllocReq, get_empty_zone, find_empty, get_zone, alloc_zone}
use xcpfs.ZoneMgmt.Alloc.Search.{Finds, IsOpenOf, get_zone-IsOpenOf, get_zone_hangs}
use xcpfs.ZoneMgmt.Alloc.Progress.{CanTake, Ends, get_zone-Ends}
use xcpfs.ZoneMgmt.Alloc.Write.{Placed, alloc_zone-Placed}
use xcpfs.ZoneMgmt.Alloc.Account.{alloc_zone-IsCounted, alloc_zone_new_block}
use xcpfs.Tests.Device.{
  bdev, empty_zone, new_zm, new_zm-ZonesInv, used_zm, used_zm-31, used_zm-IsCounted,
}

abbrev new_block : AllocReq
new_block = record { op = zone_append; old_blkaddr = 0; type = reg_data }

get_zone-IsOpenOf_example : Finds (IsOpenOf 4) (get_zone bdev false 4 2 new_zm none)
get_zone-IsOpenOf_example = get_zone-IsOpenOf bdev false 4 2 new_zm none

new_zm-CanTake : CanTake bdev new_zm
unfolding get_empty_zone find_empty blkdev_zone_mgmt
new_zm-CanTake = record {
  inv = new_zm-ZonesInv;
  indexed = λ z. refl;
  room = omega arith;
  active_room = omega arith;
  some_empty = (2, omega arith, omega arith, refl);
  opens = refl;
  writable = omega arith;
}

get_zone-Ends_example : Ends bdev new_zm new_zm-CanTake (get_zone bdev false 4 2 new_zm none)
get_zone-Ends_example =
    get_zone-Ends bdev new_zm new_zm-CanTake false 4 none (λ e. ground (arith, e)) 0

-- four zones of type 3 open, and no room for another
abbrev taken_zm : ZmInfo
taken_zm = record new_zm {
  zone_info = λ z. record (empty_zone z) { cond = exp_open; zone_type = 3 };
  zone_opened_count = 4;
  zone_opened = some 2 ∷ some 3 ∷ some 4 ∷ some 5 ∷ [];
}

get_zone_hangs_example : get_zone bdev false 4 1000 taken_zm none ≡ spinning
get_zone_hangs_example =
    get_zone_hangs bdev false 4 1000 taken_zm none (omega arith) (λ i s. ground (arith, s.1))

alloc_zone-Placed_example :
    Finds (Placed new_zm 0 (type_code reg_data)) (alloc_zone bdev false 2 new_block new_zm none)
alloc_zone-Placed_example = alloc_zone-Placed bdev false 2 new_block new_zm none refl

alloc_zone_new_block_example :
    Finds
      (λ _ zm'. ((zm'.zone_info 0).vblocks ≡ sub_one (pos 0)) × (is_valid zm' 0 ≡ false))
      (alloc_zone bdev false 2 new_block new_zm none)
alloc_zone_new_block_example = alloc_zone_new_block bdev false 2 new_block new_zm none refl refl

abbrev overwrite : AllocReq
overwrite = record { op = zone_append; old_blkaddr = 31; type = reg_data }

alloc_zone-IsCounted_example :
    Finds (λ _ zm'. (z : ℕ) → IsCounted zm' z) (alloc_zone bdev false 2 overwrite used_zm none)
alloc_zone-IsCounted_example =
    alloc_zone-IsCounted bdev false 2 overwrite used_zm none refl (omega arith) used_zm-31
      used_zm-IsCounted
