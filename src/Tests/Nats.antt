-- ===== src/Tests/Nats.antt =====
-- Node ids: a table in which all ids from 10 on are free.
use xcpfs.Base.{ℕ, ◌≡◌, ◌*◌, ◌+◌, refl, true, false, none, some, [], ◌∷◌, ltb, if◌then◌else◌, arith}
use mathlib.Core.Option
use xcpfs.Errno.{enoent}
use xcpfs.Format.{meta_node, nat_entry_per_block}
use xcpfs.Meta.Pages.{get_page_type, get_page_type-alloc}
use xcpfs.NatMgmt.Types.{NatEntry, NatInfo, NatFile}
use xcpfs.NatMgmt.Cache.{find, lookup_cached, fresh_entry, init_nat_info}
use xcpfs.NatMgmt.Cache.Count.{count, NatInv}
use xcpfs.NatMgmt.Cache.Mount.{SbNat}
use xcpfs.NatMgmt.Lookup.{lookup_nat, invalidated, invalidate_nat}
use xcpfs.NatMgmt.Lookup.Translate.{translate, lookup_nat-translate, invalidate_nat-translate}
use xcpfs.NatMgmt.AllocFree.{wrong_area, take_free, free_nat_empty, alloc_loop, alloc_free_nat}
use xcpfs.NatMgmt.AllocFree.Fresh.{IsFresh, alloc_free_nat-IsFresh}
use xcpfs.NatMgmt.AllocFree.Progress.{IsFreeOnDisk, alloc_free_nat-ends}
use xcpfs.NatMgmt.Flush.{flush_nat}
use xcpfs.NatMgmt.Flush.Written.{raw_at, stored, lookup_nat-flush_nat}

abbrev file : NatFile
file block slot = record {
  ino = 0;
  block_addr = if ltb (block * nat_entry_per_block + slot) 10 then 77 else 0;
}

-- id 5 in use at the block 99, changed, and id 20 free
abbrev used : NatEntry
used = record { pinned = false; dirty = true; nid = 5; ino = 3; block_addr = 99 }

abbrev unused : NatEntry
unused = record { pinned = false; dirty = false; nid = 20; ino = 0; block_addr = 0 }

abbrev cache : NatInfo
cache = record { cached_nat_count = 2; nat_list = used ∷ []; free_nat = unused ∷ [] }

cache-NatInv : NatInv cache
unfolding count
cache-NatInv = record { unique = λ nid. ground arith; counted = refl; free = (refl, tt) }

abbrev sb_nat : SbNat
sb_nat = record { nid = 5; ino = 3; block_addr = 101 }

lookup_nat-translate_example :
    ((lookup_nat file cache 7).0 ≡ translate file cache 7)
    × ((lookup_cached (lookup_nat file cache 7).1 7 ≡ translate file cache 7)
        × (((other : ℕ)
              → translate file (lookup_nat file cache 7).1 other ≡ translate file cache other)
            × NatInv (lookup_nat file cache 7).1))
lookup_nat-translate_example = lookup_nat-translate file cache 7 cache-NatInv

invalidate_nat-translate_example :
    (translate file (invalidate_nat file cache 7).1 7
      ≡ Option.map invalidated (translate file cache 7))
    × (((invalidate_nat file cache 7).0
          ≡ elim (translate file cache 7) [ none ↦ some enoent | some ne ↦ none ])
        × NatInv (invalidate_nat file cache 7).1)
invalidate_nat-translate_example = invalidate_nat-translate file cache 7 cache-NatInv 7

no_wrong_area : wrong_area true 10 ≡ false
unfolding wrong_area
no_wrong_area = refl

ten_free : IsFreeOnDisk file init_nat_info 10
unfolding lookup_cached find
ten_free = record { valid = omega arith; uncached = refl; no_address = refl }

new-NatInv : NatInv init_nat_info
unfolding count
new-NatInv = record { unique = λ nid. omega arith; counted = refl; free = tt }

alloc_free_nat-ends_example :
    (ne : NatEntry) × (after : NatInfo) × (alloc_free_nat 2 file init_nat_info true
      ≡ some (ne, after))
    × IsFresh file init_nat_info true ne after
alloc_free_nat-ends_example =
    alloc_free_nat-ends file true 10 no_wrong_area init_nat_info new-NatInv ten_free

-- the ids 20 and 21 free, then 20 taken, then both
abbrev unused_too : NatEntry
unused_too = record unused { nid = 21 }

abbrev two_free : NatInfo
two_free = record cache { cached_nat_count = 3; free_nat = unused ∷ unused_too ∷ [] }

abbrev one_taken : NatInfo
one_taken = record {
  cached_nat_count = 3;
  nat_list = unused ∷ used ∷ [];
  free_nat = unused_too ∷ [];
}

abbrev two_taken : NatInfo
two_taken = record {
  cached_nat_count = 3;
  nat_list = unused_too ∷ unused ∷ used ∷ [];
  free_nat = [];
}

two_free-NatInv : NatInv two_free
unfolding count
two_free-NatInv = record { unique = λ nid. ground arith; counted = refl; free = (refl, (refl, tt)) }

takes_one : alloc_free_nat 1 file two_free true ≡ some (unused, one_taken)
unfolding alloc_free_nat alloc_loop free_nat_empty take_free wrong_area
takes_one = refl

takes_two : alloc_free_nat 1 file one_taken true ≡ some (unused_too, two_taken)
unfolding alloc_free_nat alloc_loop free_nat_empty take_free wrong_area
takes_two = refl

alloc_free_nat-IsFresh_example : IsFresh file two_free true unused one_taken
alloc_free_nat-IsFresh_example =
    alloc_free_nat-IsFresh 1 file two_free true two_free-NatInv unused one_taken takes_one

get_page_type-alloc_example : get_page_type 1 2 2 20 ≡ meta_node
get_page_type-alloc_example =
    get_page_type-alloc 1 file two_free true unused one_taken 1 2 (omega arith) two_free-NatInv
      takes_one

lookup_nat-flush_nat_example : (lookup_nat (flush_nat cache file).1 init_nat_info 5).0 ≡ (
    let raw_ne = stored (find 5 cache.nat_list) (raw_at file 5) in
    some (fresh_entry 5 raw_ne.ino raw_ne.block_addr false))
lookup_nat-flush_nat_example = lookup_nat-flush_nat cache file cache-NatInv 5 (omega arith)
