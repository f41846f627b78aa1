-- ===== src/Meta/Pages.antt =====
-- `get_page_type` of meta.c: the class of a page, by the file that it is a page of. The pages of the
-- node inode are the nodes, by their ids.
use xcpfs.Base.{ℕ, ◌*◌, ◌≡◌, ◌≢◌, Bool, true, false, some, arith, ltb, ◌==◌, if◌then◌else◌}
use xcpfs.Format.{
  PageType, meta_node, meta_data, reg_node, reg_data, reg_nat_start, nat_entry_per_block,
}
use xcpfs.NatMgmt.Types.{NatEntry, NatInfo, NatFile}
use xcpfs.NatMgmt.Cache.Count.{NatInv}
use xcpfs.NatMgmt.AllocFree.{wrong_area, alloc_free_nat}
use xcpfs.NatMgmt.AllocFree.Fresh.{alloc_free_nat-IsFresh}

unfoldable pub get_page_type : ℕ → ℕ → ℕ → ℕ → PageType
get_page_type meta_ino node_ino ino iblock =
    if ino == meta_ino
    then meta_data
    else if ino == node_ino
    then if ltb iblock (reg_nat_start * nat_entry_per_block) then meta_node else reg_node
    else reg_data

area_lem :
    (meta_ino node_ino nid : ℕ) (is_meta : Bool)
    → meta_ino ≢ node_ino
    → wrong_area is_meta nid ≡ false
    → get_page_type meta_ino node_ino node_ino nid ≡ (if is_meta then meta_node else reg_node)
unfolding get_page_type wrong_area
area_lem meta_ino node_ino nid true differ h = ground arith
area_lem meta_ino node_ino nid false differ h = ground arith

-- A node with an id that was allocated for the meta file is written as a meta node, one for a regular
-- file as a regular node: the allocation and the class of a page draw the same line.
pub get_page_type-alloc :
    (rounds : ℕ) (file : NatFile) (nm : NatInfo) (is_meta : Bool) (ne : NatEntry) (after : NatInfo)
    (meta_ino node_ino : ℕ)
    → meta_ino ≢ node_ino
    → NatInv nm
    → alloc_free_nat rounds file nm is_meta ≡ some (ne, after)
    → get_page_type meta_ino node_ino node_ino ne.nid ≡ (if is_meta then meta_node else reg_node)
get_page_type-alloc rounds file nm is_meta ne after meta_ino node_ino differ v e =
    area_lem meta_ino node_ino ne.nid is_meta differ
      (alloc_free_nat-IsFresh rounds file nm is_meta v ne after e).right_area
