-- ===== src/Tests/Io.antt =====
-- A node that is written, and a super block that is read back.
use xcpfs.Base.{
  ℕ, ◌<◌, ◌≡◌, refl, true, false, none, some, [], ◌∷◌, ◌==◌, if◌then◌else◌, arith, inl, inr,
  Bool-cases,
}
use xcpfs.Format.{reg_node}
use xcpfs.ZoneMgmt.Types.{ZmInfo, closed, is_empty}
use xcpfs.ZoneMgmt.Device.{zone_append}
use xcpfs.ZoneMgmt.Blocks.{blk2zone, blk_index, invalidate_blkaddr}
use xcpfs.ZoneMgmt.Blocks.Account.{is_valid}
use xcpfs.ZoneMgmt.Alloc.{alloc_zone}
use xcpfs.NatMgmt.Types.{NatEntry, NatInfo, NatFile}
use xcpfs.NatMgmt.Cache.{find, lookup_cached, init_nat_info}
use xcpfs.NatMgmt.Cache.Count.{count, NatInv}
use xcpfs.NatMgmt.Lookup.{lookup_nat}
use xcpfs.NatMgmt.Lookup.Translate.{translate, node_block}
use xcpfs.Checkpoint.{SbInfo, init_cpsb, read_super}
use xcpfs.Checkpoint.Remount.{append_all, last_addr, addr_of, read_super-cp_append_nat}
use xcpfs.Xio.{IoState, IoEnv, sent, submit_node_xio, write_end_io}
use xcpfs.Xio.Nodes.{write_end_io-NodesValid}
use xcpfs.Xio.Nodes.View.{NodesValid}
use xcpfs.Super.{flush_zone_id, sb_block, appended, sb_block-appended}
use xcpfs.Tests.Device.{bdev, empty_zone, new_zm, used_zm, used_zm-31}

abbrev pub no_file : NatFile
no_file block slot = record { ino = 0; block_addr = 0 }

abbrev pub env : IoEnv
env = record { bdev = bdev; file = no_file; rounds = 2; cp_locked = true; cp_phase = 2 }

-- the node 5 at block 31
abbrev pub node : NatEntry
node = record { pinned = false; dirty = false; nid = 5; ino = 3; block_addr = 31 }

abbrev cache : NatInfo
cache = record { cached_nat_count = 1; nat_list = node ∷ []; free_nat = [] }

pub cache-NatInv : NatInv cache
unfolding count
cache-NatInv = record { unique = λ nid. ground arith; counted = refl; free = tt }

abbrev pub numbers : SbInfo
numbers = record {
  root_ino = 3;
  meta_ino = 1;
  node_ino = 2;
  nat_page_count = 1;
  zit_page_count = 1;
  ssa_page_count = 1;
  total_meta_page_count = 3;
}

abbrev pub st : IoState
st = record { nm = cache; zm = used_zm; cpc = some false; raw_sb = init_cpsb numbers }

abbrev pub st_sent : IoState
st_sent = record st { zm = invalidate_blkaddr used_zm 31 }

is_sent : submit_node_xio env zone_append reg_node 5 st ≡ sent 24 st_sent
unfolding submit_node_xio lookup_nat lookup_cached find alloc_zone blk2zone
is_sent = refl

pub listed : find 5 cache.nat_list ≡ some node
unfolding find
listed = refl

node_block_lem : (nid : ℕ) → node_block no_file cache nid ≡ (if 5 == nid then 31 else 0)
unfolding translate lookup_cached find
node_block_lem nid = ground arith

pub start-NodesValid : NodesValid no_file cache used_zm
start-NodesValid = record {
  valid = λ nid h. elim (Bool-cases (5 == nid)) [
    | inl e ↦ rw (node_block_lem nid, e) used_zm-31
    | inr e ↦ absurd (h (ground (arith, node_block_lem nid, e)))
  ];
  apart = λ a b h e. ground (arith, h, e, node_block_lem a, node_block_lem b);
}

pub unwritten : is_valid st_sent.zm 24 ≡ false
unfolding invalidate_blkaddr blk2zone blk_index
unwritten = refl

write_end_io-NodesValid_example :
    (st' : IoState) × (write_end_io env 5 24 st_sent ≡ some st')
    × NodesValid no_file st'.nm st'.zm
    × NatInv st'.nm
    × ((other : ℕ)
        → node_block no_file st'.nm other
          ≡ (if 5 == other then 24 else node_block no_file cache other))
write_end_io-NodesValid_example =
    write_end_io-NodesValid env zone_append refl reg_node 5 st node listed cache-NatInv
      start-NodesValid 24 st_sent is_sent 24 unwritten

read_super-cp_append_nat_example :
    let result = read_super (append_all (init_cpsb numbers) (node ∷ [])) numbers init_nat_info in
    (result.0 ≡ none)
    × (result.1.0 ≡ record numbers { total_meta_page_count = 3 })
    × ((nid : ℕ) → addr_of (find nid result.1.1.nat_list) ≡ last_addr nid (node ∷ []) none)
read_super-cp_append_nat_example =
    read_super-cp_append_nat numbers numbers (node ∷ []) (omega arith)
      (λ e. ground (arith, e), λ e. ground (arith, e), tt)

-- zone 0 holds three super blocks and zone 1 two
abbrev two_zones : ZmInfo
two_zones = record new_zm {
  zone_info = λ z. record (empty_zone z) { cond = closed; wp = if z == 0 then 24 else 80 };
}

sb_block-appended_example :
    (is_empty (two_zones.zone_info 1).cond ≡ true
      → (flush_zone_id two_zones ≡ 0) × (sb_block (appended two_zones) ≡ 3))
    × (is_empty (two_zones.zone_info 1).cond ≡ false
        → (3 < 3 → (flush_zone_id two_zones ≡ 1) × (sb_block (appended two_zones) ≡ 10))
          × (◌≡◌ {A = ℕ} 3 3 → (flush_zone_id two_zones ≡ 1) × (sb_block (appended two_zones) ≡ 2))
          × (◌≡◌ {A = ℕ} 3 2
              → 0 < 3
              → (flush_zone_id two_zones ≡ 0) × (sb_block (appended two_zones) ≡ 9))
          × (3 < 2 → (flush_zone_id two_zones ≡ 0) × (sb_block (appended two_zones) ≡ 3)))
sb_block-appended_example =
    sb_block-appended two_zones 3 2 8 refl refl refl refl (omega arith) (omega arith)
