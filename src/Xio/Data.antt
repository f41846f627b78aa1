-- ===== src/Xio/Data.antt =====
-- xio.c and data.c: the writing of a page, of a node or of a file's data, from its submission to the
-- end of the write. The inode of the file is taken to be in the kernel's cache.
pub mod Files
pub mod Pages
use xcpfs.Base.{ℕ, Bool, true, false, ◌||◌, Option, none, some, ◌==◌, if◌then◌else◌}
use xcpfs.Errno.{Errno}
use xcpfs.Format.{PageType, meta_node, meta_data, reg_node, reg_data, superblock}
use xcpfs.ZoneMgmt.Device.{ReqOp, zone_append}
use xcpfs.ZoneMgmt.Blocks.{validate_blkaddr}
use xcpfs.ZoneMgmt.Alloc.{Found, done, null_deref, spinning, alloc_zone}
use xcpfs.Meta.Path.{BlockPath, in_inode, direct, indirect, double_indirect, get_path}
use xcpfs.Meta.Pages.{get_page_type}
use xcpfs.Xio.{IoState, Submitted, submit_node_xio, write_end_io}
use xcpfs.Node.{NodePage, zero_node, page_or, NodeEnv, NodeState, keep_page}
use xcpfs.Node.Dnode.{
  addr_at, set_addr, Dnode, dnode, no_dnode, null_nat, searching, get_dnode_page,
}

-- Whether the address stands in the inode (`len == 0`), and `offset[len]`.
abbrev pub in_top : BlockPath → Bool
in_top (in_inode a) = true
in_top _ = false

abbrev pub last_offset : BlockPath → ℕ
last_offset (in_inode a) = a
last_offset (direct a b) = b
last_offset (indirect a b c) = c
last_offset (double_indirect a b c d) = d

-- the page of a node that `get_dnode_page` has got
abbrev pub held_page : NodeState → ℕ → NodePage
held_page st d = page_or (st.pages d) zero_node

-- The node that holds the address, which a write keeps locked, and the first block of the zone (for a
-- read, the block); an error; a NULL pointer followed; or no answer within the rounds.
pub data DataSubmitted : Type 0 where
  data_sent : ℕ → ℕ → NodeState → DataSubmitted
  refused : Errno → NodeState → DataSubmitted
  data_fault : DataSubmitted
  data_waiting : DataSubmitted

abbrev pub send_data : ℕ → NodeState → Found → DataSubmitted
send_data d st (done new zm cpc) =
    data_sent d new (record st { io = record st.io { zm = zm; cpc = cpc } })
send_data d st null_deref = data_fault
send_data d st spinning = data_waiting

-- `submit_data_xio` for a page that is there.
unfoldable pub submit_data_xio : NodeEnv → ReqOp → PageType → ℕ → ℕ → NodeState → DataSubmitted
submit_data_xio env op type ino iblock st =
    let path = get_path iblock in
    elim (get_dnode_page env false ino iblock st) [
      | dnode d need got ↦
          let old = addr_at (in_top path) (held_page got d) (last_offset path) in
          send_data d got (
            alloc_zone env.io.bdev env.io.cp_locked env.io.rounds
              (record { op = op; old_blkaddr = old; type = type }) got.io.zm got.io.cpc)
      | no_dnode err got ↦ refused err got
      | null_nat ↦ data_fault
      | searching ↦ data_waiting
    ]

-- `xcpfs_write_end_io` for a page of data that the device has written to the block `written`; `d` is
-- the node of `xio->dpage`.
unfoldable pub end_data_write : ℕ → ℕ → ℕ → NodeState → NodeState
end_data_write iblock d written st =
    let path = get_path iblock in
    let filled =
      keep_page st d (set_addr (in_top path) (held_page st d) (last_offset path) written) in
    record filled { io = record st.io { zm = validate_blkaddr st.io.zm written } }

abbrev pub is_node : PageType → Bool
is_node meta_node = true
is_node reg_node = true
is_node _ = false

pub data XioSubmitted : Type 0 where
  node_io : Submitted → XioSubmitted
  data_io : DataSubmitted → XioSubmitted

unfoldable pub xcpfs_submit_xio : NodeEnv → ReqOp → PageType → ℕ → ℕ → NodeState → XioSubmitted
xcpfs_submit_xio env op type ino iblock st =
    if is_node type
    then node_io (submit_node_xio env.io op type iblock st.io)
    else data_io (submit_data_xio env op type ino iblock st)

-- `do_write_single_page`, for the page `iblock` of the file `ino`.
unfoldable pub do_write_single_page : NodeEnv → ℕ → ℕ → NodeState → XioSubmitted
do_write_single_page env ino iblock st =
    xcpfs_submit_xio env zone_append (get_page_type env.meta_ino env.node_ino ino iblock) ino iblock
      st
