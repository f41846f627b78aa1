-- ===== src/Xio.antt =====
-- xio.c: the writing of a node page, from its submission to the end of the write.
pub mod Nodes
pub mod Data
use xcpfs.Base.{ℕ, Bool, true, false, ◌&&◌, Option, none, some, ◌==◌, if◌then◌else◌}
use xcpfs.Format.{PageType}
use xcpfs.ZoneMgmt.Types.{ZmInfo}
use xcpfs.ZoneMgmt.Device.{BlockDevice, ReqOp}
use xcpfs.ZoneMgmt.Blocks.{validate_blkaddr}
use xcpfs.ZoneMgmt.Alloc.{Found, done, null_deref, spinning, is_read, alloc_zone}
use xcpfs.NatMgmt.Types.{NatEntry, NatInfo, NatFile}
use xcpfs.NatMgmt.Cache.{update_nat}
use xcpfs.NatMgmt.Lookup.{lookup_nat}
use xcpfs.Checkpoint.{SuperBlock, cp_append_nat}

-- What the two functions change; `cpc` is the checkpoint's record, or NULL, and `raw_sb` its page.
pub record IoState : Type 0 where
  pub nm : NatInfo
  pub zm : ZmInfo
  pub cpc : Option Bool
  pub raw_sb : SuperBlock

-- The device, the table of node addresses, the rounds for `get_zone`, and the checkpoint's lock and
-- phase.
pub record IoEnv : Type 0 where
  pub bdev : BlockDevice
  pub file : NatFile
  pub rounds : ℕ
  pub cp_locked : Bool
  pub cp_phase : ℕ

-- A submission: a request for the device, with the first block of its zone; a page filled with
-- zeros; a NULL pointer followed; or no answer within the rounds.
pub data Submitted : Type 0 where
  sent : ℕ → IoState → Submitted
  zeroed : IoState → Submitted
  fault : Submitted
  waiting : Submitted

abbrev pub send_node : IoState → NatInfo → Found → Submitted
send_node st nm (done new zm cpc) = sent new (record st { nm = nm; zm = zm; cpc = cpc })
send_node st nm null_deref = fault
send_node st nm spinning = waiting

-- `submit_node_xio` for a page that is there; `nid` is `xio->iblock`.
unfoldable pub submit_node_xio : IoEnv → ReqOp → PageType → ℕ → IoState → Submitted
submit_node_xio env op type nid st =
    let looked = lookup_nat env.file st.nm nid in
    elim looked.0 [
      | none ↦ fault
      | some ne ↦
          if (ne.block_addr == 0) && is_read op
          then zeroed (record st { nm = looked.1 })
          else send_node st looked.1 (
              alloc_zone env.bdev env.cp_locked env.rounds
                (record { op = op; old_blkaddr = ne.block_addr; type = type }) st.zm st.cpc)
    ]

-- `xcpfs_write_end_io` for a node page that the device has written to the block `written`; `none`
-- is a NULL pointer followed.
unfoldable pub write_end_io : IoEnv → ℕ → ℕ → IoState → Option IoState
write_end_io env nid written st =
    let nm = (update_nat st.nm nid written false).1 in
    let looked = lookup_nat env.file nm nid in
    let zm = validate_blkaddr st.zm written in
    if env.cp_locked && (env.cp_phase == 2)
    then elim looked.0 [
      | none ↦ none
      | some ne ↦ some (record st { nm = looked.1; zm = zm; raw_sb = cp_append_nat st.raw_sb ne })
    ]
    else some (record st { nm = nm; zm = zm })
