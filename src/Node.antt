-- ===== src/Node.antt =====
-- The node pages: their form on disk (xcpfs.h) and how meta.c and data.c get one from the page cache
-- or from the device.
pub mod View
pub mod Dnode
pub mod File
use xcpfs.Base.{ℕ, Option, none, some}
use xcpfs.Base.Table.{update}
use xcpfs.ZoneMgmt.Device.{read}
use xcpfs.Meta.Pages.{get_page_type}
use xcpfs.Xio.{IoState, IoEnv, sent, zeroed, fault, waiting, submit_node_xio}

-- `struct xcpfs_inode`
pub record RawInode : Type 0 where
  pub i_mode : ℕ
  pub i_uid : ℕ
  pub i_gid : ℕ
  pub i_links : ℕ
  pub i_size : ℕ
  pub i_blocks : ℕ
  pub i_atime : ℕ
  pub i_ctime : ℕ
  pub i_mtime : ℕ
  pub i_atime_nsec : ℕ
  pub i_ctime_nsec : ℕ
  pub i_mtime_nsec : ℕ
  pub i_generation : ℕ
  pub i_addr : ℕ → ℕ
  pub i_nid : ℕ → ℕ

-- `struct xcpfs_node`: an inode, or an array of pointers, which `dn.addr` and `in.nid` both name. (A
-- page is used through one of the two; the footer is never used.)
pub record NodePage : Type 0 where
  pub i : RawInode
  pub ptrs : ℕ → ℕ

-- a page filled with zeros
abbrev pub zero_node : NodePage
zero_node = record {
  i = record {
    i_mode = 0;
    i_uid = 0;
    i_gid = 0;
    i_links = 0;
    i_size = 0;
    i_blocks = 0;
    i_atime = 0;
    i_ctime = 0;
    i_mtime = 0;
    i_atime_nsec = 0;
    i_ctime_nsec = 0;
    i_mtime_nsec = 0;
    i_generation = 0;
    i_addr = λ k. 0;
    i_nid = λ k. 0;
  };
  ptrs = λ k. 0;
}

-- What the device holds in each block is a parameter.
pub record NodeEnv : Type 0 where
  pub io : IoEnv
  pub disk : ℕ → NodePage
  pub meta_ino : ℕ
  pub node_ino : ℕ

-- The pages of the node inode that are up to date, and what the requests change.
pub record NodeState : Type 0 where
  pub pages : ℕ → Option NodePage
  pub io : IoState

abbrev pub keep_page : NodeState → ℕ → NodePage → NodeState
keep_page st nid page = record st { pages = update st.pages nid (some page) }

abbrev pub page_or : Option NodePage → NodePage → NodePage
page_or (some page) other = page
page_or none other = other

-- `do_prepare_page` for a page of the node inode that is not up to date: it is read, at the end of
-- which `xcpfs_read_end_io` marks it; `none` is a NULL pointer followed.
unfoldable pub read_node_page : NodeEnv → ℕ → NodeState → Option (NodePage × NodeState)
read_node_page env nid st =
    elim (submit_node_xio env.io read (get_page_type env.meta_ino env.node_ino env.node_ino nid) nid
      st.io) [
        | sent addr io ↦ some (env.disk addr, keep_page (record st { io = io }) nid (env.disk addr))
        | zeroed io ↦ some (zero_node, keep_page (record st { io = io }) nid zero_node)
        | fault ↦ none
        | waiting ↦ none
      ]

-- `get_node_page` and `get_node_page_for_wb`: `__prepare_page` of the node inode.
unfoldable pub get_node_page : NodeEnv → ℕ → NodeState → Option (NodePage × NodeState)
get_node_page env nid st = elim (st.pages nid) [
  | some page ↦ some (page, st)
  | none ↦ read_node_page env nid st
]
