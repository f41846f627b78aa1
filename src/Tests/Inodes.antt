-- ===== src/Tests/Inodes.antt =====
-- An inode that is written, and one that is dropped.
use xcpfs.Base.{false, ℕ, ◌≡◌, ◌≢◌, refl, true, Option, none, some, ◌⊎◌, ◌==◌, if◌then◌else◌, arith}
use xcpfs.ZoneMgmt.Blocks.{blk2zone}
use xcpfs.ZoneMgmt.Alloc.{alloc_zone}
use xcpfs.NatMgmt.Cache.{find, lookup_cached}
use xcpfs.NatMgmt.Cache.Count.{NatInv}
use xcpfs.NatMgmt.Lookup.{lookup_nat}
use xcpfs.NatMgmt.Lookup.Translate.{node_block}
use xcpfs.Meta.Pages.{get_page_type}
use xcpfs.Node.{NodeState, keep_page, get_node_page}
use xcpfs.Node.View.{node_view}
use xcpfs.Xio.{sent, submit_node_xio}
use xcpfs.Xio.Data.{node_io, xcpfs_submit_xio, do_write_single_page}
use xcpfs.Xio.Nodes.View.{NodesValid}
use xcpfs.Inode.Attributes.{VfsInode, xcpfs_update_inode_page}
use xcpfs.Errno.{Errno, Ret}
use xcpfs.Truncate.Blocks.{Truncated}
use xcpfs.Truncate.Setattr.{xcpfs_setattr, xcpfs_setattr_lem}
use xcpfs.Super.Inodes.{xcpfs_write_inode, xcpfs_evict_inode}
use xcpfs.Super.Written.{stored_page, xcpfs_write_inode-NodesValid}
use xcpfs.Super.Evicted.{Emptied, xcpfs_evict_inode-Emptied}
use xcpfs.Tests.Io.{no_file, st, st_sent, node, cache-NatInv, listed, start-NodesValid, unwritten}
use xcpfs.Tests.Files.{files, file_8, files_nm-NatInv, Nodes-8, inode_page, grown}

abbrev inode_5 : VfsInode
inode_5 = record grown { i_ino = 5 }

abbrev file_5 : NodeState
file_5 = record { pages = λ nid. if nid == 5 then some inode_page else none; io = st }

abbrev updated : NodeState
updated = keep_page file_5 5 (stored_page files file_5 inode_5)

is_updated : xcpfs_update_inode_page files inode_5 file_5 ≡ some updated
unfolding xcpfs_update_inode_page get_node_page node_view
is_updated = refl

is_submitted : do_write_single_page files 2 5 updated ≡ node_io (sent 24 st_sent)
unfolding do_write_single_page xcpfs_submit_xio get_page_type submit_node_xio lookup_nat
    lookup_cached find alloc_zone blk2zone
is_submitted = refl

xcpfs_write_inode-NodesValid_example :
    (st' : NodeState) × (xcpfs_write_inode files true (λ first. first) inode_5 file_5 ≡ some st')
    × NodesValid no_file st'.io.nm st'.io.zm
    × NatInv st'.io.nm
    × ((other : ℕ)
        → node_block no_file st'.io.nm other
          ≡ (if 5 == other then 24 else node_block no_file st.nm other))
    × (st'.pages 5 ≡ some (stored_page files file_5 inode_5))
xcpfs_write_inode-NodesValid_example =
    xcpfs_write_inode-NodesValid files inode_5 file_5 cache-NatInv start-NodesValid node listed
      (λ e. ground (arith, e)) (λ e. ground (arith, e)) updated is_updated 24 st_sent is_submitted
      (λ first. first) unwritten

abbrev inode_8 : VfsInode
inode_8 = record grown { i_ino = 8; i_nlink = 0 }

xcpfs_evict_inode-Emptied_example :
    (st' : NodeState) × (xcpfs_evict_inode files true (λ first. first) inode_8 file_8 ≡ some st')
    × Emptied files 8 file_8 st'
xcpfs_evict_inode-Emptied_example =
    xcpfs_evict_inode-Emptied files true (λ first. first) inode_8 file_8 files_nm-NatInv
      (omega arith) refl Nodes-8

abbrev open_8 : VfsInode
open_8 = record grown { i_ino = 8 }

xcpfs_setattr_lem_example :
    ((error : Errno) (ok : Ret) (size : Option ℕ)
      → xcpfs_setattr files false
          (record { prepared = some error; newsize_ok = ok; ia_size = size })
          open_8
          file_8
        ≡ some (some error, open_8, file_8))
    × ((ok : Ret) (size : Option ℕ)
        → (size ≡ none) ⊎ (size ≡ some 20000)
        → xcpfs_setattr files false
            (record { prepared = none; newsize_ok = ok; ia_size = size })
            open_8
            file_8
          ≡ some (none, open_8, file_8))
    × (◌≢◌ {A = ℕ} 9000 20000
        → ((error : Errno)
            → xcpfs_setattr files false
                (record { prepared = none; newsize_ok = some error; ia_size = some 9000 })
                open_8
                file_8
              ≡ some (some error, open_8, file_8))
          × ((st' : NodeState) × (xcpfs_setattr files false
                  (record { prepared = none; newsize_ok = none; ia_size = some 9000 })
                  open_8
                  file_8
                ≡ some (none, record open_8 { i_size = 12288 }, st'))
              × Truncated files 8 3 file_8 st'))
xcpfs_setattr_lem_example =
    xcpfs_setattr_lem files false open_8 file_8 files_nm-NatInv (omega arith) Nodes-8 9000
      (omega arith)
