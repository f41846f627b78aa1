-- ===== src/Tests/Files.antt =====
-- A file with one block, which is read, written, made longer, cut and stored.
use xcpfs.Base.{
  ℕ, ◌^◌, ◌<◌, ◌≡◌, refl, ◌∙◌, true, false, [], ◌∷◌, none, some, ◌==◌, if◌then◌else◌, ltb, ltb→lt,
  leb, arith, inl, inr, Bool-cases,
}
use xcpfs.ZoneMgmt.Blocks.{blk2zone, blk_index, invalidate_blkaddr}
use xcpfs.ZoneMgmt.Alloc.{alloc_zone}
use xcpfs.ZoneMgmt.Blocks.Account.{is_valid}
use xcpfs.NatMgmt.Types.{NatEntry, NatInfo}
use xcpfs.NatMgmt.Cache.{find, lookup_cached}
use xcpfs.NatMgmt.Cache.Count.{count, NatInv}
use xcpfs.NatMgmt.Lookup.Translate.{translate}
use xcpfs.Meta.Path.{get_path, BlockPath, in_inode, direct, indirect, double_indirect}
use xcpfs.Meta.Pages.{get_page_type}
use xcpfs.Node.{NodePage, zero_node, NodeEnv, NodeState, get_node_page}
use xcpfs.Node.View.{node_view, stored, Kept}
use xcpfs.Node.Dnode.{offsets, descend, get_dnode_page}
use xcpfs.Node.Dnode.Walk.{Place, walk, Known, answer, Held, get_dnode_page_lem}
use xcpfs.Node.Dnode.Used.{Ready, UsedPath}
use xcpfs.Node.Dnode.Create.{Created, get_dnode_page-Created}
use xcpfs.Meta.Path.Layout.{InTree, block_at, max_blocks, get_path-InTree, block_at-get_path}
use xcpfs.Node.File.{addr_of, place_of, file_addr, Labelled, IsTree}
use xcpfs.Node.File.Paths.{full}
use xcpfs.Truncate.Shrink.{IsKnown-of_ge, Ids}
use xcpfs.Truncate.{recurse_all, xcpfs_do_truncate}
use xcpfs.Truncate.Inside.{Nodes}
use xcpfs.Truncate.Blocks.{Truncated, xcpfs_do_truncate_lem}
use xcpfs.Truncate.FirstEntry.{recurse_all_first}
use xcpfs.Inode.Attributes.{
  file_ops, no_ops, VfsInode, xcpfs_set_inode, xcpfs_iget, xcpfs_update_inode_page,
}
use xcpfs.Inode.Stored.{Fits, restored, xcpfs_iget-update_inode_page}
use xcpfs.Xio.Data.{
  data_sent, data_io, submit_data_xio, xcpfs_submit_xio, do_write_single_page, end_data_write,
}
use xcpfs.Xio.Data.Pages.{contents, prepare_data_page, prepare_data_page_lem}
use xcpfs.Xio.Data.Files.{block_addrs, FileValid, Written, end_data_write-FileValid}
use xcpfs.Tests.Device.{used_zm, used_zm-31}
use xcpfs.Tests.Io.{env, st}

-- block 3 of the file stands at block 31
abbrev pub inode_page : NodePage
inode_page = record zero_node {
  i = record zero_node.i { i_mode = 2 ^ 15; i_addr = λ k. if k == 3 then 31 else 0 };
}

abbrev inode_entry : NatEntry
inode_entry = record { pinned = false; dirty = false; nid = 6; ino = 6; block_addr = 16 }

abbrev files_nm : NatInfo
files_nm = record { cached_nat_count = 1; nat_list = inode_entry ∷ []; free_nat = [] }

pub files_nm-NatInv : NatInv files_nm
unfolding count
files_nm-NatInv = record { unique = λ nid. ground arith; counted = refl; free = tt }

abbrev pub files : NodeEnv
files = record { io = env; disk = λ addr. inode_page; meta_ino = 1; node_ino = 2 }

abbrev file_6 : NodeState
file_6 = record {
  pages = λ nid. if nid == 6 then some inode_page else none;
  io = record st { nm = files_nm };
}

view_6 : node_view files file_6 6 ≡ inode_page
unfolding node_view
view_6 = refl

Known-6 : Known files file_6 true (full 3) 6
unfolding Known get_path
Known-6 = IsKnown-of_ge files file_6 6 (omega arith)

abbrev place_6 : Place
place_6 = record { node = 6; top = true; slot = 3 }

found_6 : place_of (node_view files file_6) 6 3 ≡ some place_6
unfolding walk get_path
found_6 = refl

labelled : (path : BlockPath) → Labelled (λ nid. []) (node_view files file_6) true (offsets path) 6
unfolding Labelled node_view
labelled (in_inode a) = tt
labelled (direct a b) = λ n. absurd (n refl)
labelled (indirect a b c) = λ n. absurd (n refl)
labelled (double_indirect a b c d) = λ n. absurd (n refl)

IsTree-6 : IsTree (λ nid. []) (node_view files file_6) 6
IsTree-6 = record { root = refl; labelled = λ b h. labelled (get_path b) }

-- The request goes to the first block of zone 6, that of regular data.
abbrev file_6_sent : NodeState
file_6_sent = record file_6 { io = record file_6.io { zm = invalidate_blkaddr used_zm 31 } }

file_6_is_sent : do_write_single_page files 6 3 file_6 ≡ data_io (data_sent 6 24 file_6_sent)
unfolding do_write_single_page xcpfs_submit_xio get_page_type submit_data_xio get_dnode_page descend
    get_node_page get_path alloc_zone blk2zone
file_6_is_sent = refl

no_others :
    (path : BlockPath)
    → InTree path
    → addr_of (node_view files file_6) (walk (node_view files file_6) true (offsets path) 6)
      ≡ (if block_at path == 3 then 31 else 0)
unfolding walk node_view
no_others (in_inode a) t = ground (arith, t)
no_others (direct a b) t = ground (arith, t)
no_others (indirect a b c) t = ground (arith, t)
no_others (double_indirect a b c d) t = ground (arith, t)

file_6_addr : (b : ℕ) → block_addrs (node_view files file_6) 6 b ≡ (if b == 3 then 31 else 0)
file_6_addr b = elim (Bool-cases (ltb b max_blocks)) [
  | inl e ↦ rw e (
      no_others (get_path b) (get_path-InTree b (ltb→lt b max_blocks e))
      ∙ rw (block_at-get_path b) refl)
  | inr e ↦ ground (arith, e)
]

file_6-FileValid : FileValid (node_view files file_6) 6 used_zm
file_6-FileValid = record {
  valid = λ b h. elim (Bool-cases (b == 3)) [
    | inl e ↦ rw (file_6_addr b, e) used_zm-31
    | inr e ↦ absurd (h (ground (arith, file_6_addr b, e)))
  ];
  apart = λ a b h e. ground (arith, h, e, file_6_addr a, file_6_addr b);
}

free_24 : is_valid file_6_sent.io.zm 24 ≡ false
unfolding invalidate_blkaddr blk2zone blk_index
free_24 = refl

end_data_write-FileValid_example : Written files 6 3 file_6 (end_data_write 3 6 24 file_6_sent) 24
end_data_write-FileValid_example =
    end_data_write-FileValid files 6 3 file_6 files_nm-NatInv Known-6 place_6 found_6 (λ nid. [])
      IsTree-6 file_6-FileValid (omega arith) (λ e. ground (arith, e)) 6 24 file_6_sent
      file_6_is_sent 24 free_24

-- A second file: its block 900 stands below the direct node 7, at block 31.
abbrev direct_page : NodePage
direct_page = record zero_node { ptrs = λ k. if k == 0 then 31 else if k == 1 then 9 else 0 }

abbrev long_page : NodePage
long_page = record zero_node {
  i = record zero_node.i {
    i_addr = λ k. if k == 3 then 40 else 0;
    i_nid = λ k. if k == 0 then 7 else 0;
  };
}

abbrev pub file_8 : NodeState
file_8 = record file_6 {
  pages = λ nid. if nid == 7 then some direct_page else if nid == 8 then some long_page else none;
}

view_7 : node_view files file_8 7 ≡ direct_page
unfolding node_view
view_7 = refl

Known-8 : Known files file_8 true (full 900) 8
unfolding Known get_path node_view
Known-8 =
    (IsKnown-of_ge files file_8 8 (omega arith), λ n. IsKnown-of_ge files file_8 7 (omega arith))

get_dnode_page_lem_example :
    (st' : NodeState) × Kept files file_8 st'
    × (get_dnode_page files false 8 900 file_8
        ≡ answer (node_view files file_8) (walk (node_view files file_8) true (full 900) 8) st')
    × Held (node_view files file_8) (walk (node_view files file_8) true (full 900) 8) st'
get_dnode_page_lem_example = get_dnode_page_lem files 8 900 file_8 files_nm-NatInv Known-8

-- The file 6 has no direct node yet.
blank_6 : (nid slot : ℕ) → (node_view files file_6 nid).ptrs slot ≡ 0
unfolding node_view stored
blank_6 nid slot = ground arith

Ready-6 : Ready files file_6
Ready-6 = record { inv = files_nm-NatInv; blank = λ nid slot h e. blank_6 nid slot }

used_6 : UsedPath files file_6 true (full 900) 6
unfolding UsedPath get_path translate lookup_cached find node_view
used_6 = ((inode_entry, refl, λ e. ground arith), λ n. absurd (n refl))

get_dnode_page-Created_example :
    Created files file_6 true (full 900) 6 (get_dnode_page files true 6 900 file_6)
get_dnode_page-Created_example = get_dnode_page-Created files 6 refl 900 file_6 Ready-6 used_6

pub Nodes-8 : Nodes files file_8 (node_view files file_8 8).i
unfolding node_view Ids
Nodes-8 = record {
  direct = λ j h n. ground (arith, h, n);
  indirect = λ j a h n. ground (arith, a, h, n);
  double = λ n. ground (arith, n);
}

xcpfs_do_truncate_lem_example :
    (st' : NodeState) × (xcpfs_do_truncate files 8 9000 file_8 ≡ some (st', some (2, 808)))
    × Truncated files 8 3 file_8 st'
xcpfs_do_truncate_lem_example =
    xcpfs_do_truncate_lem files 8 9000 file_8 (omega arith) files_nm-NatInv (omega arith) Nodes-8

Ids-7 : Ids (node_view files file_8) 1 7
unfolding node_view Ids
Ids-7 = (omega arith, λ slot n. ground (arith, n))

recurse_all_first_example :
    (st' : NodeState) × (recurse_all files 1 7 file_8 ≡ some st')
    × ((s : ℕ)
        → s < 1018
        → (node_view files st' 7).ptrs s
          ≡ (if leb 1 s then 0 else (node_view files file_8 7).ptrs s))
recurse_all_first_example = recurse_all_first files 0 7 file_8 files_nm-NatInv Ids-7

abbrev pub grown : VfsInode
grown = record {
  i_ino = 6;
  i_mode = 2 ^ 15;
  i_uid = 1000;
  i_gid = 1000;
  i_nlink = 1;
  i_size = 20000;
  i_blocks = 5;
  i_atime = 7;
  i_ctime = 8;
  i_mtime = 9;
  i_atime_nsec = 1;
  i_ctime_nsec = 2;
  i_mtime_nsec = 3;
  i_generation = 1;
  ops = file_ops;
}

abbrev pub blank_inode : VfsInode
blank_inode = record grown { i_mode = 0; i_size = 0; i_blocks = 0; ops = no_ops }

grown-Fits : Fits grown
grown-Fits = record {
  mode = omega arith;
  uid = omega arith;
  gid = omega arith;
  links = omega arith;
  size = omega arith;
  atime = omega arith;
  mtime = omega arith;
  atime_nsec = omega arith;
  mtime_nsec = omega arith;
  generation = omega arith;
}

xcpfs_iget-update_inode_page_example :
    (st1 : NodeState) × (st2 : NodeState) × (xcpfs_update_inode_page files grown file_6 ≡ some st1)
    × (xcpfs_iget files (some (false, blank_inode)) 6 st1
        ≡ some
            (inr (xcpfs_set_inode (restored blank_inode grown (node_view files file_6 6).i)), st2))
    × ((file b : ℕ)
        → file_addr (node_view files st2) file b ≡ file_addr (node_view files file_6) file b)
xcpfs_iget-update_inode_page_example =
    xcpfs_iget-update_inode_page files grown blank_inode file_6 files_nm-NatInv
      (IsKnown-of_ge files file_6 6 (omega arith)) grown-Fits (λ e. ground (arith, e))

prepare_data_page_lem_example :
    (st' : NodeState) × Kept files file_6 st'
    × (prepare_data_page files false 6 3 file_6
        ≡ contents (node_view files file_6) (place_of (node_view files file_6) 6 3) st')
prepare_data_page_lem_example = prepare_data_page_lem files 6 3 file_6 files_nm-NatInv Known-6
