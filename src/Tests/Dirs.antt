-- ===== src/Tests/Dirs.antt =====
-- A directory with its own two entries, a file "a" (97) and a free page.
use xcpfs.Base.{ℕ, ◌≤◌, ◌≡◌, ◌≢◌, ◌*◌, refl, true, false, none, some, List, [], ◌∷◌, length, arith}
use xcpfs.Errno.{Ret, eexist, enoent, enotempty}
use xcpfs.Format.{page_size}
use xcpfs.NatMgmt.Types.{NatEntry, NatInfo}
use xcpfs.NatMgmt.Cache.Count.{count, NatInv}
use xcpfs.NatMgmt.AllocFree.{wrong_area, take_free, free_nat_empty, alloc_loop, alloc_free_nat}
use xcpfs.Dir.Types.{Name, same_name, Dentry}
use xcpfs.Dir.Entries.{xcpfs_add_link, free_dentry, dot, dot_dot}
use xcpfs.Dir.Entries.Lookup.{ino_of, copies, DirInv, FoundAt, AllFreePages}
use xcpfs.Dir.Entries.Update.{named, Added, xcpfs_add_link_lem}
use xcpfs.Dir.Readdir.{in_use, xcpfs_readdir, xcpfs_readdir_all, xcpfs_readdir_resumed}
use xcpfs.Dir.Ops.{DirState, Env, xcpfs_create, xcpfs_mkdir, xcpfs_unlink, xcpfs_rmdir}
use xcpfs.Dir.Ops.Create.{NoFaults, xcpfs_create_lem, xcpfs_mkdir_lem}
use xcpfs.Dir.Ops.Remove.{Gone, xcpfs_unlink_lem, xcpfs_rmdir_lem}

abbrev name_a : Name
name_a = 97 ∷ []

abbrev name_b : Name
name_b = 98 ∷ []

abbrev no_fault : ℕ → Ret
no_fault i = none

abbrev home : List Dentry
home = named dot 3 ∷ named dot_dot 3 ∷ free_dentry ∷ named name_a 8 ∷ []

home_unique : (name : Name) → copies name home ≤ 1
unfolding copies same_name
home_unique [] = omega arith
home_unique (c ∷ []) = ground arith
home_unique (c ∷ d ∷ []) = ground arith
home_unique (c ∷ d ∷ e ∷ rest) = ground arith

home-DirInv : DirInv home
home-DirInv = record {
  unique = home_unique;
  blank = (
    (λ e. ground (arith, e)),
    ((λ e. ground (arith, e)), ((λ e. refl), ((λ e. ground (arith, e)), tt))),
  );
}

name_b-≢[] : name_b ≢ []
name_b-≢[] e = cc

xcpfs_add_link_lem_example :
    (ino_of name_b home ≢ none
      → xcpfs_add_link no_fault no_fault name_b 9 home ≡ (some eexist, home))
    × (ino_of name_b home ≡ none
        → ((xcpfs_add_link no_fault no_fault name_b 9 home).0 ≡ none)
          × Added name_b 9 home (xcpfs_add_link no_fault no_fault name_b 9 home).1)
xcpfs_add_link_lem_example =
    xcpfs_add_link_lem no_fault no_fault (λ i. refl) (λ i. refl) home home-DirInv name_b 9
      name_b-≢[] (omega arith) (omega arith)

a_at_3 : FoundAt name_a home 0 3 (named name_a 8)
unfolding same_name
a_at_3 = record { k = 3; behind = refl; spot = refl; named = refl }

in_use-home : length (in_use home) ≤ 5
unfolding in_use
in_use-home = omega arith

xcpfs_readdir_all_example : xcpfs_readdir no_fault 5 home 0 ≡ (in_use home, 4 * page_size)
xcpfs_readdir_all_example = xcpfs_readdir_all no_fault (λ i. refl) 5 home in_use-home

xcpfs_readdir_resumed_example : (xcpfs_readdir no_fault 5 home 8192).0 ≡ []
xcpfs_readdir_resumed_example =
    xcpfs_readdir_resumed no_fault 5 home 8192 (omega arith) (omega arith)

-- the cache holds one free id of the regular area
abbrev free_id : NatEntry
free_id = record { pinned = false; dirty = false; nid = 2730005; ino = 0; block_addr = 0 }

abbrev cache : NatInfo
cache = record { cached_nat_count = 1; nat_list = []; free_nat = free_id ∷ [] }

abbrev cache_after : NatInfo
cache_after = record { cached_nat_count = 1; nat_list = free_id ∷ []; free_nat = [] }

cache-NatInv : NatInv cache
unfolding count
cache-NatInv = record { unique = λ nid. ground arith; counted = refl; free = (refl, tt) }

abbrev env : Env
env = record {
  rounds = 1;
  file = λ block slot. record { ino = 0; block_addr = 0 };
  had = true;
  fault = no_fault;
  write_fault = no_fault;
  inode_fault = no_fault;
}

env-NoFaults : NoFaults env
env-NoFaults = record {
  had = refl;
  reads = λ i. refl;
  writes = λ i. refl;
  inode_writes = λ i. refl;
}

-- the inode that the operations name has no entries but its own two
abbrev st : DirState
st = record {
  nm = cache;
  pages = home;
  nlink = 3;
  inode_pages = named dot 8 ∷ named dot_dot 8 ∷ [];
  inode_nlink = 2;
}

takes : alloc_free_nat 1 env.file cache false ≡ some (free_id, cache_after)
unfolding alloc_free_nat alloc_loop free_nat_empty take_free wrong_area
takes = refl

xcpfs_create_lem_example :
    (ino_of name_b home ≡ none
      → (st' : DirState) × (xcpfs_create env name_b st ≡ some (none, st'))
        × Added name_b 2730005 home st'.pages
        × (st'.inode_nlink ≡ 1))
    × (ino_of name_b home ≢ none
        → (st' : DirState) × (xcpfs_create env name_b st ≡ some (some eexist, st'))
          × (st'.pages ≡ home)
          × (st'.inode_nlink ≡ 0))
xcpfs_create_lem_example =
    xcpfs_create_lem env env-NoFaults name_b name_b-≢[] (omega arith) st home-DirInv cache-NatInv
      free_id cache_after takes

xcpfs_mkdir_lem_example :
    (ino_of name_b home ≡ none
      → (st' : DirState) × (xcpfs_mkdir env name_b st ≡ some (none, st'))
        × Added name_b 2730005 home st'.pages
        × (st'.inode_pages ≡ named dot 2730005 ∷ named dot_dot 2730005 ∷ [])
        × (st'.inode_nlink ≡ 2)
        × (st'.nlink ≡ 4))
    × (ino_of name_b home ≢ none
        → (st' : DirState) × (xcpfs_mkdir env name_b st ≡ some (none, st'))
          × (st'.pages ≡ home)
          × (st'.inode_nlink ≡ 0)
          × (st'.nlink ≡ 4))
xcpfs_mkdir_lem_example =
    xcpfs_mkdir_lem env env-NoFaults name_b name_b-≢[] (omega arith) st home-DirInv cache-NatInv
      free_id cache_after takes

xcpfs_unlink_lem_example :
    (ino_of name_a home ≡ none → xcpfs_unlink env name_a st ≡ (some enoent, st))
    × (ino_of name_a home ≢ none
        → ((xcpfs_unlink env name_a st).0 ≡ none)
          × Gone name_a home (xcpfs_unlink env name_a st).1.pages
          × ((xcpfs_unlink env name_a st).1.inode_nlink ≡ 1)
          × ((xcpfs_unlink env name_a st).1.nlink ≡ 3))
xcpfs_unlink_lem_example = xcpfs_unlink_lem env (λ i. refl) (λ i. refl) name_a st home-DirInv

xcpfs_rmdir_lem_example :
    (¬ AllFreePages [] → xcpfs_rmdir env name_a st ≡ (some enotempty, st))
    × (AllFreePages []
        → ino_of name_a home ≢ none
        → ((xcpfs_rmdir env name_a st).0 ≡ none)
          × Gone name_a home (xcpfs_rmdir env name_a st).1.pages
          × ((xcpfs_rmdir env name_a st).1.inode_nlink ≡ 0)
          × ((xcpfs_rmdir env name_a st).1.nlink ≡ 2))
xcpfs_rmdir_lem_example =
    xcpfs_rmdir_lem env (λ i. refl) (λ i. refl) name_a st home-DirInv (λ i. refl)
