-- ===== src/Inode.antt =====
-- inode.c: a new inode gets a node id of the regular area.
pub mod Attributes
pub mod Stored
use xcpfs.Base.{ℕ, ◌⊎◌, inl, inr, Bool, false, Option, none, some, if◌then◌else◌}
use xcpfs.Errno.{Errno, enomem}
use xcpfs.NatMgmt.Types.{NatInfo, NatFile}
use xcpfs.NatMgmt.Cache.{modify}
use xcpfs.NatMgmt.AllocFree.{alloc_free_nat}

-- `xcpfs_new_inode`: the number of the new inode, or an error. `had` is whether the kernel gives an
-- inode; `none` stands for a search for an id that needs more rounds. The id's entry gets the
-- inode's number, and is not marked dirty.
unfoldable pub xcpfs_new_inode : ℕ → NatFile → NatInfo → Bool → Option ((Errno ⊎ ℕ) × NatInfo)
xcpfs_new_inode rounds file nm had =
    if had
    then elim (alloc_free_nat rounds file nm false) [
      | none ↦ none
      | some (ne, after) ↦ some (inr ne.nid, modify after ne.nid (λ e. record e { ino = e.nid }))
    ]
    else some (inl enomem, nm)
