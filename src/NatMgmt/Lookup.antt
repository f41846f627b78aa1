-- ===== src/NatMgmt/Lookup.antt =====
-- The operations of nat_mgmt.c that read the table. The semaphore is let go between the steps of
-- `lookup_nat`; it is one step here. `xcpfs_prepare_page` is taken to give the page.
pub mod Translate
use xcpfs.Base.{
  ℕ, zero, suc, ◌+◌, ◌*◌, ◌/◌, Bool, true, false, Option, none, some, ltb, if◌then◌else◌,
}
use xcpfs.Errno.{Ret, enoent}
use xcpfs.Format.{nat_entry_per_block}
use xcpfs.NatMgmt.Types.{NatEntry, NatInfo, RawNat, NatFile}
use xcpfs.NatMgmt.Cache.{lookup_cached, insert_nat, modify}

-- One round of the loop over a block of the table; the ids below 3 are passed over.
unfoldable pub load_entry : ℕ → RawNat → NatInfo → NatInfo
load_entry nid raw_ne nm =
    if ltb nid 3 then nm else (insert_nat nm nid raw_ne.ino raw_ne.block_addr false false).1

-- The loop from slot `i` on, with `n` slots left.
unfoldable pub load_entries : ℕ → ℕ → ℕ → (ℕ → RawNat) → NatInfo → NatInfo
load_entries zero iblock i raw_nats nm = nm
load_entries (suc n) iblock i raw_nats nm =
    load_entries n iblock (i + 1) raw_nats
      (load_entry (iblock * nat_entry_per_block + i) (raw_nats i) nm)

unfoldable pub load_nat_block : ℕ → NatFile → NatInfo → NatInfo
load_nat_block iblock file nm = load_entries nat_entry_per_block iblock 0 (file iblock) nm

-- The cached entry, or else the one found after the block of the table has been read.
unfoldable pub lookup_nat : NatFile → NatInfo → ℕ → Option NatEntry × NatInfo
lookup_nat file nm nid = elim (lookup_cached nm nid) [
  | some ne ↦ (some ne, nm)
  | none ↦
      let retried = load_nat_block (nid / nat_entry_per_block) file nm in
      (lookup_cached retried nid, retried)
]

-- The assignments of `invalidate_nat`.
abbrev pub invalidated : NatEntry → NatEntry
invalidated ne = record ne { dirty = true; ino = 0; block_addr = 0; pinned = false }

unfoldable pub invalidate_nat : NatFile → NatInfo → ℕ → Ret × NatInfo
invalidate_nat file nm nid =
    let looked = lookup_nat file nm nid in
    elim looked.0 [
      | none ↦ (some enoent, looked.1)
      | some ne ↦ (none, modify looked.1 nid invalidated)
    ]
