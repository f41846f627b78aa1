-- ===== src/NatMgmt/AllocFree/Assigned.antt =====
-- A new entry of `alloc_free_nat` after its caller has given it an inode number.
use xcpfs.Base.{
  ℕ, zero, suc, ◌+◌, ◌≡◌, refl, Bool, true, false, none, some, arith, ◌==◌, if◌then◌else◌, inl, inr,
  Option-cases,
}
use xcpfs.NatMgmt.Types.{NatEntry, NatInfo, NatFile}
use xcpfs.NatMgmt.Cache.{find, lookup_cached, modify}
use xcpfs.NatMgmt.Cache.View.{find-assign, lookup-modify}
use xcpfs.NatMgmt.Cache.Count.{NatInv, modify-NatInv}
use xcpfs.NatMgmt.Lookup.{load_nat_block}
use xcpfs.NatMgmt.Lookup.Translate.{translate}
use xcpfs.NatMgmt.AllocFree.{free_nat_empty, alloc_loop, alloc_free_nat, first_block}
use xcpfs.NatMgmt.AllocFree.Fresh.{IsFresh, listed-load_nat_block, alloc_free_nat-IsFresh}

listed-free_nat_empty :
    (nm : NatInfo) (is_meta : Bool) (ne : NatEntry) (after : NatInfo) (nid : ℕ)
    → free_nat_empty nm is_meta ≡ some (ne, after)
    → find nid after.nat_list ≡ none
    → find nid nm.nat_list ≡ none
unfolding free_nat_empty find
listed-free_nat_empty nm is_meta ne after nid e h = ground (arith, e, h)

listed-alloc_loop :
    (rounds iblock : ℕ) (file : NatFile) (nm : NatInfo) (is_meta : Bool) (ne : NatEntry)
    (after : NatInfo) (nid : ℕ)
    → alloc_loop rounds iblock file nm is_meta ≡ some (ne, after)
    → find nid after.nat_list ≡ none
    → find nid nm.nat_list ≡ none
unfolding alloc_loop
listed-alloc_loop zero iblock file nm is_meta ne after nid e h = cc
listed-alloc_loop (suc rounds) iblock file nm is_meta ne after nid e h =
    elim (Option-cases (free_nat_empty nm is_meta)) [
      | inl f ↦ listed-load_nat_block file nm iblock nid (
          listed-alloc_loop rounds (iblock + 1) file (load_nat_block iblock file nm) is_meta ne
            after nid (ground (arith, e, f)) h)
      | inr (found, f) ↦ listed-free_nat_empty nm is_meta ne after nid (ground (arith, e, f)) h
    ]

-- the assignments that `get_dnode_page` makes to the entry
abbrev pub owned : ℕ → NatEntry → NatEntry
owned ino ne = record ne { ino = ino; block_addr = 0; dirty = true; pinned = false }

module _ (rounds : ℕ) (file : NatFile) (nm : NatInfo) (is_meta : Bool) (v : NatInv nm)
    (ne : NatEntry) (after : NatInfo)
    (found : alloc_free_nat rounds file nm is_meta ≡ some (ne, after)) (ino : ℕ) where
  abbrev pub assigned : NatInfo
  assigned = modify after ne.nid (owned ino)

  abbrev fresh : IsFresh file nm is_meta ne after
  fresh = alloc_free_nat-IsFresh rounds file nm is_meta v ne after found

  pub assigned-NatInv : NatInv assigned
  assigned-NatInv = modify-NatInv after ne.nid (owned ino) (λ e. refl) (λ e z. refl) fresh.inv

  pub translate-assigned :
      (other : ℕ)
      → translate file assigned other
        ≡ (if ne.nid == other then some (owned ino ne) else translate file nm other)
  unfolding translate lookup_cached
  translate-assigned other = ground (
    arith,
    lookup-modify after ne.nid (owned ino) other (λ e. refl),
    fresh.used_now,
    fresh.same other,
  )

  -- what was in use stays in use
  pub listed-assigned : (nid : ℕ) → find nid assigned.nat_list ≡ none → find nid nm.nat_list ≡ none
  unfolding modify alloc_free_nat
  listed-assigned nid h =
      listed-alloc_loop rounds (first_block is_meta) file nm is_meta ne after nid found (
        ground
          (arith, h, fresh.used_now, find-assign ne.nid nid (owned ino) after.nat_list (λ e. refl)))

  pub assigned_listed : find ne.nid assigned.nat_list ≡ some (owned ino ne)
  unfolding modify
  assigned_listed =
      ground
        (arith, fresh.used_now, find-assign ne.nid ne.nid (owned ino) after.nat_list (λ e. refl))
