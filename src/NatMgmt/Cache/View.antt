-- ===== src/NatMgmt/Cache/View.antt =====
-- The cache as a map from node ids: what a lookup finds after each operation.
use xcpfs.Base.{
  ℕ, ◌≡◌, ◌≢◌, refl, inl, inr, Bool, true, List, [], ◌∷◌, some, arith, ◌==◌, if◌then◌else◌,
  Option-cases,
}
use mathlib.Core.Option
use xcpfs.NatMgmt.Types.{NatEntry, NatInfo}
use xcpfs.NatMgmt.Cache.{
  find, delete, assign, or_else, lookup_cached, fresh_entry, insert_nat, update_nat, modify,
}

pub find-nid :
    (nid : ℕ) (list : List NatEntry) (ne : NatEntry) → find nid list ≡ some ne → ne.nid ≡ nid
unfolding find
find-nid nid [] ne e = cc
find-nid nid (x ∷ rest) ne e = ground (arith, find-nid nid rest ne)

pub find-delete_ne :
    (nid other : ℕ) (list : List NatEntry)
    → nid ≢ other
    → find other (delete nid list) ≡ find other list
unfolding find delete
find-delete_ne nid other [] h = refl
find-delete_ne nid other (x ∷ rest) h = ground (arith, find-delete_ne nid other rest)

pub find-assign :
    (nid other : ℕ) (f : NatEntry → NatEntry) (list : List NatEntry)
    → ((ne : NatEntry) → (f ne).nid ≡ ne.nid)
    → find other (assign nid f list)
      ≡ (if nid == other then Option.map f (find other list) else find other list)
unfolding find assign
find-assign nid other f [] h = ground arith
find-assign nid other f (x ∷ rest) h = ground (arith, h x, find-assign nid other f rest h)

-- A new id is found with what was inserted; every other id, and an id that was there, as before.
pub lookup-insert_nat :
    (nm : NatInfo) (nid ino blkaddr : ℕ) (pinned dirty : Bool) (other : ℕ)
    → lookup_cached (insert_nat nm nid ino blkaddr pinned dirty).1 other ≡ (
        if nid == other
        then or_else (lookup_cached nm other) (some (fresh_entry nid ino blkaddr pinned))
        else lookup_cached nm other)
unfolding insert_nat lookup_cached find
lookup-insert_nat nm nid ino blkaddr pinned dirty other = ground arith

abbrev pub moved : NatEntry → ℕ → Bool → NatEntry
moved ne blkaddr pinned =
    if ne.block_addr == blkaddr
    then ne
    else record ne { block_addr = blkaddr; pinned = pinned; dirty = true }

-- An id in `nat_list` is found with the new address, and dirty if that is a change; an id that is
-- not there, and every other id, is found as before.
pub lookup-update_nat :
    (nm : NatInfo) (nid blkaddr : ℕ) (pinned : Bool) (other : ℕ)
    → lookup_cached (update_nat nm nid blkaddr pinned).1 other ≡ (
        if nid == other
        then or_else
            (Option.map (λ ne. moved ne blkaddr pinned) (find other nm.nat_list))
            (find other nm.free_nat)
        else lookup_cached nm other)
unfolding update_nat lookup_cached find
lookup-update_nat nm nid blkaddr pinned other = elim (Option-cases (find nid nm.nat_list)) [
  | inl e ↦ ground arith
  | inr (ne, e) ↦
      ground (arith, find-nid nid nm.nat_list ne e, find-delete_ne nid other nm.nat_list)
]

-- Assignments through a pointer reach the entry that a lookup of the id finds, and no other.
pub lookup-modify :
    (nm : NatInfo) (nid : ℕ) (f : NatEntry → NatEntry) (other : ℕ)
    → ((ne : NatEntry) → (f ne).nid ≡ ne.nid)
    → lookup_cached (modify nm nid f) other
      ≡ (if nid == other then Option.map f (lookup_cached nm other) else lookup_cached nm other)
unfolding modify lookup_cached
lookup-modify nm nid f other h = elim (Option-cases (find nid nm.nat_list)) [
  | inl e ↦ ground (arith, find-assign nid other f nm.free_nat h)
  | inr (ne, e) ↦ ground (arith, find-assign nid other f nm.nat_list h)
]
