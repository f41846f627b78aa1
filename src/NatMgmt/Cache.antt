-- ===== src/NatMgmt/Cache.antt =====
-- The operations on the cached entries alone. The read-write semaphore makes each one step.
pub mod Count
pub mod View
pub mod Mount
use xcpfs.Base.{
  ℕ, ◌+◌, ◌-◌, Bool, true, false, not, List, [], ◌∷◌, Option, none, some, ◌==◌, if◌then◌else◌,
}
use xcpfs.Errno.{Ret, eexist, enokey}
use xcpfs.NatMgmt.Types.{NatEntry, NatInfo}

-- `list_for_each` up to the first entry with the id.
unfoldable pub find : ℕ → List NatEntry → Option NatEntry
find nid [] = none
find nid (ne ∷ rest) = if ne.nid == nid then some ne else find nid rest

-- `list_del` of that entry.
unfoldable pub delete : ℕ → List NatEntry → List NatEntry
delete nid [] = []
delete nid (ne ∷ rest) = if ne.nid == nid then rest else ne ∷ delete nid rest

-- Assignments to that entry through a pointer.
unfoldable pub assign : ℕ → (NatEntry → NatEntry) → List NatEntry → List NatEntry
assign nid f [] = []
assign nid f (ne ∷ rest) = if ne.nid == nid then f ne ∷ rest else ne ∷ assign nid f rest

abbrev pub or_else {ℓ} : {A : Type ℓ} → Option A → Option A → Option A
or_else none b = b
or_else (some a) b = some a

-- `__lookup_nat`
unfoldable pub lookup_cached : NatInfo → ℕ → Option NatEntry
lookup_cached nm nid = or_else (find nid nm.nat_list) (find nid nm.free_nat)

-- The entry that `__insert_nat` makes; its argument `dirty` is not looked at.
abbrev pub fresh_entry : ℕ → ℕ → ℕ → Bool → NatEntry
fresh_entry nid ino blkaddr pinned = record {
  pinned = pinned;
  dirty = false;
  nid = nid;
  ino = ino;
  block_addr = blkaddr;
}

abbrev pub add_entry : NatInfo → NatEntry → NatInfo
add_entry nm ne =
    let counted = record nm { cached_nat_count = nm.cached_nat_count + 1 } in
    if ne.block_addr == 0
    then record counted { free_nat = ne ∷ nm.free_nat }
    else record counted { nat_list = ne ∷ nm.nat_list }

unfoldable pub insert_nat : NatInfo → ℕ → ℕ → ℕ → Bool → Bool → Ret × NatInfo
insert_nat nm nid ino blkaddr pinned dirty = elim (lookup_cached nm nid) [
  | some t ↦ (some eexist, nm)
  | none ↦ (none, add_entry nm (fresh_entry nid ino blkaddr pinned))
]

-- The counter is lowered for an entry that it counted.
unfoldable pub remove_nat : NatInfo → ℕ → Ret × NatInfo
remove_nat nm nid = elim (find nid nm.nat_list) [
  | none ↦ (some enokey, nm)
  | some ne ↦ (
    none,
    record nm { nat_list = delete nid nm.nat_list; cached_nat_count = nm.cached_nat_count - 1 },
  )
]

unfoldable pub update_nat : NatInfo → ℕ → ℕ → Bool → Ret × NatInfo
update_nat nm nid new_blkaddr pinned = elim (find nid nm.nat_list) [
  | none ↦ (some enokey, nm)
  | some ne ↦ (
    none,
    if ne.block_addr == new_blkaddr then nm else record nm {
      nat_list =
          record ne { block_addr = new_blkaddr; pinned = pinned; dirty = true }
          ∷ delete nid nm.nat_list;
    },
  )
]

-- Assignments through the pointer that a lookup of `nid` returned.
unfoldable pub modify : NatInfo → ℕ → (NatEntry → NatEntry) → NatInfo
modify nm nid f = elim (find nid nm.nat_list) [
  | some ne ↦ record nm { nat_list = assign nid f nm.nat_list }
  | none ↦ record nm { free_nat = assign nid f nm.free_nat }
]

-- `xcpfs_init_nat_info`
abbrev pub init_nat_info : NatInfo
init_nat_info = record { cached_nat_count = 0; nat_list = []; free_nat = [] }
