-- ===== src/NatMgmt/AllocFree.antt =====
-- `free_nat_empty` and `alloc_free_nat`: a free node id, for a file of the meta area or a regular one.
pub mod Fresh
pub mod Progress
pub mod Assigned
use xcpfs.Base.{
  ℕ, zero, suc, ◌+◌, ◌*◌, Bool, true, false, not, ◌&&◌, ◌||◌, List, [], ◌∷◌, Option, none, some,
  ltb, leb, if◌then◌else◌,
}
use xcpfs.Format.{nat_entry_per_block, reg_nat_start}
use xcpfs.NatMgmt.Types.{NatEntry, NatInfo, NatFile}
use xcpfs.NatMgmt.Lookup.{load_nat_block}

-- The ids from the block REG_NAT_START of the table on are those of the regular files.
unfoldable pub wrong_area : Bool → ℕ → Bool
wrong_area is_meta nid =
    is_meta && leb (reg_nat_start * nat_entry_per_block) nid
    || not is_meta && ltb nid (reg_nat_start * nat_entry_per_block)

-- The first entry of the area in `free_nat`, and the list without it.
unfoldable pub take_free : Bool → List NatEntry → Option (NatEntry × List NatEntry)
take_free is_meta [] = none
take_free is_meta (ne ∷ rest) =
    let later = take_free is_meta rest in
    if wrong_area is_meta ne.nid
    then elim later [ none ↦ none | some (found, others) ↦ some (found, ne ∷ others) ]
    else some (ne, rest)

-- `free_nat_empty`, which moves the entry to `nat_list`.
unfoldable pub free_nat_empty : NatInfo → Bool → Option (NatEntry × NatInfo)
free_nat_empty nm is_meta = elim (take_free is_meta nm.free_nat) [
  | none ↦ none
  | some (ne, others) ↦ some (ne, record nm { nat_list = ne ∷ nm.nat_list; free_nat = others })
]

-- The loop, which goes on until an entry is found; `none` stands for a loop that needs more rounds.
unfoldable pub alloc_loop : ℕ → ℕ → NatFile → NatInfo → Bool → Option (NatEntry × NatInfo)
alloc_loop zero iblock file nm is_meta = none
alloc_loop (suc rounds) iblock file nm is_meta =
    let later = alloc_loop rounds (iblock + 1) file (load_nat_block iblock file nm) is_meta in
    elim (free_nat_empty nm is_meta) [ none ↦ later | some found ↦ some found ]

abbrev pub first_block : Bool → ℕ
first_block is_meta = if is_meta then 0 else reg_nat_start

unfoldable pub alloc_free_nat : ℕ → NatFile → NatInfo → Bool → Option (NatEntry × NatInfo)
alloc_free_nat rounds file nm is_meta = alloc_loop rounds (first_block is_meta) file nm is_meta
