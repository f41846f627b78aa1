-- ===== src/NatMgmt/Lookup/Translate.antt =====
-- The cache and the table together are one map from node ids to entries: reading the table never
-- changes it.
use xcpfs.Base.{
  ℕ, zero, suc, ◌+◌, ◌-◌, ◌*◌, ◌/◌, ◌%◌, ◌≤◌, ◌<◌, ◌≡◌, refl, Bool, false, ◌&&◌, Option, none, some,
  arith, ltb, leb, ◌==◌, if◌then◌else◌, inl, inr, Bool-cases, Option-cases,
}
use xcpfs.Format.{nat_entry_per_block}
use mathlib.Core.Option
use xcpfs.Errno.{enoent}
use xcpfs.NatMgmt.Types.{NatEntry, NatInfo, RawNat, NatFile}
use xcpfs.NatMgmt.Cache.{or_else, lookup_cached, fresh_entry}
use xcpfs.NatMgmt.Cache.View.{lookup-insert_nat, lookup-modify}
use xcpfs.NatMgmt.Cache.Count.{NatInv, insert_nat-NatInv, modify-NatInv}
use xcpfs.NatMgmt.Lookup.{
  load_entry, load_entries, load_nat_block, lookup_nat, invalidated, invalidate_nat,
}

-- the entry that the table gives for a node id
abbrev pub on_disk : NatFile → ℕ → Option NatEntry
on_disk file nid =
    let raw_ne = file (nid / nat_entry_per_block) (nid % nat_entry_per_block) in
    if ltb nid 3 then none else some (fresh_entry nid raw_ne.ino raw_ne.block_addr false)

-- The map: the cached entry, or else the table's.
unfoldable pub translate : NatFile → NatInfo → ℕ → Option NatEntry
translate file nm nid = or_else (lookup_cached nm nid) (on_disk file nid)

-- the block of a node, 0 for none
abbrev pub block_addr_of : Option NatEntry → ℕ
block_addr_of none = 0
block_addr_of (some ne) = ne.block_addr

abbrev pub node_block : NatFile → NatInfo → ℕ → ℕ
node_block file nm nid = block_addr_of (translate file nm nid)

abbrev covers : ℕ → ℕ → ℕ → ℕ → Bool
covers n iblock i nid =
    leb (iblock * nat_entry_per_block + i) nid
    && ltb nid (iblock * nat_entry_per_block + i + n)
    && leb 3 nid

abbrev raw_entry : ℕ → RawNat → NatEntry
raw_entry nid raw_ne = fresh_entry nid raw_ne.ino raw_ne.block_addr false

pub lookup-load_entry :
    (y : ℕ) (raw_ne : RawNat) (nm : NatInfo) (nid : ℕ)
    → lookup_cached (load_entry y raw_ne nm) nid ≡ (
        if (y == nid) && leb 3 nid
        then or_else (lookup_cached nm nid) (some (raw_entry nid raw_ne))
        else lookup_cached nm nid)
unfolding load_entry
lookup-load_entry y raw_ne nm nid =
    ground (arith, lookup-insert_nat nm y raw_ne.ino raw_ne.block_addr false false nid)

lookup-load_entries :
    (n iblock i : ℕ) (raw_nats : ℕ → RawNat) (nm : NatInfo) (nid : ℕ)
    → lookup_cached (load_entries n iblock i raw_nats nm) nid ≡ (
        if covers n iblock i nid
        then or_else
            (lookup_cached nm nid)
            (some (raw_entry nid (raw_nats (nid - iblock * nat_entry_per_block))))
        else lookup_cached nm nid)
unfolding load_entries
lookup-load_entries zero iblock i raw_nats nm nid = ground arith
lookup-load_entries (suc n) iblock i raw_nats nm nid =
    let y = iblock * nat_entry_per_block + i in
    ground (
      arith,
      lookup-load_entry y (raw_nats i) nm nid,
      lookup-load_entries n iblock (i + 1) raw_nats (load_entry y (raw_nats i) nm) nid,
    )

slot_of :
    (iblock nid : ℕ)
    → iblock * nat_entry_per_block ≤ nid
    → nid < iblock * nat_entry_per_block + nat_entry_per_block
    → (nid / nat_entry_per_block ≡ iblock)
      × (nid % nat_entry_per_block ≡ nid - iblock * nat_entry_per_block)
slot_of iblock nid h k = (omega arith, omega arith)

module _ (file : NatFile) (nm : NatInfo) (iblock nid : ℕ) where
  pub lookup-load_nat_block : lookup_cached (load_nat_block iblock file nm) nid ≡ (
      if nid / nat_entry_per_block == iblock then translate file nm nid else lookup_cached nm nid)
  unfolding load_nat_block translate
  lookup-load_nat_block = ground (
    arith,
    lookup-load_entries nat_entry_per_block iblock 0 (file iblock) nm nid,
    slot_of iblock nid,
  )

  -- Reading a block of the table leaves the map as it is.
  pub translate-load_nat_block :
      translate file (load_nat_block iblock file nm) nid ≡ translate file nm nid
  unfolding translate
  translate-load_nat_block = ground (arith, lookup-load_nat_block)

load_entries-NatInv :
    (n iblock i : ℕ) (raw_nats : ℕ → RawNat) (nm : NatInfo)
    → NatInv nm
    → NatInv (load_entries n iblock i raw_nats nm)
unfolding load_entries load_entry
load_entries-NatInv zero iblock i raw_nats nm v = v
load_entries-NatInv (suc n) iblock i raw_nats nm v =
    let y = iblock * nat_entry_per_block + i in
    let raw_ne = raw_nats i in
    load_entries-NatInv n iblock (i + 1) raw_nats (load_entry y raw_ne nm)
      (elim (Bool-cases (ltb y 3)) [
        | inl e ↦ rw (e, load_entry) v
        | inr e ↦
            rw (e, load_entry) (insert_nat-NatInv nm y raw_ne.ino raw_ne.block_addr false false v)
      ])

pub load_nat_block-NatInv :
    (file : NatFile) (nm : NatInfo) (iblock : ℕ)
    → NatInv nm
    → NatInv (load_nat_block iblock file nm)
unfolding load_nat_block
load_nat_block-NatInv file nm iblock v =
    load_entries-NatInv nat_entry_per_block iblock 0 (file iblock) nm v

module _ (file : NatFile) (nm : NatInfo) (nid : ℕ) where
  lookup_nat-NatInv : NatInv nm → NatInv (lookup_nat file nm nid).1
  unfolding lookup_nat
  lookup_nat-NatInv v = elim (Option-cases (lookup_cached nm nid)) [
    | inl e ↦ rw (e, lookup_nat) (load_nat_block-NatInv file nm (nid / nat_entry_per_block) v)
    | inr (ne, e) ↦ rw (e, lookup_nat) v
  ]

  -- A lookup returns what the map holds for the id, leaves the map as it is for every id, and keeps
  -- the invariant of the cache. (For an id below 3 that is not cached it returns NULL.)
  pub lookup_nat-translate :
      NatInv nm
      → ((lookup_nat file nm nid).0 ≡ translate file nm nid)
        × ((lookup_cached (lookup_nat file nm nid).1 nid ≡ translate file nm nid)
            × (((other : ℕ)
                  → translate file (lookup_nat file nm nid).1 other ≡ translate file nm other)
                × NatInv (lookup_nat file nm nid).1))
  unfolding lookup_nat translate
  lookup_nat-translate v = (
    ground (arith, lookup-load_nat_block file nm (nid / nat_entry_per_block) nid),
    (
      ground (arith, lookup-load_nat_block file nm (nid / nat_entry_per_block) nid),
      (
        λ other. ground (arith, translate-load_nat_block file nm (nid / nat_entry_per_block) other),
        lookup_nat-NatInv v,
      ),
    ),
  )

  -- An invalidation clears the entry of its id and marks it dirty, and leaves every other id as it
  -- is; it fails only for an id below 3 that is not cached.
  pub invalidate_nat-translate :
      NatInv nm
      → (other : ℕ)
      → (translate file (invalidate_nat file nm nid).1 other ≡ (
          if nid == other
          then Option.map invalidated (translate file nm other)
          else translate file nm other))
        × (((invalidate_nat file nm nid).0
              ≡ elim (translate file nm nid) [ none ↦ some enoent | some ne ↦ none ])
            × NatInv (invalidate_nat file nm nid).1)
  unfolding invalidate_nat translate
  invalidate_nat-translate v other =
      let looked = lookup_nat file nm nid in
      let (result, (cached, (same, inv))) = lookup_nat-translate v in
      let seen = lookup-modify looked.1 nid invalidated other (λ ne. refl) in
      (
        ground (arith, result, cached, same other, same nid, seen),
        (
          ground (arith, result),
          elim (Option-cases looked.0) [
            | inl e ↦ rw (e, invalidate_nat) inv
            | inr (ne, e) ↦
                rw (e, invalidate_nat)
                  (modify-NatInv looked.1 nid invalidated (λ ne. refl) (λ ne h. refl) inv)
          ],
        ),
      )
