-- ===== src/NatMgmt/Flush/Written.antt =====
-- What `flush_nat` leaves in the table and in the cache.
use xcpfs.Base.{
  ℕ, ◌≤◌, ◌≡◌, refl, ◌∙◌, false, List, [], ◌∷◌, Option, none, some, arith, ◌==◌, if◌then◌else◌,
}
use mathlib.Core.Option
use xcpfs.NatMgmt.Types.{NatEntry, NatInfo, RawNat, NatFile}
use xcpfs.NatMgmt.Cache.{find, or_else, fresh_entry, lookup_cached, init_nat_info}
use xcpfs.NatMgmt.Cache.Count.{count, find_of_count, NatInv}
use xcpfs.NatMgmt.Lookup.{lookup_nat}
use xcpfs.NatMgmt.Lookup.Translate.{translate, lookup_nat-translate}
use xcpfs.NatMgmt.Flush.{nat_block, nat_slot, write_nat, flush_entries, flush_nat}

abbrev pub raw_at : NatFile → ℕ → RawNat
raw_at file nid = file (nat_block nid) (nat_slot nid)

abbrev pub clean : NatEntry → NatEntry
clean ne = record ne { dirty = false }

-- the raw entry after a flush
abbrev pub stored : Option NatEntry → RawNat → RawNat
stored none raw_ne = raw_ne
stored (some ne) raw_ne =
    if ne.dirty then record { ino = ne.ino; block_addr = ne.block_addr } else raw_ne

nat_unique : (a b : ℕ) → nat_block a ≡ nat_block b → nat_slot a ≡ nat_slot b → a ≡ b
nat_unique a b h k = omega arith

raw_at-write_nat :
    (file : NatFile) (ne : NatEntry) (nid : ℕ)
    → raw_at (write_nat file ne) nid ≡ (
        if ne.nid == nid
        then record { ino = ne.ino; block_addr = ne.block_addr }
        else raw_at file nid)
unfolding write_nat
raw_at-write_nat file ne nid = ground (arith, nat_unique ne.nid nid)

raw_at-flush_entries :
    (list : List NatEntry) (file : NatFile) (nid : ℕ)
    → count nid list ≤ 1
    → raw_at (flush_entries list file).1 nid ≡ stored (find nid list) (raw_at file nid)
unfolding flush_entries count find
raw_at-flush_entries [] file nid h = refl
raw_at-flush_entries (ne ∷ rest) file nid h = ground (
  arith,
  raw_at-write_nat file ne nid,
  raw_at-flush_entries rest file nid,
  raw_at-flush_entries rest (write_nat file ne) nid,
  find_of_count nid rest,
)

find-flush_entries :
    (list : List NatEntry) (file : NatFile) (nid : ℕ)
    → find nid (flush_entries list file).0 ≡ Option.map clean (find nid list)
unfolding flush_entries find
find-flush_entries [] file nid = refl
find-flush_entries (ne ∷ rest) file nid =
    ground
      (arith, find-flush_entries rest file nid, find-flush_entries rest (write_nat file ne) nid)

-- no entry is dirty
abbrev pub AllClean : List NatEntry → Type 0
AllClean [] = Unit {0}
AllClean (ne ∷ rest) = (ne.dirty ≡ false) × AllClean rest

flush_entries-AllClean :
    (list : List NatEntry) (file : NatFile) → AllClean (flush_entries list file).0
unfolding flush_entries
flush_entries-AllClean [] file = tt
flush_entries-AllClean (ne ∷ rest) file =
    ground
      (arith, flush_entries-AllClean rest file, flush_entries-AllClean rest (write_nat file ne))

module _ (nm : NatInfo) (file : NatFile) (v : NatInv nm) where
  -- A flush writes the dirty entries of `nat_list` to their places in the table and leaves every
  -- other place as it is; afterwards none of them is dirty, and a lookup in the cache finds what it
  -- found before, but clean.
  pub flush_nat_lem :
      ((nid : ℕ)
        → raw_at (flush_nat nm file).1 nid ≡ stored (find nid nm.nat_list) (raw_at file nid))
      × AllClean (flush_nat nm file).0.nat_list
      × ((nid : ℕ)
          → lookup_cached (flush_nat nm file).0 nid
            ≡ or_else (Option.map clean (find nid nm.nat_list)) (find nid nm.free_nat))
  unfolding flush_nat lookup_cached
  flush_nat_lem = (
    λ nid. raw_at-flush_entries nm.nat_list file nid (omega (arith, v.unique nid)),
    flush_entries-AllClean nm.nat_list file,
    λ nid. ground (arith, find-flush_entries nm.nat_list file nid),
  )

init_nat_info-NatInv : NatInv init_nat_info
unfolding count
init_nat_info-NatInv = record { unique = λ nid. omega arith; counted = refl; free = tt }

module _ (nm : NatInfo) (file : NatFile) (v : NatInv nm) (nid : ℕ) (valid : 3 ≤ nid) where
  -- After a flush and a new mount, a lookup finds the inode and the address of an entry that was
  -- dirty in `nat_list`, and for every other id what the table
  -- held before.
  pub lookup_nat-flush_nat : (lookup_nat (flush_nat nm file).1 init_nat_info nid).0 ≡ (
      let raw_ne = stored (find nid nm.nat_list) (raw_at file nid) in
      some (fresh_entry nid raw_ne.ino raw_ne.block_addr false))
  unfolding translate lookup_cached find
  lookup_nat-flush_nat =
      (lookup_nat-translate (flush_nat nm file).1 init_nat_info nid init_nat_info-NatInv).0
      ∙ ground (arith, (flush_nat_lem nm file v).0 nid)
