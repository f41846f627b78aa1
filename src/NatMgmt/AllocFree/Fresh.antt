-- ===== src/NatMgmt/AllocFree/Fresh.antt =====
-- What `alloc_free_nat` returns.
use xcpfs.Base.{
  ℕ, zero, suc, ◌+◌, ◌*◌, ◌≢◌, ◌≡◌, sym, subst, ◌∙◌, Bool, false, List, [], ◌∷◌, none, some, arith,
  length, ◌==◌, if◌then◌else◌, inl, inr, Option-cases, Bool-cases,
}
use mathlib.Core.Option.{some-injective}
use xcpfs.Format.{nat_entry_per_block}
use xcpfs.NatMgmt.Types.{NatEntry, NatInfo, RawNat, NatFile}
use xcpfs.NatMgmt.Cache.{find, lookup_cached, insert_nat}
use xcpfs.NatMgmt.Cache.Count.{count, AllFree, NatInv, find_of_count}
use xcpfs.NatMgmt.Lookup.{load_entry, load_entries, load_nat_block}
use xcpfs.NatMgmt.Lookup.Translate.{translate, translate-load_nat_block, load_nat_block-NatInv}
use xcpfs.NatMgmt.AllocFree.{
  wrong_area, take_free, free_nat_empty, alloc_loop, alloc_free_nat, first_block,
}

-- What the list is like around the entry that is taken.
record Split (is_meta : Bool) (list : List NatEntry) (ne : NatEntry) (others : List NatEntry)
    : Type 0 where
  right_area : wrong_area is_meta ne.nid ≡ false
  counts : (nid : ℕ) → count nid others + (if ne.nid == nid then 1 else 0) ≡ count nid list
  lengths : suc (length others) ≡ length list
  free : AllFree list → (ne.block_addr ≡ 0) × AllFree others
  there : find ne.nid list ≡ some ne
  keeps : (nid : ℕ) → ne.nid ≢ nid → find nid others ≡ find nid list

take_free-Split :
    (is_meta : Bool) (list : List NatEntry) (ne : NatEntry) (others : List NatEntry)
    → take_free is_meta list ≡ some (ne, others)
    → Split is_meta list ne others
unfolding take_free count find
take_free-Split is_meta [] ne others e = cc
take_free-Split is_meta (x ∷ rest) ne others e = elim (Bool-cases (wrong_area is_meta x.nid)) [
  | inl w ↦ elim (Option-cases (take_free is_meta rest)) [
    | inl f ↦ cc
    | inr ((found, kept), f) ↦
        let before = take_free-Split is_meta rest found kept f in
        record {
          right_area = ground (arith, before.right_area);
          counts = λ nid. ground (arith, before.counts nid);
          lengths = ground (arith, before.lengths);
          free = λ h. ground (arith, before.free h.1, h);
          there = ground (arith, before.there, before.right_area);
          keeps = λ nid. ground (arith, before.keeps nid);
        }
  ]
  | inr w ↦ record {
    right_area = ground arith;
    counts = λ nid. ground arith;
    lengths = ground arith;
    free = λ h. ground (arith, h);
    there = ground arith;
    keeps = λ nid. ground arith;
  }
]

-- An id in use stays in use while blocks of the table are read.
listed-load_entries :
    (n iblock i : ℕ) (raw_nats : ℕ → RawNat) (nm : NatInfo) (nid : ℕ) (ne : NatEntry)
    → find nid nm.nat_list ≡ some ne
    → find nid (load_entries n iblock i raw_nats nm).nat_list ≡ some ne
unfolding load_entries load_entry insert_nat lookup_cached find
listed-load_entries zero iblock i raw_nats nm nid ne e = e
listed-load_entries (suc n) iblock i raw_nats nm nid ne e =
    listed-load_entries n iblock (i + 1) raw_nats
      (load_entry (iblock * nat_entry_per_block + i) (raw_nats i) nm) nid ne (ground arith)

pub listed-load_nat_block :
    (file : NatFile) (nm : NatInfo) (iblock nid : ℕ)
    → find nid (load_nat_block iblock file nm).nat_list ≡ none
    → find nid nm.nat_list ≡ none
unfolding load_nat_block
listed-load_nat_block file nm iblock nid e = elim (Option-cases (find nid nm.nat_list)) [
  | inl f ↦ f
  | inr (ne, f) ↦
      ground (arith, e, listed-load_entries nat_entry_per_block iblock 0 (file iblock) nm nid ne f)
]

-- What an allocation promises.
pub record IsFresh (file : NatFile) (nm : NatInfo) (is_meta : Bool) (ne : NatEntry)
    (after : NatInfo) : Type 0 where
  pub address : ne.block_addr ≡ 0
  pub right_area : wrong_area is_meta ne.nid ≡ false
  pub unused : find ne.nid nm.nat_list ≡ none
  pub used_now : find ne.nid after.nat_list ≡ some ne
  pub held : translate file nm ne.nid ≡ some ne
  pub same : (nid : ℕ) → translate file after nid ≡ translate file nm nid
  pub inv : NatInv after

module _ (file : NatFile) (nm : NatInfo) (is_meta : Bool) (v : NatInv nm) where
  taken :
      (ne : NatEntry) (others : List NatEntry)
      → take_free is_meta nm.free_nat ≡ some (ne, others)
      → IsFresh file nm is_meta ne (record nm { nat_list = ne ∷ nm.nat_list; free_nat = others })
  unfolding translate lookup_cached find count
  taken ne others e =
      let s = take_free-Split is_meta nm.free_nat ne others e in
      let unused =
        find_of_count ne.nid nm.nat_list (ground (arith, v.unique ne.nid, s.counts ne.nid)) in
      record {
        address = (s.free v.free).0;
        right_area = s.right_area;
        unused = unused;
        used_now = ground arith;
        held = ground (arith, unused, s.there);
        same = λ nid. ground (arith, s.keeps nid, unused, s.there);
        inv = record {
          unique = λ nid. ground (arith, v.unique nid, s.counts nid);
          counted = ground (arith, v.counted, s.lengths);
          free = (s.free v.free).1;
        };
      }

  free_nat_empty-IsFresh :
      (ne : NatEntry) (after : NatInfo)
      → free_nat_empty nm is_meta ≡ some (ne, after)
      → IsFresh file nm is_meta ne after
  unfolding free_nat_empty
  free_nat_empty-IsFresh ne after e = elim (Option-cases (take_free is_meta nm.free_nat)) [
    | inl f ↦ ground (arith, e, f)
    | inr ((found, others), f) ↦
        let moved : NatInfo = record nm { nat_list = found ∷ nm.nat_list; free_nat = others } in
        let before : NatEntry × NatInfo = (found, moved) in
        let result : NatEntry × NatInfo = (ne, after) in
        let same : some before ≡ some result = ground (arith, e, f) in
        subst (λ r. IsFresh file nm is_meta r.0 r.1) (some-injective before result same)
          (taken found others f)
  ]

alloc_loop-IsFresh :
    (rounds iblock : ℕ) (file : NatFile) (nm : NatInfo) (is_meta : Bool)
    → NatInv nm
    → (ne : NatEntry) (after : NatInfo)
    → alloc_loop rounds iblock file nm is_meta ≡ some (ne, after)
    → IsFresh file nm is_meta ne after
unfolding alloc_loop
alloc_loop-IsFresh zero iblock file nm is_meta v ne after e = cc
alloc_loop-IsFresh (suc rounds) iblock file nm is_meta v ne after e =
    elim (Option-cases (free_nat_empty nm is_meta)) [
      | inl f ↦
          let read = load_nat_block iblock file nm in
          let later =
            alloc_loop-IsFresh rounds (iblock + 1) file read is_meta
              (load_nat_block-NatInv file nm iblock v) ne after (ground (arith, e, f)) in
          record {
            address = later.address;
            right_area = later.right_area;
            used_now = later.used_now;
            inv = later.inv;
            unused = listed-load_nat_block file nm iblock ne.nid later.unused;
            held = sym (translate-load_nat_block file nm iblock ne.nid) ∙ later.held;
            same = λ nid. later.same nid ∙ translate-load_nat_block file nm iblock nid;
          }
      | inr (found, f) ↦ free_nat_empty-IsFresh file nm is_meta v ne after (ground (arith, e, f))
    ]

-- The entry that an allocation returns has no address, is of the area asked for, was not in use
-- before and is afterwards, and was free in the cache or in the table; the map from ids to entries
-- is as before, and the cache's invariant still holds.
pub alloc_free_nat-IsFresh :
    (rounds : ℕ) (file : NatFile) (nm : NatInfo) (is_meta : Bool)
    → NatInv nm
    → (ne : NatEntry) (after : NatInfo) → alloc_free_nat rounds file nm is_meta ≡ some (ne, after)
    → IsFresh file nm is_meta ne after
unfolding alloc_free_nat
alloc_free_nat-IsFresh rounds file nm is_meta v ne after e =
    alloc_loop-IsFresh rounds (first_block is_meta) file nm is_meta v ne after e

-- Two allocations, one after the other, never give the same node id.
pub alloc_free_nat-distinct :
    (m n : ℕ) (file : NatFile) (nm : NatInfo) (a b : Bool)
    → NatInv nm
    → (first second : NatEntry) (between after : NatInfo)
    → alloc_free_nat m file nm a ≡ some (first, between)
    → alloc_free_nat n file between b ≡ some (second, after)
    → first.nid ≢ second.nid
alloc_free_nat-distinct m n file nm a b v first second between after e f =
    let x = alloc_free_nat-IsFresh m file nm a v first between e in
    let y = alloc_free_nat-IsFresh n file between b x.inv second after f in
    ground (arith, x.used_now, y.unused)
