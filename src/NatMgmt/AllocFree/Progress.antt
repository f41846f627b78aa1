-- ===== src/NatMgmt/AllocFree/Progress.antt =====
-- The rounds that `alloc_free_nat` needs.
use xcpfs.Base.{
  ℕ, zero, suc, ◌+◌, ◌-◌, ◌*◌, ◌/◌, ◌%◌, ◌≢◌, ◌≤◌, ◌<◌, ◌≡◌, sym, Bool, false, List, [], ◌∷◌, none,
  some, arith, ◌==◌, inl, inr, Option-cases, Bool-cases,
}
use xcpfs.Format.{nat_entry_per_block}
use xcpfs.NatMgmt.Types.{NatEntry, NatInfo, RawNat, NatFile}
use xcpfs.NatMgmt.Cache.{find, lookup_cached, insert_nat}
use xcpfs.NatMgmt.Cache.Count.{NatInv}
use xcpfs.NatMgmt.Lookup.{load_entry, load_entries, load_nat_block}
use xcpfs.NatMgmt.Lookup.Translate.{lookup-load_entry, lookup-load_nat_block}
use xcpfs.NatMgmt.AllocFree.{
  wrong_area, take_free, free_nat_empty, alloc_loop, alloc_free_nat, first_block,
}
use xcpfs.NatMgmt.AllocFree.Fresh.{IsFresh, alloc_free_nat-IsFresh}

-- A free entry of the area is enough for `free_nat_empty`.
take_free-finds :
    (is_meta : Bool) (list : List NatEntry) (nid : ℕ) (ne : NatEntry)
    → wrong_area is_meta nid ≡ false
    → find nid list ≡ some ne
    → take_free is_meta list ≢ none
unfolding take_free find
take_free-finds is_meta [] nid ne w e = ground (arith, e)
take_free-finds is_meta (x ∷ rest) nid ne w e =
    ground (arith, e, w, take_free-finds is_meta rest nid ne w)

-- The node id is neither in use nor cached, and the table has no address for it.
pub record IsFreeOnDisk (file : NatFile) (nm : NatInfo) (nid : ℕ) : Type 0 where
  pub valid : 3 ≤ nid
  pub uncached : lookup_cached nm nid ≡ none
  pub no_address : (file (nid / nat_entry_per_block) (nid % nat_entry_per_block)).block_addr ≡ 0

kept :
    (n iblock i : ℕ) (raw_nats : ℕ → RawNat) (nm : NatInfo) (nid : ℕ)
    → find nid nm.free_nat ≢ none
    → find nid (load_entries n iblock i raw_nats nm).free_nat ≢ none
unfolding load_entries load_entry insert_nat find
kept zero iblock i raw_nats nm nid h = h
kept (suc n) iblock i raw_nats nm nid h =
    let y = iblock * nat_entry_per_block + i in
    kept n iblock (i + 1) raw_nats (load_entry y (raw_nats i) nm) nid (λ e. h (ground (arith, e)))

now_free :
    (nid : ℕ) (raw_ne : RawNat) (nm : NatInfo)
    → 3 ≤ nid
    → lookup_cached nm nid ≡ none
    → raw_ne.block_addr ≡ 0
    → find nid (load_entry nid raw_ne nm).free_nat ≢ none
unfolding load_entry insert_nat find
now_free nid raw_ne nm valid e a f = ground arith

module _ (raw_nats : ℕ → RawNat) (nid : ℕ) (valid : 3 ≤ nid) where
  free_after :
      (n iblock i : ℕ) (nm : NatInfo)
      → iblock * nat_entry_per_block + i ≤ nid
      → nid < iblock * nat_entry_per_block + i + n
      → lookup_cached nm nid ≡ none
      → (raw_nats (nid - iblock * nat_entry_per_block)).block_addr ≡ 0
      → find nid (load_entries n iblock i raw_nats nm).free_nat ≢ none
  unfolding load_entries load_entry
  free_after zero iblock i nm low high e a = omega arith
  free_after (suc n) iblock i nm low high e a =
      let y = iblock * nat_entry_per_block + i in
      let next = load_entry y (raw_nats i) nm in
      elim (Bool-cases (y == nid)) [
        | inl k ↦
            kept n iblock (i + 1) raw_nats next nid
              (ground (arith, now_free nid (raw_nats i) nm valid e))
        | inr k ↦
            free_after n iblock (i + 1) next (ground arith) (ground arith)
              (ground (arith, lookup-load_entry y (raw_nats i) nm nid)) a
      ]

module _ (file : NatFile) (is_meta : Bool) (nid : ℕ) (w : wrong_area is_meta nid ≡ false) where
  free_nat_empty-finds :
      (nm : NatInfo) → find nid nm.free_nat ≢ none → free_nat_empty nm is_meta ≢ none
  unfolding free_nat_empty
  free_nat_empty-finds nm h e = elim (Option-cases (find nid nm.free_nat)) [
    | inl f ↦ h f
    | inr (ne, f) ↦ ground (arith, e, take_free-finds is_meta nm.free_nat nid ne w f)
  ]

  free_in_block :
      (nm : NatInfo)
      → IsFreeOnDisk file nm nid
      → find nid (load_nat_block (nid / nat_entry_per_block) file nm).free_nat ≢ none
  unfolding load_nat_block
  free_in_block nm free =
      let iblock = nid / nat_entry_per_block in
      let slot : nid % nat_entry_per_block ≡ nid - iblock * nat_entry_per_block = omega arith in
      free_after (file iblock) nid free.valid nat_entry_per_block iblock 0 nm (omega arith)
        (omega arith) free.uncached (rw (sym slot) free.no_address)

  -- The block of the table that holds the id is `k` rounds ahead.
  alloc_loop-ends :
      (k iblock : ℕ) (nm : NatInfo)
      → iblock + k ≡ nid / nat_entry_per_block
      → IsFreeOnDisk file nm nid
      → alloc_loop (suc (suc k)) iblock file nm is_meta ≢ none
  unfolding alloc_loop
  alloc_loop-ends zero iblock nm at free =
      let here : nid / nat_entry_per_block ≡ iblock = omega (arith, at) in
      ground (
        arith,
        free_nat_empty-finds (load_nat_block iblock file nm)
            (rw (sym here) (free_in_block nm free)),
      )
  alloc_loop-ends (suc k) iblock nm at free =
      let read = load_nat_block iblock file nm in
      ground (
        arith,
        alloc_loop-ends k (iblock + 1) read (omega (arith, at)) (record {
          valid = free.valid;
          uncached = ground (arith, at, free.uncached, lookup-load_nat_block file nm iblock nid);
          no_address = free.no_address;
        }),
      )

  -- If an id of the area is not cached and the table has no address for it, a fresh entry is found:
  -- two rounds more than there are blocks of the table before that id's are enough.
  pub alloc_free_nat-ends :
      (nm : NatInfo)
      → NatInv nm
      → IsFreeOnDisk file nm nid
      → (ne : NatEntry) × (after : NatInfo) × (alloc_free_nat
            (suc (suc (nid / nat_entry_per_block - first_block is_meta)))
            file
            nm
            is_meta
          ≡ some (ne, after))
        × IsFresh file nm is_meta ne after
  unfolding alloc_free_nat wrong_area
  alloc_free_nat-ends nm v free =
      let k = nid / nat_entry_per_block - first_block is_meta in
      let behind : first_block is_meta + k ≡ nid / nat_entry_per_block = ground (arith, w) in
      elim (Option-cases (alloc_free_nat (suc (suc k)) file nm is_meta)) [
        | inl e ↦ absurd (alloc_loop-ends k (first_block is_meta) nm behind free e)
        | inr ((ne, after), e) ↦
            (ne, after, e, alloc_free_nat-IsFresh (suc (suc k)) file nm is_meta v ne after e)
      ]
