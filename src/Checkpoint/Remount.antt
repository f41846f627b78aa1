-- ===== src/Checkpoint/Remount.antt =====
-- What is appended to the super block is what the next mount finds.
use xcpfs.Base.{
  ℕ, ◌+◌, ◌<◌, ◌≤◌, ◌≡◌, ◌≢◌, refl, ap, ◌∙◌, List, [], ◌∷◌, Option, none, some, length, arith, ◌==◌,
  if◌then◌else◌, inl, inr, Option-cases,
}
use xcpfs.Format.{xcpfs_magic, sb_nat_count}
use xcpfs.NatMgmt.Types.{NatEntry, NatInfo}
use xcpfs.NatMgmt.Cache.{find, delete, lookup_cached, insert_nat, update_nat, init_nat_info}
use xcpfs.NatMgmt.Cache.View.{find-nid, find-delete_ne}
use xcpfs.NatMgmt.Cache.Mount.{SbNat, mount_nat}
use xcpfs.Checkpoint.{SbInfo, SuperBlock, info_of, init_cpsb, cp_append_nat, read_nats, read_super}

abbrev pub sb_nat : NatEntry → SbNat
sb_nat ne = record { nid = ne.nid; ino = ne.ino; block_addr = ne.block_addr }

unfoldable pub append_all : SuperBlock → List NatEntry → SuperBlock
append_all raw_sb [] = raw_sb
append_all raw_sb (ne ∷ rest) = append_all (cp_append_nat raw_sb ne) rest

unfoldable pub mount_all : List NatEntry → NatInfo → NatInfo
mount_all [] nm = nm
mount_all (ne ∷ rest) nm = mount_all rest (mount_nat nm (sb_nat ne))

-- The places in front of the first free one stay as they are.
kept :
    (entries : List NatEntry) (raw_sb : SuperBlock) (i : ℕ)
    → raw_sb.meta_nat_cnt + length entries ≤ sb_nat_count
    → i < raw_sb.meta_nat_cnt
    → (append_all raw_sb entries).meta_nat i ≡ raw_sb.meta_nat i
unfolding append_all cp_append_nat
kept [] raw_sb i h l = refl
kept (ne ∷ rest) raw_sb i h l = ground (arith, h, l, kept rest (cp_append_nat raw_sb ne) i)

count_append :
    (entries : List NatEntry) (raw_sb : SuperBlock)
    → raw_sb.meta_nat_cnt + length entries ≤ sb_nat_count
    → (append_all raw_sb entries).meta_nat_cnt ≡ raw_sb.meta_nat_cnt + length entries
unfolding append_all cp_append_nat
count_append [] raw_sb h = omega arith
count_append (ne ∷ rest) raw_sb h = ground (arith, h, count_append rest (cp_append_nat raw_sb ne))

next_cnt :
    (raw_sb : SuperBlock) (ne : NatEntry)
    → raw_sb.meta_nat_cnt < sb_nat_count
    → (cp_append_nat raw_sb ne).meta_nat_cnt ≡ raw_sb.meta_nat_cnt + 1
unfolding cp_append_nat
next_cnt raw_sb ne h = omega (arith, h)

placed_at :
    (raw_sb : SuperBlock) (ne : NatEntry) (i : ℕ)
    → raw_sb.meta_nat_cnt < sb_nat_count
    → i ≡ raw_sb.meta_nat_cnt
    → (cp_append_nat raw_sb ne).meta_nat i ≡ sb_nat ne
unfolding cp_append_nat
placed_at raw_sb ne i h e = ground (arith, h, e)

read_append :
    (entries : List NatEntry) (raw_sb : SuperBlock) (nm : NatInfo) (i : ℕ)
    → i ≡ raw_sb.meta_nat_cnt
    → raw_sb.meta_nat_cnt + length entries ≤ sb_nat_count
    → read_nats (length entries) i (append_all raw_sb entries) nm ≡ mount_all entries nm
unfolding read_nats mount_all append_all
read_append [] raw_sb nm i e h = refl
read_append (ne ∷ rest) raw_sb nm i e h =
    let next = cp_append_nat raw_sb ne in
    let cnt = next_cnt raw_sb ne (omega (arith, h)) in
    let here =
      kept rest next i (omega (arith, h, cnt)) (omega (arith, e, cnt))
      ∙ placed_at raw_sb ne i (omega (arith, h)) e in
    ap (λ x. read_nats (length rest) (i + 1) (append_all next rest) (mount_nat nm x)) here
    ∙ read_append rest next (mount_nat nm (sb_nat ne)) (i + 1) (omega (arith, e, cnt))
        (omega (arith, h, cnt))

-- The head of the super block stays as it is.
head_append :
    (entries : List NatEntry) (raw_sb : SuperBlock)
    → append_all raw_sb entries ≡ record raw_sb {
      meta_nat_cnt = (append_all raw_sb entries).meta_nat_cnt;
      meta_nat = (append_all raw_sb entries).meta_nat;
    }
unfolding append_all cp_append_nat
head_append [] raw_sb = refl
head_append (ne ∷ rest) raw_sb = head_append rest (cp_append_nat raw_sb ne)

-- the last address that the entries have for the id
unfoldable pub last_addr : ℕ → List NatEntry → Option ℕ → Option ℕ
last_addr nid [] before = before
last_addr nid (ne ∷ rest) before =
    last_addr nid rest (if ne.nid == nid then some ne.block_addr else before)

-- every entry has an id and an address
abbrev pub AllPlaced : List NatEntry → Type 0
AllPlaced [] = Unit {0}
AllPlaced (ne ∷ rest) = (ne.nid ≢ 0) × (ne.block_addr ≢ 0) × AllPlaced rest

abbrev pub addr_of : Option NatEntry → Option ℕ
addr_of none = none
addr_of (some ne) = some ne.block_addr

mounted_one :
    (ne : NatEntry) (nm : NatInfo) (nid : ℕ)
    → ne.nid ≢ 0
    → ne.block_addr ≢ 0
    → nm.free_nat ≡ []
    → (addr_of (find nid (mount_nat nm (sb_nat ne)).nat_list)
        ≡ (if ne.nid == nid then some ne.block_addr else addr_of (find nid nm.nat_list)))
      × ((mount_nat nm (sb_nat ne)).free_nat ≡ [])
unfolding mount_nat insert_nat update_nat find lookup_cached delete
mounted_one ne nm nid valid placed free = elim (Option-cases (find ne.nid nm.nat_list)) [
  | inl e ↦ ground (arith, e, free)
  | inr (old, e) ↦
      ground
        (arith, e, free, find-nid ne.nid nm.nat_list old e, find-delete_ne ne.nid nid nm.nat_list)
]

mounted_all :
    (entries : List NatEntry) (nm : NatInfo) (nid : ℕ)
    → AllPlaced entries
    → nm.free_nat ≡ []
    → addr_of (find nid (mount_all entries nm).nat_list)
      ≡ last_addr nid entries (addr_of (find nid nm.nat_list))
unfolding mount_all last_addr
mounted_all [] nm nid h free = refl
mounted_all (ne ∷ rest) nm nid h free =
    let (addr, free') = mounted_one ne nm nid h.0 h.1 free in
    mounted_all rest (mount_nat nm (sb_nat ne)) nid h.2 free' ∙ rw addr refl

-- what is read from a super block with the right magic number
read_super_ok :
    (raw_super : SuperBlock) (sbi : SbInfo) (nm : NatInfo)
    → raw_super.magic ≡ xcpfs_magic
    → read_super raw_super sbi nm
      ≡ (none, (info_of raw_super, read_nats raw_super.meta_nat_cnt 0 raw_super nm))
unfolding read_super
read_super_ok raw_super sbi nm e = rw (e, read_super) refl

module _ (sbi old : SbInfo) (entries : List NatEntry) where
  -- Entries appended to a fresh super block, no more than the 312 that the page holds and each with an
  -- id and an address, are what the next mount starts with: the magic number is accepted, the inode
  -- numbers and page counts are those of the checkpoint, and each id is at the last address that was
  -- appended for it.
  pub read_super-cp_append_nat :
      length entries ≤ sb_nat_count
      → AllPlaced entries
      → let result = read_super (append_all (init_cpsb sbi) entries) old init_nat_info in
        (result.0 ≡ none)
        × (result.1.0 ≡ record sbi {
          total_meta_page_count = sbi.nat_page_count + sbi.zit_page_count + sbi.ssa_page_count;
        })
        × ((nid : ℕ) → addr_of (find nid result.1.1.nat_list) ≡ last_addr nid entries none)
  unfolding init_cpsb find
  read_super-cp_append_nat few placed =
      let first = init_cpsb sbi in
      let full = append_all first entries in
      let head = head_append entries first in
      let read = read_super_ok full old init_nat_info (ap (λ r. r.magic) head) in
      let cnt : full.meta_nat_cnt ≡ length entries =
        omega (arith, count_append entries first (omega (arith, few))) in
      let nats =
        ap (λ n. read_nats n 0 full init_nat_info) cnt
        ∙ read_append entries first init_nat_info 0 refl (omega (arith, few)) in
      (
        ap (λ r. r.0) read,
        ap (λ r. r.1.0) read ∙ ap info_of head,
        λ nid.
            ap (λ r. addr_of (find nid r.1.1.nat_list)) read
            ∙ ap (λ nm. addr_of (find nid nm.nat_list)) nats
            ∙ mounted_all entries init_nat_info nid placed refl,
      )
