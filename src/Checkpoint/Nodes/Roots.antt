-- ===== src/Checkpoint/Nodes/Roots.antt =====
-- The end of a checkpoint, and the next mount.
use xcpfs.Base.{
  ℕ, ◌+◌, ◌≤◌, ◌≡◌, ◌≢◌, refl, sym, ◌∙◌, ap, Bool, false, true, ◌&&◌, ◌||◌, List, [], ◌∷◌, ◌++◌,
  Option, none, some, length, length-append, arith, ◌==◌, if◌then◌else◌, inl, inr, Option-cases,
}
use xcpfs.Format.{sb_nat_count}
use xcpfs.NatMgmt.Types.{NatEntry}
use xcpfs.NatMgmt.Cache.{find, init_nat_info}
use xcpfs.NatMgmt.Cache.View.{find-nid}
use xcpfs.NatMgmt.Cache.Count.{NatInv}
use xcpfs.NatMgmt.Lookup.Translate.{node_block}
use xcpfs.Checkpoint.{SbInfo, SuperBlock, init_cpsb, cp_append_nat, read_super}
use xcpfs.Checkpoint.Remount.{append_all, last_addr, AllPlaced, addr_of, read_super-cp_append_nat}
use xcpfs.Checkpoint.Nodes.{Writes, idle, is_written, append_looked, append_roots, last_phase}
use xcpfs.Checkpoint.Nodes.Remounted.{AllNonzero, AllListed, recorded}
use xcpfs.Xio.{IoState, IoEnv}
use xcpfs.Xio.Nodes.{lookup_listed}
use xcpfs.Xio.Nodes.View.{NodesValid, node_block-listed}

append_all-++ :
    (raw_sb : SuperBlock) (a b : List NatEntry)
    → append_all raw_sb (a ++ b) ≡ append_all (append_all raw_sb a) b
unfolding append_all
append_all-++ raw_sb [] b = refl
append_all-++ raw_sb (ne ∷ a) b = append_all-++ (cp_append_nat raw_sb ne) a b

last_addr-++ :
    (nid : ℕ) (a b : List NatEntry) (before : Option ℕ)
    → last_addr nid (a ++ b) before ≡ last_addr nid b (last_addr nid a before)
unfolding last_addr
last_addr-++ nid [] b before = refl
last_addr-++ nid (ne ∷ a) b before =
    last_addr-++ nid a b (if ne.nid == nid then some ne.block_addr else before)

AllPlaced-++ : (a b : List NatEntry) → AllPlaced a → AllPlaced b → AllPlaced (a ++ b)
AllPlaced-++ [] b h k = k
AllPlaced-++ (ne ∷ a) b h k = (h.0, h.1, AllPlaced-++ a b h.2 k)

append_listed :
    (env : IoEnv) (st : IoState) (nid : ℕ) (ne : NatEntry)
    → find nid st.nm.nat_list ≡ some ne
    → append_looked env nid st ≡ some (record st { raw_sb = cp_append_nat st.raw_sb ne })
append_listed env st nid ne listed =
    rw (lookup_listed env.file st.nm nid ne listed, append_looked)
      (ap (λ r. some (record st { nm = r.1; raw_sb = cp_append_nat st.raw_sb ne }))
        (lookup_listed env.file st.nm nid ne listed))

-- the two entries at the end
with_roots :
    (nid : ℕ) (one three : NatEntry) (before : Option ℕ)
    → one.nid ≡ 1
    → three.nid ≡ 3
    → last_addr nid (one ∷ three ∷ []) before ≡ (
        if 3 == nid
        then some three.block_addr
        else if 1 == nid
        then some one.block_addr
        else before)
unfolding last_addr
with_roots nid one three before e f = ground (arith, e, f)

appends_roots :
    (env : IoEnv) (st : IoState) (one three : NatEntry)
    → find 1 st.nm.nat_list ≡ some one
    → find 3 st.nm.nat_list ≡ some three
    → append_roots env st ≡ some (record st { raw_sb = append_all st.raw_sb (one ∷ three ∷ []) })
unfolding append_roots append_all
appends_roots env st one three e f =
    rw (append_listed env st 1 one e, append_roots)
      (append_listed env (record st { raw_sb = cp_append_nat st.raw_sb one }) 3 three f)

listed_entry :
    (st : IoState) (nid : ℕ)
    → find nid st.nm.nat_list ≢ none
    → (ne : NatEntry) × (find nid st.nm.nat_list ≡ some ne)
listed_entry st nid h = elim (Option-cases (find nid st.nm.nat_list)) [
  | inl gone ↦ absurd (h gone)
  | inr found ↦ found
]

-- what a super block with these entries means for the blocks of the nodes
found_at :
    (nid : ℕ) (w : Bool) (there one three : ℕ)
    → (3 ≡ nid → there ≡ three)
    → (1 ≡ nid → there ≡ one)
    → (if 3 == nid
        then some three
        else if 1 == nid
        then some one
        else if w
        then some there
        else none)
      ≡ (if (1 == nid) || (3 == nid) || w then some there else none)
found_at nid w there one three h k = ground (arith, h, k)

no_restart :
    (env : IoEnv) (st st' : IoState)
    → append_roots env st ≡ some st'
    → st'.cpc ≡ some false
    → last_phase env st ≡ some (false, st')
unfolding last_phase
no_restart env st st' e c =
    rw (e, last_phase)
      (ap
        (λ (asked : Option Bool). elim asked as (λ x. Option (Bool × IoState)) [
          | none ↦ none
          | some restart ↦ some (restart, st')
        ])
        c)

-- In the last part of a pass of a checkpoint, in the second phase and with the lock held, which begins
-- with a super block that has no entries, with no page being written, with the cache in order and
-- with every node that has a block at a valid one of its own, nodes in use are submitted and their
-- writes end, in any order until no page is being written, each to a block that is not valid when its
-- write ends, and no id or block of them is 0; then the entries of the meta file and of the root are
-- appended, where these are in use and have a block. All of them are not more than the 312 entries
-- that fit in the super block, and no restart is asked for. Then the checkpoint ends, every node that
-- has a block has a valid one, and no two share one; and the next mount reads the super block without
-- an error and finds each of the nodes written, the meta file and the root at its block, and no other.
pub read_super-append_roots :
    (env : IoEnv) (sbi old : SbInfo) (st st' : IoState) (ws : List (ℕ × ℕ))
    → env.cp_locked && (env.cp_phase == 2) ≡ true
    → st.raw_sb ≡ init_cpsb sbi
    → NatInv st.nm
    → NodesValid env.file st.nm st.zm
    → AllListed st ws
    → AllNonzero ws
    → length ws + 2 ≤ sb_nat_count
    → Writes env st idle ws st'
    → find 1 st.nm.nat_list ≢ none
    → find 3 st.nm.nat_list ≢ none
    → node_block env.file st'.nm 1 ≢ 0
    → node_block env.file st'.nm 3 ≢ 0
    → st'.cpc ≡ some false
    → (st'' : IoState) × (last_phase env st' ≡ some (false, st''))
      × NodesValid env.file st''.nm st''.zm
      × (let result = read_super st''.raw_sb old init_nat_info in
          (result.0 ≡ none)
          × ((nid : ℕ)
              → addr_of (find nid result.1.1.nat_list) ≡ (
                  if (1 == nid) || (3 == nid) || is_written nid ws
                  then some (node_block env.file st''.nm nid)
                  else none)))
read_super-append_roots env sbi old st st' ws phase empty v valid listed nonzero few writes one_in
      three_in one_at three_at ends =
    let r = recorded env phase writes v valid listed nonzero in
    let (one, e1) = listed_entry st' 1 (r.listed 1 one_in) in
    let (three, e3) = listed_entry st' 3 (r.listed 3 three_in) in
    let block_1 = node_block-listed env.file st'.nm 1 0 one e1 in
    let block_3 = node_block-listed env.file st'.nm 3 0 three e3 in
    let id_1 = find-nid 1 st'.nm.nat_list one e1 in
    let id_3 = find-nid 3 st'.nm.nat_list three e3 in
    let roots = one ∷ three ∷ [] in
    let all = r.entries ++ roots in
    let sb : append_all st'.raw_sb roots ≡ append_all (init_cpsb sbi) all =
      ap (λ x. append_all x roots) (r.sb ∙ ap (λ x. append_all x r.entries) empty)
      ∙ sym (append_all-++ (init_cpsb sbi) r.entries roots) in
    let placed : AllPlaced all = AllPlaced-++ r.entries roots r.placed (
      λ z. ground (arith, z, id_1),
      λ z. one_at (block_1 ∙ z),
      (λ z. ground (arith, z, id_3), λ z. three_at (block_3 ∙ z), tt),
    ) in
    let size : length all ≤ sb_nat_count =
      omega (arith, length-append r.entries roots, r.size, few) in
    let (ok, info, found) = read_super-cp_append_nat sbi old all size placed in
    (
      record st' { raw_sb = append_all st'.raw_sb roots },
      no_restart env st' _ (appends_roots env st' one three e1 e3) ends,
      r.valid,
      (
        ap (λ x. (read_super x old init_nat_info).0) sb ∙ ok,
        λ nid.
            ap (λ x. addr_of (find nid (read_super x old init_nat_info).1.1.nat_list)) sb
            ∙ found nid
            ∙ last_addr-++ nid r.entries roots none
            ∙ with_roots nid one three (last_addr nid r.entries none) id_1 id_3
            ∙ ap
                (λ b.
                  if 3 == nid
                  then some three.block_addr
                  else if 1 == nid
                  then some one.block_addr
                  else b)
                (r.last nid none)
            ∙ found_at nid (is_written nid ws) (node_block env.file st'.nm nid) one.block_addr
                three.block_addr (λ q. ap (node_block env.file st'.nm) (sym q) ∙ block_3)
                (λ q. ap (node_block env.file st'.nm) (sym q) ∙ block_1),
      ),
    )
