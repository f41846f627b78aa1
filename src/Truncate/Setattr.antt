-- ===== src/Truncate/Setattr.antt =====
-- `xcpfs_setattr` of reg.c, which cuts a file to a new size.
use xcpfs.Base.{
  ℕ, ◌+◌, ◌-◌, ◌*◌, ◌/◌, ◌%◌, ◌≤◌, ◌<◌, ◌≡◌, ◌≢◌, refl, ◌∙◌, ap, Bool, true, false, [], ◌∷◌, Option,
  none, some, arith, ltb, ◌==◌, ==_ne, ==_refl, ==_iff, ◌⊎◌, inl, inr, Bool-cases, if◌then◌else◌,
}
use xcpfs.Errno.{Errno, Ret}
use xcpfs.Format.{page_size}
use xcpfs.NatMgmt.Cache.Count.{NatInv}
use xcpfs.Node.{NodeEnv, NodeState}
use xcpfs.Node.View.{node_view, Kept, Kept-refl, same_views}
use xcpfs.Node.Dnode.{offsets}
use xcpfs.Node.Dnode.Walk.{Place, walk, place_addr, Known}
use xcpfs.Node.File.{place_of, file_addr}
use xcpfs.Node.File.Paths.{full}
use xcpfs.Meta.Path.{in_inode}
use xcpfs.Meta.Path.Layout.{get_path-block_at}
use xcpfs.Xio.Data.Pages.{
  zero_filled, from_block, no_page, locked, null_deref, searching_id, contents, prepare_data_page,
  prepare_data_page_lem,
}
use xcpfs.Truncate.Shrink.{IsKnown-of_ge}
use xcpfs.Inode.Attributes.{VfsInode}
use xcpfs.Truncate.{xcpfs_do_truncate}
use xcpfs.Truncate.Inside.{Nodes}
use xcpfs.Truncate.Blocks.{Truncated, xcpfs_do_truncate_lem}

-- `xcpfs_commit_write` for a file of the users: the size is at least the end of what was written.
abbrev pub commit_size : VfsInode → ℕ → VfsInode
commit_size inode end = if ltb inode.i_size end then record inode { i_size = end } else inode

-- `xcpfs_truncate_partial_block` for an offset that is not 0: the page of the block is prepared, where
-- the page cache does not have it up to date, and written back whole. What the page holds is left
-- out. `none` is a page that stays locked, a NULL pointer followed, or no answer within the rounds.
unfoldable pub xcpfs_truncate_partial_block :
    NodeEnv → Bool → VfsInode → ℕ → NodeState → Option (VfsInode × NodeState)
xcpfs_truncate_partial_block env uptodate inode iblock st =
    let whole = commit_size inode (iblock * page_size + page_size) in
    if uptodate
    then some (whole, st)
    else elim (prepare_data_page env false inode.i_ino iblock st) [
      | zero_filled got ↦ some (whole, got)
      | from_block addr got ↦ some (whole, got)
      | no_page err got ↦ some (inode, got)
      | locked ↦ none
      | null_deref ↦ none
      | searching_id ↦ none
    ]

-- `xcpfs_truncate` of file.c, but for the times; `uptodate` is whether the page cache has the page in
-- which the new end lies up to date.
unfoldable pub xcpfs_truncate :
    NodeEnv → Bool → VfsInode → NodeState → Option (VfsInode × NodeState)
xcpfs_truncate env uptodate inode st = elim (xcpfs_do_truncate env inode.i_ino inode.i_size st) [
  | none ↦ none
  | some (st', none) ↦ some (inode, st')
  | some (st', some (iblock, offset)) ↦ xcpfs_truncate_partial_block env uptodate inode iblock st'
]

-- What the kernel's functions answer for the change: `setattr_prepare` and `inode_newsize_ok`; and the
-- new size, if it is one of the attributes to be set.
pub record Change : Type 0 where
  pub prepared : Ret
  pub newsize_ok : Ret
  pub ia_size : Option ℕ

-- The attributes that `setattr_copy` of the kernel sets are left out. `none` is a NULL pointer followed.
unfoldable pub xcpfs_setattr :
    NodeEnv → Bool → Change → VfsInode → NodeState → Option (Ret × VfsInode × NodeState)
xcpfs_setattr env uptodate change inode st = elim change.prepared [
  | some error ↦ some (some error, inode, st)
  | none ↦ elim change.ia_size [
    | none ↦ some (none, inode, st)
    | some ia_size ↦
        if ia_size == inode.i_size then some (none, inode, st) else elim change.newsize_ok [
          | some error ↦ some (some error, inode, st)
          | none ↦
              let sized = record inode { i_size = ia_size } in
              elim (xcpfs_truncate env uptodate sized st) [
                | none ↦ none
                | some (after, st') ↦ some (none, after, st')
              ]
        ]
  ]
]

-- The page of one of the first 900 blocks is prepared from its block or with zeros.
module _ (env : NodeEnv) (uptodate : Bool) (inode : VfsInode) (id : 3 ≤ inode.i_ino) (b : ℕ)
    (h : b < 900) (st : NodeState) (v : NatInv st.io.nm) where
  in_inode_path : full b ≡ b ∷ []
  in_inode_path = ap offsets (get_path-block_at (in_inode b) h)

  known : Known env st true (full b) inode.i_ino
  unfolding Known
  known = rw in_inode_path (IsKnown-of_ge env st inode.i_ino id)

  abbrev here : Place
  here = record { node = inode.i_ino; top = true; slot = b }

  inode_place : place_of (node_view env st) inode.i_ino b ≡ some here
  unfolding walk
  inode_place = rw in_inode_path refl

  not_uptodate :
      (got : NodeState)
      → prepare_data_page env false inode.i_ino b st ≡ contents (node_view env st) (some here) got
      → xcpfs_truncate_partial_block env false inode b st
        ≡ some (commit_size inode (b * page_size + page_size), got)
  unfolding xcpfs_truncate_partial_block
  not_uptodate got there = elim (Bool-cases (place_addr (node_view env st) here == 0)) [
    | inl z ↦ rw (there, z, xcpfs_truncate_partial_block) refl
    | inr z ↦ rw (there, z, xcpfs_truncate_partial_block) refl
  ]

  partial_lem :
      (st' : NodeState) × Kept env st st'
      × (xcpfs_truncate_partial_block env uptodate inode b st
          ≡ some (commit_size inode (b * page_size + page_size), st'))
  unfolding xcpfs_truncate_partial_block
  partial_lem = elim (Bool-cases uptodate) [
    | inl u ↦ (st, Kept-refl env st v, rw (u, xcpfs_truncate_partial_block) refl)
    | inr u ↦
        let view = node_view env st in
        let (got, k, e) = prepare_data_page_lem env inode.i_ino b st v known in
        let there = e ∙ ap (λ w. contents view w got) inode_place in
        (got, k, ap (λ c. xcpfs_truncate_partial_block env c inode b st) u ∙ not_uptodate got there)
  ]

Truncated-Kept :
    (env : NodeEnv) (ino n : ℕ) (st st' st'' : NodeState)
    → Truncated env ino n st st'
    → Kept env st' st''
    → Truncated env ino n st st''
Truncated-Kept env ino n st st' st'' t k = record {
  blocks = λ b h. ap (λ w. file_addr w ino b) (same_views env st' st'' k) ∙ t.blocks b h;
  released = λ b h l a. rw k.zm (t.released b h l a);
  others = λ x h. rw k.zm (t.others x h);
  inv = k.inv;
}

-- The size after a change to `ia_size`: the end of its last page.
abbrev pub page_end : ℕ → ℕ
page_end ia_size = (ia_size + page_size - 1) / page_size * page_size

truncate_lem :
    (env : NodeEnv) (uptodate : Bool) (inode : VfsInode) (st : NodeState)
    → NatInv st.io.nm
    → 3 ≤ inode.i_ino
    → Nodes env st (node_view env st inode.i_ino).i
    → (inode.i_size + page_size - 1) / page_size < 900
    → (st' : NodeState) × (xcpfs_truncate env uptodate inode st
        ≡ some (record inode { i_size = page_end inode.i_size }, st'))
      × Truncated env inode.i_ino ((inode.i_size + page_size - 1) / page_size) st st'
unfolding xcpfs_truncate
truncate_lem env uptodate inode st v id nodes few =
    let size = inode.i_size in
    let (st', e, t) = xcpfs_do_truncate_lem env inode.i_ino size st few v id nodes in
    elim (Bool-cases (size % page_size == 0)) [
      | inl z ↦
          let same : size ≡ page_end size = omega (arith, (==_iff (size % page_size) 0).0 z) in
          (
            st',
            rw (e, z, xcpfs_truncate) (ap (λ s. some (record inode { i_size = s }, st')) same),
            t,
          )
      | inr z ↦
          let rest : size % page_size ≢ 0 = ground (arith, z) in
          let less : size < size / page_size * page_size + page_size = omega arith in
          let same : size / page_size * page_size + page_size ≡ page_end size =
            omega (arith, rest) in
          let (got, k, p) =
            partial_lem env uptodate inode id (size / page_size) (omega (arith, few, rest)) st'
              t.inv in
          (
            got,
            rw (e, z, xcpfs_truncate)
                (p
                  ∙ ap (λ i. some (i, got))
                      (ground (arith, less) ∙ ap (λ s. record inode { i_size = s }) same)),
            Truncated-Kept env inode.i_ino _ st st' got t k,
          )
    ]

-- An error of the kernel's checks is answered, and inode and blocks stay as they are; so they do, with
-- the answer 0, where there is no new size or it is the one that the file has. A change to a size of
-- fewer than 900 blocks, with the ids of the file's nodes in use and the cache in order, leaves the
-- file the blocks before its new end and no other, and releases those that stood in the inode or below
-- its direct nodes; but the size of the file is then the end of the page in which the new size lies,
-- and not the new size, whether the page cache has that page or not.
pub xcpfs_setattr_lem :
    (env : NodeEnv) (uptodate : Bool) (inode : VfsInode) (st : NodeState)
    → NatInv st.io.nm
    → 3 ≤ inode.i_ino
    → Nodes env st (node_view env st inode.i_ino).i
    → (ia_size : ℕ) → (ia_size + page_size - 1) / page_size < 900
    → ((error : Errno) (ok : Ret) (size : Option ℕ)
        → xcpfs_setattr env uptodate
            (record { prepared = some error; newsize_ok = ok; ia_size = size })
            inode
            st
          ≡ some (some error, inode, st))
      × ((ok : Ret) (size : Option ℕ)
          → (size ≡ none) ⊎ (size ≡ some inode.i_size)
          → xcpfs_setattr env uptodate
              (record { prepared = none; newsize_ok = ok; ia_size = size })
              inode
              st
            ≡ some (none, inode, st))
      × (ia_size ≢ inode.i_size
          → ((error : Errno)
              → xcpfs_setattr env uptodate
                  (record { prepared = none; newsize_ok = some error; ia_size = some ia_size })
                  inode
                  st
                ≡ some (some error, inode, st))
            × ((st' : NodeState) × (xcpfs_setattr env uptodate
                    (record { prepared = none; newsize_ok = none; ia_size = some ia_size })
                    inode
                    st
                  ≡ some (none, record inode { i_size = page_end ia_size }, st'))
                × Truncated env inode.i_ino ((ia_size + page_size - 1) / page_size) st st'))
unfolding xcpfs_setattr
xcpfs_setattr_lem env uptodate inode st v id nodes ia_size few =
    let (st', e, t) =
      truncate_lem env uptodate (record inode { i_size = ia_size }) st v id nodes few in
    (
      λ error ok size. refl,
      λ ok size same. elim same [ inl e ↦ rw e refl | inr e ↦ rw (e, ==_refl inode.i_size) refl ],
      λ n. (
        λ error. rw (==_ne ia_size inode.i_size n) refl,
        (st', rw (==_ne ia_size inode.i_size n, e) refl, t),
      ),
    )
