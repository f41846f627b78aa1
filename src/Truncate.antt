-- ===== src/Truncate.antt =====
-- file.c: the release of a file's blocks from a given one on.
pub mod Clear
pub mod Shrink
pub mod Direct
pub mod Nids
pub mod Inside
pub mod Blocks
pub mod FirstEntry
pub mod Setattr
use xcpfs.Base.{
  ℕ, zero, suc, ◌+◌, ◌-◌, ◌*◌, ◌/◌, Bool, true, false, ◌||◌, Option, none, some, ltb, leb, ◌==◌,
  if◌then◌else◌,
}
use xcpfs.Base.Table.{update}
use xcpfs.Base.Int.{ℤ, pos, negsuc, sub_one}
use xcpfs.Format.{page_size, def_addrs_per_inode, def_nids_per_block}
use xcpfs.ZoneMgmt.Types.{ZmInfo}
use xcpfs.ZoneMgmt.Blocks.{invalidate_blkaddr}
use xcpfs.NatMgmt.Lookup.{invalidate_nat}
use xcpfs.Meta.Path.{BlockPath, in_inode, direct, indirect, double_indirect, get_path}
use xcpfs.Node.{RawInode, NodePage, NodeEnv, NodeState, keep_page, get_node_page}

-- The array `offset`, whose entries may be -1.
abbrev pub Offsets : Type 0
Offsets = ℕ → ℤ

abbrev pub to_array : BlockPath → Offsets
to_array (in_inode a) = update (λ i. negsuc 0) 0 (pos a)
to_array (direct a b) = update (update (λ i. negsuc 0) 0 (pos a)) 1 (pos b)
to_array (indirect a b c) = update (update (update (λ i. negsuc 0) 0 (pos a)) 1 (pos b)) 2 (pos c)
to_array (double_indirect a b c d) =
    update (update (update (update (λ i. negsuc 0) 0 (pos a)) 1 (pos b)) 2 (pos c)) 3 (pos d)

abbrev pub is_unset : ℤ → Bool
is_unset (negsuc zero) = true
is_unset _ = false

abbrev pub is_zero : ℤ → Bool
is_zero (pos zero) = true
is_zero _ = false

-- The number of entries before the first -1, of the first four.
abbrev pub offset_len : Offsets → ℕ
offset_len o =
    if is_unset (o 0)
    then 0
    else if is_unset (o 1)
    then 1
    else if is_unset (o 2)
    then 2
    else if is_unset (o 3)
    then 3
    else 4

-- The loop of `xcpfs_recurse` over a direct node from entry `i` on, with `n` entries left.
unfoldable pub clear_addrs : ℕ → ℕ → (ℕ → ℕ) → ZmInfo → (ℕ → ℕ) × ZmInfo
clear_addrs zero i addr zm = (addr, zm)
clear_addrs (suc n) i addr zm =
    clear_addrs n (i + 1) (if addr i == 0 then addr else update addr i 0)
      (if addr i == 0 then zm else invalidate_blkaddr zm (addr i))

-- `invalidate_nat`, whose result is not looked at
abbrev pub drop_nat : NodeEnv → NodeState → ℕ → NodeState
drop_nat env st nid = record st {
  io = record st.io { nm = (invalidate_nat env.io.file st.io.nm nid).1 };
}

-- The loop over an indirect node; `child` is the call for an entry. The page is locked meanwhile.
unfoldable pub drop_children :
    NodeEnv
    → (ℕ → NodeState → Option NodeState)
    → ℕ
    → ℕ
    → (ℕ → ℕ)
    → NodeState
    → Option ((ℕ → ℕ) × NodeState)
drop_children env child zero i nids st = some (nids, st)
drop_children env child (suc n) i nids st = elim (nids i == 0) [
  | true ↦ drop_children env child n (i + 1) nids st
  | false ↦ elim (child (nids i) st) [
    | none ↦ none
    | some st' ↦ drop_children env child n (i + 1) (update nids i 0) (drop_nat env st' (nids i))
  ]
]

-- `xcpfs_commit_write` of the node's page, which is up to date and dirty afterwards
abbrev pub commit : NodeState → ℕ → NodePage → (ℕ → ℕ) → NodeState
commit st nid page ptrs = keep_page st nid (record page { ptrs = ptrs })

abbrev pub with_zm : NodeState → ZmInfo → NodeState
with_zm st zm = record st { io = record st.io { zm = zm } }

-- `xcpfs_recurse` with `offset` NULL. An indirect node is gone through from its second entry on.
-- `none` is a NULL pointer followed.
unfoldable pub recurse_all : NodeEnv → ℕ → ℕ → NodeState → Option NodeState
recurse_all env zero nid st = elim (get_node_page env nid st) [
  | none ↦ none
  | some (page, got) ↦
      let cleared = clear_addrs def_nids_per_block 0 page.ptrs got.io.zm in
      some (commit (with_zm got cleared.1) nid page cleared.0)
]
recurse_all env (suc depth) nid st = elim (get_node_page env nid st) [
  | none ↦ none
  | some (page, got) ↦
      elim (drop_children env (recurse_all env depth) (def_nids_per_block - 1) 1 page.ptrs got) [
        | none ↦ none
        | some (nids, st') ↦ some (commit st' nid page nids)
      ]
]

-- The part of `xcpfs_recurse` behind the loop over an indirect node, for the entry `i` of `offset`
-- that stands for the node, the entry `k` there and the loop's counter at its end, `last`: the
-- pointer that is set to 0 is the one at `last`.
abbrev pub drop_partial :
    NodeEnv → Offsets → ℕ → ℕ → ℕ → (ℕ → ℕ) → NodeState → (ℕ → ℕ) × NodeState × Offsets
drop_partial env offset i k last nids st =
    if is_zero (offset (i + 1))
    then (update nids last 0, drop_nat env st (nids k), update offset i (sub_one (offset i)))
    else (nids, st, offset)

-- `xcpfs_recurse` with an `offset`, which it changes; `none` is a NULL pointer followed or an access
-- before the array.
unfoldable pub recurse_from : NodeEnv → Offsets → ℕ → ℕ → NodeState → Option (NodeState × Offsets)
recurse_from env offset depth nid st =
    let len = offset_len offset in
    let i = len - depth - 1 in
    if leb len depth then none else elim (get_node_page env nid st) [
      | none ↦ none
      | some (page, got) ↦ elim (offset i) [
        | negsuc m ↦ none
        | pos k ↦ elim depth [
          | zero ↦
              let cleared = clear_addrs (def_nids_per_block - k) k page.ptrs got.io.zm in
              some (
                commit (with_zm got cleared.1) nid page cleared.0,
                update offset (len - 1) (sub_one (offset (len - 1))),
              )
          | suc below ↦
              elim (drop_children env (recurse_all env below) (def_nids_per_block - (k + 1)) (k + 1)
                page.ptrs got) [
                  | none ↦ none
                  | some (nids, st') ↦
                      let last = if ltb k def_nids_per_block then def_nids_per_block else k + 1 in
                      let (nids', st'', offset') = drop_partial env offset i k last nids st' in
                      some (commit st'' nid page nids', offset')
                ]
        ]
      ]
    ]

-- What `xcpfs_truncate_blocks` works on: the inode's page, the rest, `offset` and `flag`.
pub record Truncating : Type 0 where
  pub ri : RawInode
  pub st : NodeState
  pub offset : Offsets
  pub flag : Bool

-- `xcpfs_recurse(inode,flag?NULL:offset,depth,nid)`
abbrev pub recurse : NodeEnv → ℕ → ℕ → Truncating → Option Truncating
recurse env depth nid t =
    if t.flag
    then elim (recurse_all env depth nid t.st) [
      | none ↦ none
      | some st ↦ some (record t { st = st })
    ]
    else elim (recurse_from env t.offset depth nid t.st) [
      | none ↦ none
      | some (st, offset) ↦ some (record t { st = st; offset = offset })
    ]

abbrev pub drop_nid : NodeEnv → ℕ → Truncating → Truncating
drop_nid env i t =
    if t.flag || is_zero (t.offset 1)
    then record t {
      st = drop_nat env t.st (t.ri.i_nid i);
      ri = record t.ri { i_nid = update t.ri.i_nid i 0 };
    }
    else t

-- A loop over entries of `i_nid` from `i` on, with `n` left.
unfoldable pub drop_nids : NodeEnv → ℕ → ℕ → ℕ → Truncating → Option Truncating
drop_nids env depth zero i t = some t
drop_nids env depth (suc n) i t = elim (t.ri.i_nid i == 0) [
  | true ↦ drop_nids env depth n (i + 1) t
  | false ↦ elim (recurse env depth (t.ri.i_nid i) t) [
    | none ↦ none
    | some t' ↦ drop_nids env depth n (i + 1) (drop_nid env i t')
  ]
]

abbrev pub int_part : ℤ → ℕ
int_part (pos n) = n
int_part (negsuc n) = 0

-- One of the three blocks of `xcpfs_truncate_blocks` for the entries of `i_nid` before `end_nid`.
-- (`offset[0]` is not negative there.)
unfoldable pub drop_level : NodeEnv → ℕ → ℕ → ℕ → Truncating → Option Truncating
drop_level env depth end_nid next t =
    let first = int_part (t.offset 0) - def_addrs_per_inode in
    if ltb (int_part (t.offset 0)) (def_addrs_per_inode + end_nid)
    then elim (drop_nids env depth (end_nid - first) first t) [
      | none ↦ none
      | some t' ↦ some (record t' {
        offset = update t'.offset 0 (pos (def_addrs_per_inode + next));
        flag = true;
      })
    ]
    else some t

-- The block for the addresses in the inode.
abbrev pub drop_addrs : Truncating → Truncating
drop_addrs t =
    let first = int_part (t.offset 0) in
    let cleared = clear_addrs (def_addrs_per_inode - first) first t.ri.i_addr t.st.io.zm in
    if ltb first def_addrs_per_inode
    then record t {
      ri = record t.ri { i_addr = cleared.0 };
      st = with_zm t.st cleared.1;
      offset = update t.offset 0 (pos def_addrs_per_inode);
      flag = true;
    }
    else t

infixl 5 ◌>>=◌
abbrev pub ◌>>=◌ : Option Truncating → (Truncating → Option Truncating) → Option Truncating
none >>= f = none
some t >>= f = f t

-- `xcpfs_truncate_blocks`, for the inode's page `ri`.
unfoldable pub xcpfs_truncate_blocks : NodeEnv → RawInode → ℕ → NodeState → Option Truncating
xcpfs_truncate_blocks env ri free_from st =
    some (
      drop_addrs
        (record { ri = ri; st = st; offset = to_array (get_path free_from); flag = false }))
    >>= drop_level env 0 2 2
    >>= drop_level env 1 4 4
    >>= drop_level env 2 5 6

-- `xcpfs_do_truncate`, for the file `ino` and its new size, an `int` that is not
-- negative. The second result is what `xcpfs_truncate_partial_block` is called with, a block and
-- the byte in it from which on, if the size ends inside a block.
unfoldable pub xcpfs_do_truncate : NodeEnv → ℕ → ℕ → NodeState → Option (NodeState × Option (ℕ × ℕ))
xcpfs_do_truncate env ino from st =
    let free_from = (from + page_size - 1) / page_size in
    let iblock = from / page_size in
    let offset = from - iblock * page_size in
    elim (get_node_page env ino st) [
      | none ↦ none
      | some (ipage, got) ↦ elim (xcpfs_truncate_blocks env ipage.i free_from got) [
        | none ↦ none
        | some t ↦ some (
          keep_page t.st ino (record ipage { i = t.ri }),
          if offset == 0 then none else some (iblock, offset),
        )
      ]
    ]
