-- ===== src/Meta/Path.antt =====
-- `get_path` of meta.c: the offsets, from the inode down, at which a file's block is found.
pub mod Layout
use xcpfs.Base.{ℕ, ◌+◌, ◌-◌, ◌*◌, ◌/◌, ◌%◌, ltb, if◌then◌else◌}
use xcpfs.Format.{def_addrs_per_inode, def_addrs_per_block, def_nids_per_block}

-- The return value with the entries of `offset` that are set (the others stay -1). An `int` that
-- is not negative is a number here.
pub data BlockPath : Type 0 where
  in_inode : ℕ → BlockPath
  direct : ℕ → ℕ → BlockPath
  indirect : ℕ → ℕ → ℕ → BlockPath
  double_indirect : ℕ → ℕ → ℕ → ℕ → BlockPath

-- the returned level
pub depth : BlockPath → ℕ
depth (in_inode a) = 0
depth (direct a b) = 1
depth (indirect a b c) = 2
depth (double_indirect a b c d) = 3

-- `DIV_ROUND_UP(n, d)` of the kernel.
abbrev pub div_round_up : ℕ → ℕ → ℕ
div_round_up n d = (n + d - 1) / d

-- the blocks below one entry of the inode's indirect nodes
abbrev pub indirect_span : ℕ
indirect_span = def_nids_per_block * def_addrs_per_block

-- The part below `//double indirect`, for what is left of `iblock` there.
path_double_indirect : ℕ → BlockPath
path_double_indirect iblock =
    let i = div_round_up (iblock + 1) indirect_span - 1 in
    let left = iblock - i * def_nids_per_block * def_addrs_per_block in
    let j = div_round_up (left + 1) def_addrs_per_block - 1 in
    double_indirect (def_addrs_per_inode + 2 + 2) i j (left - j * def_addrs_per_block)

-- The part below `//indirect`.
path_indirect : ℕ → BlockPath
unfolding path_double_indirect
path_indirect iblock =
    let i = div_round_up (iblock + 1) indirect_span - 1 in
    let left = iblock - indirect_span * i in
    let j = div_round_up (left + 1) def_addrs_per_block - 1 in
    if ltb i 2
    then indirect (def_addrs_per_inode + 2 + i) j (left - def_nids_per_block * j)
    else path_double_indirect (iblock - 2 * def_nids_per_block * def_addrs_per_block)

-- The part below `//direct`.
path_direct : ℕ → BlockPath
unfolding path_indirect
path_direct iblock =
    let i = div_round_up (iblock + 1) def_addrs_per_block - 1 in
    if ltb i 2
    then direct (def_addrs_per_inode + i) ((iblock - i * def_addrs_per_block) % def_addrs_per_block)
    else path_indirect (iblock - 2 * def_addrs_per_block)

unfoldable pub get_path : ℕ → BlockPath
unfolding path_direct
get_path iblock =
    if ltb iblock def_addrs_per_inode
    then in_inode iblock
    else path_direct (iblock - def_addrs_per_inode)
