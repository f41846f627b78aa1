-- ===== src/Meta/Path/Layout.antt =====
-- `get_path` of meta.c against the layout of a file's tree of nodes.
use xcpfs.Base.{ℕ, ◌+◌, ◌-◌, ◌*◌, ◌/◌, ◌%◌, ◌^◌, ◌≤◌, ◌<◌, ◌≡◌, refl, arith}
use xcpfs.Format.{def_addrs_per_inode, def_addrs_per_block, def_nids_per_block}
use xcpfs.Meta.Path.{
  BlockPath, in_inode, direct, indirect, double_indirect, indirect_span, path_double_indirect,
  path_indirect, path_direct, get_path,
}

-- The first block of each of the four parts of a file, and the end of the last.
abbrev pub direct_start : ℕ
direct_start = def_addrs_per_inode

abbrev pub indirect_start : ℕ
indirect_start = direct_start + 2 * def_addrs_per_block

abbrev pub double_start : ℕ
double_start = indirect_start + 2 * indirect_span

abbrev pub max_blocks : ℕ
max_blocks = double_start + def_nids_per_block * indirect_span

-- The layout read from the tree: the file block that stands at the end of a path.
abbrev pub block_at : BlockPath → ℕ
block_at (in_inode a) = a
block_at (direct a b) = direct_start + (a - 900) * def_addrs_per_block + b
block_at (indirect a b c) = indirect_start + (a - 902) * indirect_span + b * def_addrs_per_block + c
block_at (double_indirect a b c d) = double_start + b * indirect_span + c * def_addrs_per_block + d

-- Each offset lies in the array that it indexes: `i_addr` or `i_nid` (from 900 on) of the inode,
-- `nid` of an indirect node, `addr` of a direct node.
abbrev pub InTree : BlockPath → Type 0
InTree (in_inode a) = a < 900
InTree (direct a b) = (900 ≤ a) × (a < 902) × (b < def_addrs_per_block)
InTree (indirect a b c) =
    (902 ≤ a) × (a < 904) × (b < def_nids_per_block) × (c < def_addrs_per_block)
InTree (double_indirect a b c d) =
    (a ≡ 904) × (b < def_nids_per_block) × (c < def_nids_per_block) × (d < def_addrs_per_block)

double-InTree : (n : ℕ) → n < def_nids_per_block * indirect_span → InTree (path_double_indirect n)
unfolding path_double_indirect
double-InTree n h = (refl, omega arith, omega arith, omega arith)

indirect-InTree : (n : ℕ) → n < (def_nids_per_block + 2) * indirect_span → InTree (path_indirect n)
unfolding path_indirect
indirect-InTree n h = ground (arith, double-InTree (n - 2 * indirect_span))

direct-InTree :
    (n : ℕ)
    → n < (def_nids_per_block + 2) * indirect_span + 2 * def_addrs_per_block
    → InTree (path_direct n)
unfolding path_direct
direct-InTree n h = ground (arith, indirect-InTree (n - 2 * def_addrs_per_block))

-- For every block that a file can have, all offsets of its path lie within their arrays.
pub get_path-InTree : (n : ℕ) → n < max_blocks → InTree (get_path n)
unfolding get_path
get_path-InTree n h = ground (arith, direct-InTree (n - 900))

block_at-double : (n : ℕ) → block_at (path_double_indirect n) ≡ double_start + n
unfolding path_double_indirect
block_at-double n = omega arith

block_at-indirect : (n : ℕ) → block_at (path_indirect n) ≡ indirect_start + n
unfolding path_indirect
block_at-indirect n = ground (arith, block_at-double (n - 2 * indirect_span))

block_at-direct : (n : ℕ) → block_at (path_direct n) ≡ direct_start + n
unfolding path_direct
block_at-direct n = ground (arith, block_at-indirect (n - 2 * def_addrs_per_block))

-- The path of a block leads to that block.
pub block_at-get_path : (n : ℕ) → block_at (get_path n) ≡ n
unfolding get_path
block_at-get_path n = ground (arith, block_at-direct (n - 900))

double-block_at :
    (b c d : ℕ)
    → c < def_nids_per_block
    → d < def_addrs_per_block
    → path_double_indirect (b * indirect_span + c * def_addrs_per_block + d)
      ≡ double_indirect 904 b c d
unfolding path_double_indirect
double-block_at b c d h k = ground arith

indirect-block_at :
    (a b c : ℕ)
    → a < 2
    → b < def_nids_per_block
    → c < def_addrs_per_block
    → path_indirect (a * indirect_span + b * def_addrs_per_block + c) ≡ indirect (902 + a) b c
unfolding path_indirect
indirect-block_at a b c h k l = ground arith

direct-block_at :
    (a b : ℕ)
    → a < 2
    → b < def_addrs_per_block
    → path_direct (a * def_addrs_per_block + b) ≡ direct (900 + a) b
unfolding path_direct
direct-block_at a b h k = ground arith

-- Every path within the arrays is the path of the block that it leads to, so two blocks never
-- share one.
pub get_path-block_at : (p : BlockPath) → InTree p → get_path (block_at p) ≡ p
unfolding get_path path_direct path_indirect
get_path-block_at (in_inode a) h = ground arith
get_path-block_at (direct a b) h = ground (arith, direct-block_at (a - 900) b)
get_path-block_at (indirect a b c) h = ground (arith, indirect-block_at (a - 902) b c)
get_path-block_at (double_indirect a b c d) h = ground (arith, double-block_at b c d)

-- Past the last block of the tree the path runs out of an indirect node: `get_path` has no check,
-- and an `int` goes on to twice as many blocks.
pub get_path_too_far :
    (n : ℕ)
    → max_blocks ≤ n
    → n < 2 ^ 31
    → (b c d : ℕ) × (get_path n ≡ double_indirect 904 b c d) × (def_nids_per_block ≤ b)
unfolding get_path path_direct path_indirect path_double_indirect
get_path_too_far n h k = (
  (n - double_start) / indirect_span,
  (n - double_start) % indirect_span / def_addrs_per_block,
  (n - double_start) % def_addrs_per_block,
  ground arith,
  ground arith,
)
