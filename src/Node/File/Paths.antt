-- ===== src/Node/File/Paths.antt =====
-- The offsets of a block, from the inode down, tell the block, and none are the start of another's.
use xcpfs.Base.{ℕ, ◌<◌, ◌≡◌, ◌≢◌, sym, ◌∙◌, ap, List, ◌∷◌, ◌++◌, arith}
use xcpfs.Meta.Path.{BlockPath, in_inode, direct, indirect, double_indirect, get_path}
use xcpfs.Meta.Path.Layout.{max_blocks, block_at, InTree, get_path-InTree, block_at-get_path}
use xcpfs.Node.Dnode.{offsets}

abbrev pub full : ℕ → List ℕ
full b = offsets (get_path b)

offsets_not_prefix :
    (p q : BlockPath) (x : ℕ) (rest : List ℕ)
    → InTree p
    → InTree q
    → offsets q ≢ offsets p ++ (x ∷ rest)
offsets_not_prefix (in_inode a) (in_inode a') x rest h k e = cc
offsets_not_prefix (direct a b) (direct a' b') x rest h k e = cc
offsets_not_prefix (indirect a b c) (indirect a' b' c') x rest h k e = cc
offsets_not_prefix (double_indirect a b c d) (double_indirect a' b' c' d') x rest h k e = cc
offsets_not_prefix p q x rest h k e = ground (arith, e)

offsets-injective : (p q : BlockPath) → offsets p ≡ offsets q → p ≡ q
offsets-injective (in_inode a) (in_inode a') e = cc
offsets-injective (direct a b) (direct a' b') e = cc
offsets-injective (indirect a b c) (indirect a' b' c') e = cc
offsets-injective (double_indirect a b c d) (double_indirect a' b' c' d') e = cc
offsets-injective p q e = cc

pub full-injective : (a b : ℕ) → full a ≡ full b → a ≡ b
full-injective a b e =
    sym (block_at-get_path a)
    ∙ ap block_at (offsets-injective (get_path a) (get_path b) e)
    ∙ block_at-get_path b

pub not_prefix :
    (a b : ℕ)
    → a < max_blocks
    → b < max_blocks
    → (x : ℕ) (rest : List ℕ) → full b ≢ full a ++ (x ∷ rest)
not_prefix a b h k x rest =
    offsets_not_prefix (get_path a) (get_path b) x rest (get_path-InTree a h) (get_path-InTree b k)
