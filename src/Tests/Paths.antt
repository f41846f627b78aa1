-- ===== src/Tests/Paths.antt =====
-- Paths of blocks in the four parts of a file.
use xcpfs.Base.{◌≡◌, arith}
use xcpfs.Meta.Path.{indirect, get_path}
use xcpfs.Meta.Path.Layout.{InTree, block_at, get_path-InTree, get_path-block_at}

get_path-InTree_example : InTree (get_path 5000)
get_path-InTree_example = get_path-InTree 5000 (omega arith)

get_path-block_at_example : get_path (block_at (indirect 903 7 11)) ≡ indirect 903 7 11
get_path-block_at_example =
    get_path-block_at (indirect 903 7 11) (omega arith, omega arith, omega arith, omega arith)
