-- ===== src/Dir/Readdir.antt =====
-- `xcpfs_readdir` of dir.c. The caller's buffer takes `room` more entries; then `dir_emit` is false.
-- The inodes of the entries can be had.
use xcpfs.Base.{
  ℕ, zero, suc, ◌+◌, ◌-◌, ◌*◌, ◌/◌, ◌≤◌, ◌<◌, ◌≡◌, refl, List, [], ◌∷◌, none, length, arith, ◌==◌,
  if◌then◌else◌,
}
use xcpfs.Errno.{Ret}
use xcpfs.Format.{page_size}
use xcpfs.Dir.Types.{Dentry}
use xcpfs.Dir.Entries.{failed}

abbrev pub drop : ℕ → List Dentry → List Dentry
drop n [] = []
drop zero (de ∷ rest) = de ∷ rest
drop (suc n) (de ∷ rest) = drop n rest

-- The loop from page `i` on: the entries given to the caller, and `ctx->pos`.
unfoldable pub read_from : (ℕ → Ret) → ℕ → ℕ → List Dentry → ℕ → List Dentry × ℕ
read_from fault room i [] pos = ([], pos)
read_from fault room i (de ∷ rest) pos =
    let skipped = read_from fault room (i + 1) rest pos in
    let passed = read_from fault room (i + 1) rest (pos + page_size) in
    let emitted = read_from fault (room - 1) (i + 1) rest (pos + page_size) in
    if failed (fault i)
    then skipped
    else if de.ino == 0
    then passed
    else if room == 0
    then ([], pos)
    else (de ∷ emitted.0, emitted.1)

-- `ALIGN(pos, PAGE_SIZE)`
abbrev pub align : ℕ → ℕ
align pos = (pos + page_size - 1) / page_size * page_size

-- The first page is the one at the index `pos`, a position in bytes.
unfoldable pub xcpfs_readdir : (ℕ → Ret) → ℕ → List Dentry → ℕ → List Dentry × ℕ
xcpfs_readdir fault room pages ctx_pos =
    let pos = align ctx_pos in read_from fault room pos (drop pos pages) pos

-- the entries in use
unfoldable pub in_use : List Dentry → List Dentry
in_use [] = []
in_use (de ∷ rest) = if de.ino == 0 then in_use rest else de ∷ in_use rest

module _ (fault : ℕ → Ret) (reads : (i : ℕ) → fault i ≡ none) where
  read_from_all :
      (room i : ℕ) (pages : List Dentry) (pos : ℕ)
      → length (in_use pages) ≤ room
      → read_from fault room i pages pos ≡ (in_use pages, pos + length pages * page_size)
  unfolding read_from in_use
  read_from_all room i [] pos h = ground arith
  read_from_all room i (de ∷ rest) pos h = ground (
    arith,
    reads i,
    read_from_all room (i + 1) rest (pos + page_size),
    read_from_all (room - 1) (i + 1) rest (pos + page_size),
  )

  drop-zero : (pages : List Dentry) → drop 0 pages ≡ pages
  drop-zero [] = refl
  drop-zero (de ∷ rest) = refl

  -- A directory read from its start into a large enough buffer gives exactly the entries in use, in
  -- their order.
  pub xcpfs_readdir_all :
      (room : ℕ) (pages : List Dentry)
      → length (in_use pages) ≤ room
      → xcpfs_readdir fault room pages 0 ≡ (in_use pages, length pages * page_size)
  unfolding xcpfs_readdir
  xcpfs_readdir_all room pages h =
      rw (drop-zero pages, read_from_all room 0 pages 0 h) (ground arith)

drop-all : (n : ℕ) (pages : List Dentry) → length pages ≤ n → drop n pages ≡ []
drop-all zero [] h = refl
drop-all (suc n) [] h = refl
drop-all zero (de ∷ rest) h = absurd (omega (arith, h))
drop-all (suc n) (de ∷ rest) h = drop-all n rest (omega (arith, h))

-- A call that goes on behind the start, as after a buffer that was full, gives nothing in a
-- directory of up to PAGE_SIZE pages: the entries that did not fit the first time are never listed.
pub xcpfs_readdir_resumed :
    (fault : ℕ → Ret) (room : ℕ) (pages : List Dentry) (ctx_pos : ℕ)
    → 0 < ctx_pos
    → length pages ≤ page_size
    → (xcpfs_readdir fault room pages ctx_pos).0 ≡ []
unfolding xcpfs_readdir read_from
xcpfs_readdir_resumed fault room pages ctx_pos h k =
    rw (drop-all (align ctx_pos) pages (omega arith)) refl
