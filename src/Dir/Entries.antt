-- ===== src/Dir/Entries.antt =====
-- The functions of dir.c that look for an entry, add one and delete one. The pages of a directory,
-- `dir_pages` of them, are a list; whether the page at an index can be had is a parameter of the
-- model, 0 or the error that `xcpfs_prepare_page` returns. The directory's lock, which the kernel
-- holds, makes each of them one step.
pub mod Lookup
pub mod Update
use xcpfs.Base.{
  ℕ, zero, suc, ◌+◌, Bool, true, false, ◌&&◌, List, [], ◌∷◌, ◌++◌, Option, none, some, length,
  get_elem?, set, ltb, leb, ◌==◌, ◌⊎◌, inl, inr, if◌then◌else◌,
}
use xcpfs.Errno.{Errno, Ret, eexist, eio, enametoolong}
use xcpfs.Dir.Types.{Name, same_name, stored_name, max_fname_len, Dentry}

abbrev pub failed : Ret → Bool
failed none = false
failed (some err) = true

abbrev pub is_match : Name → Dentry → Bool
is_match name de = (de.namelen == length name) && same_name de.name name

-- The loop of `xcpfs_find_entry` from page `i` on: the page's index and its entry.
unfoldable pub find_from : (ℕ → Ret) → Name → ℕ → List Dentry → Option (ℕ × Dentry)
find_from fault name i [] = none
find_from fault name i (de ∷ rest) =
    let later = find_from fault name (i + 1) rest in
    if failed (fault i)
    then later
    else if de.ino == 0
    then later
    else if is_match name de
    then some (i, de)
    else later

unfoldable pub xcpfs_find_entry : (ℕ → Ret) → Name → List Dentry → Option (ℕ × Dentry)
xcpfs_find_entry fault name pages = find_from fault name 0 pages

-- 0 where there is no entry.
unfoldable pub xcpfs_inode_by_name : (ℕ → Ret) → Name → List Dentry → ℕ
xcpfs_inode_by_name fault name pages = elim (xcpfs_find_entry fault name pages) [
  | none ↦ 0
  | some (i, de) ↦ de.ino
]

-- `xcpfs_lookup`: the inode number for the kernel's dentry, 0 for one with no inode.
unfoldable pub xcpfs_lookup : (ℕ → Ret) → Name → List Dentry → Errno ⊎ ℕ
xcpfs_lookup fault name pages =
    if ltb max_fname_len (length name)
    then inl enametoolong
    else inr (xcpfs_inode_by_name fault name pages)

-- What the first loop of `xcpfs_add_link` comes to: the page to use, or an error.
pub data Scan : Type 0 where
  target : ℕ → Scan
  stopped : Errno → Scan

-- That loop from page `i` on, with the page chosen so far; `npages` where none is yet.
unfoldable pub scan : (ℕ → Ret) → Name → ℕ → ℕ → List Dentry → ℕ → Scan
scan fault name npages i [] tar = target tar
scan fault name npages i (de ∷ rest) tar =
    let free = (de.ino == 0) && (tar == npages) in
    let later = scan fault name npages (i + 1) rest (if free then i else tar) in
    elim (fault i) [
      | some err ↦ stopped err
      | none ↦ if is_match name de then stopped eexist else later
    ]

-- The entry written to page `tar`; behind the last page the file grows by one.
unfoldable pub write_page : List Dentry → ℕ → Dentry → List Dentry
write_page pages tar de = if tar == length pages then pages ++ (de ∷ []) else set pages tar de

-- `fault` is for the pages read, `write_fault` for the one written.
unfoldable pub xcpfs_add_link : (ℕ → Ret) → (ℕ → Ret) → Name → ℕ → List Dentry → Ret × List Dentry
xcpfs_add_link fault write_fault name ino pages =
    elim (scan fault name (length pages) 0 pages (length pages)) [
      | stopped err ↦ (some err, pages)
      | target tar ↦ elim (write_fault tar) [
        | some err ↦ (some err, pages)
        | none ↦ (
          none,
          write_page pages tar
              (record { name = stored_name ino name; ino = ino; namelen = length name }),
        )
      ]
    ]

abbrev pub free_dentry : Dentry
free_dentry = record { name = []; ino = 0; namelen = 0 }

-- The page is at `index`, within the directory.
unfoldable pub xcpfs_delete_entry : (ℕ → Ret) → ℕ → List Dentry → Ret × List Dentry
xcpfs_delete_entry write_fault index pages =
    if failed (write_fault index) then (some eio, pages) else (none, set pages index free_dentry)

-- The loop of `xcpfs_empty_dir` from page `i` on.
unfoldable pub all_free : (ℕ → Ret) → ℕ → List Dentry → Bool
all_free fault i [] = true
all_free fault i (de ∷ rest) =
    let later = all_free fault (i + 1) rest in
    if failed (fault i) then later else if de.ino == 0 then later else false

abbrev pub behind_two : List Dentry → List Dentry
behind_two (a ∷ b ∷ rest) = rest
behind_two _ = []

-- 1 is `true`.
unfoldable pub xcpfs_empty_dir : (ℕ → Ret) → List Dentry → Bool
xcpfs_empty_dir fault pages =
    if leb (length pages) 2 then true else all_free fault 2 (behind_two pages)

abbrev pub dot : Name
dot = 46 ∷ []

abbrev pub dot_dot : Name
dot_dot = 46 ∷ 46 ∷ []

-- `xcpfs_init_dir` for a new directory, which has no page yet. Both entries get the number of the
-- directory itself.
unfoldable pub xcpfs_init_dir : (ℕ → Ret) → ℕ → List Dentry → Ret × List Dentry
xcpfs_init_dir write_fault ino pages = elim (write_fault 0) [
  | some err ↦ (some err, pages)
  | none ↦
      let first = write_page pages 0 (record { name = dot; ino = ino; namelen = 1 }) in
      elim (write_fault 1) [
        | some err ↦ (some err, first)
        | none ↦ (none, write_page first 1 (record { name = dot_dot; ino = ino; namelen = 2 }))
      ]
]
