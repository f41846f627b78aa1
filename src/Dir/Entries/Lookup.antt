-- ===== src/Dir/Entries/Lookup.antt =====
-- A directory as a map from names to inode numbers.
use xcpfs.Base.{
  ℕ, suc, ◌+◌, ◌≤◌, ◌≡◌, refl, Bool, true, not, ◌&&◌, List, [], ◌∷◌, Option, none, some, get_elem?,
  arith, ◌==◌, if◌then◌else◌, inl, inr, Bool-cases,
}
use xcpfs.Errno.{Ret}
use xcpfs.Dir.Types.{Name, Dentry}
use xcpfs.Dir.Entries.{
  is_match, find_from, xcpfs_find_entry, xcpfs_inode_by_name, all_free, behind_two, xcpfs_empty_dir,
}

abbrev pub names : Name → Dentry → Bool
names name de = not (de.ino == 0) && is_match name de

-- the map
unfoldable pub ino_of : Name → List Dentry → Option ℕ
ino_of name [] = none
ino_of name (de ∷ rest) = if names name de then some de.ino else ino_of name rest

-- the entries in use that have the name
unfoldable pub copies : Name → List Dentry → ℕ
copies name [] = 0
copies name (de ∷ rest) = (if names name de then 1 else 0) + copies name rest

-- A free entry has no name.
abbrev pub FreeBlank : List Dentry → Type 0
FreeBlank [] = Unit {0}
FreeBlank (de ∷ rest) = (de.ino ≡ 0 → de.namelen ≡ 0) × FreeBlank rest

-- No name is used twice.
pub record DirInv (pages : List Dentry) : Type 0 where
  pub unique : (name : Name) → copies name pages ≤ 1
  pub blank : FreeBlank pages

pub ino_of-none :
    (name : Name) (pages : List Dentry) → ino_of name pages ≡ none → copies name pages ≡ 0
unfolding ino_of copies
ino_of-none name [] h = refl
ino_of-none name (de ∷ rest) h = ground (arith, ino_of-none name rest)

pub none_of_copies :
    (name : Name) (pages : List Dentry) → copies name pages ≡ 0 → ino_of name pages ≡ none
unfolding ino_of copies
none_of_copies name [] h = refl
none_of_copies name (de ∷ rest) h = ground (arith, none_of_copies name rest)

-- The place `k` behind page `i`, and the entry there, which has the name.
pub record FoundAt (name : Name) (pages : List Dentry) (i index : ℕ) (de : Dentry) : Type 0 where
  pub k : ℕ
  pub behind : index ≡ i + k
  pub spot : get_elem? pages k ≡ some de
  pub named : names name de ≡ true

module _ (fault : ℕ → Ret) (reads : (i : ℕ) → fault i ≡ none) (name : Name) where
  find_from-some :
      (pages : List Dentry) (i index : ℕ) (de : Dentry)
      → find_from fault name i pages ≡ some (index, de)
      → FoundAt name pages i index de
  unfolding find_from
  find_from-some [] i index de e = cc
  find_from-some (x ∷ rest) i index de e = elim (Bool-cases (names name x)) [
    | inl here ↦ record {
      k = 0;
      behind = ground (arith, e, reads i);
      spot = ground (arith, e, reads i);
      named = ground (arith, e, reads i);
    }
    | inr gone ↦
        let later = find_from-some rest (i + 1) index de (ground (arith, e, reads i)) in
        record {
          k = suc later.k;
          behind = omega (arith, later.behind);
          spot = later.spot;
          named = later.named;
        }
  ]

  find_from_ino :
      (pages : List Dentry) (i : ℕ)
      → (elim (find_from fault name i pages) [ none ↦ none | some (index, de) ↦ some de.ino ])
        ≡ ino_of name pages
  unfolding find_from ino_of
  find_from_ino [] i = refl
  find_from_ino (x ∷ rest) i = ground (arith, reads i, find_from_ino rest (i + 1))

  pub find_entry_ino :
      (pages : List Dentry)
      → (elim (xcpfs_find_entry fault name pages) [ none ↦ none | some (index, de) ↦ some de.ino ])
        ≡ ino_of name pages
  unfolding xcpfs_find_entry
  find_entry_ino pages = find_from_ino pages 0

  pub find_entry_place :
      (pages : List Dentry) (index : ℕ) (de : Dentry)
      → xcpfs_find_entry fault name pages ≡ some (index, de)
      → FoundAt name pages 0 index de
  unfolding xcpfs_find_entry
  find_entry_place pages index de e = find_from-some pages 0 index de e

  -- A lookup finds the number that the map has for the name, and 0 where it has none.
  pub xcpfs_inode_by_name_lem :
      (pages : List Dentry)
      → xcpfs_inode_by_name fault name pages
        ≡ (elim (ino_of name pages) [ none ↦ 0 | some ino ↦ ino ])
  unfolding xcpfs_inode_by_name xcpfs_find_entry
  xcpfs_inode_by_name_lem pages = ground (arith, find_from_ino pages 0)

-- The entries in use.
abbrev pub AllFreePages : List Dentry → Type 0
AllFreePages [] = Unit {0}
AllFreePages (de ∷ rest) = (de.ino ≡ 0) × AllFreePages rest

module _ (fault : ℕ → Ret) (reads : (i : ℕ) → fault i ≡ none) where
  all_free_lem :
      (pages : List Dentry) (i : ℕ)
      → (all_free fault i pages ≡ true → AllFreePages pages)
        × (AllFreePages pages → all_free fault i pages ≡ true)
  unfolding all_free
  all_free_lem [] i = (λ e. tt, λ h. refl)
  all_free_lem (de ∷ rest) i = (
    λ e. ground (arith, e, reads i, (all_free_lem rest (i + 1)).0),
    λ h. ground (arith, h, reads i, (all_free_lem rest (i + 1)).1 h.1),
  )

  -- A directory is taken for empty just if no entry behind the first two is in use.
  pub xcpfs_empty_dir_lem :
      (pages : List Dentry)
      → (xcpfs_empty_dir fault pages ≡ true → AllFreePages (behind_two pages))
        × (AllFreePages (behind_two pages) → xcpfs_empty_dir fault pages ≡ true)
  unfolding xcpfs_empty_dir
  xcpfs_empty_dir_lem [] = (λ e. tt, λ h. refl)
  xcpfs_empty_dir_lem (a ∷ []) = (λ e. tt, λ h. refl)
  xcpfs_empty_dir_lem (a ∷ b ∷ []) = (λ e. tt, λ h. refl)
  xcpfs_empty_dir_lem (a ∷ b ∷ c ∷ rest) = (
    λ e. ground (arith, e, (all_free_lem (c ∷ rest) 2).0),
    λ h. ground (arith, (all_free_lem (c ∷ rest) 2).1 h),
  )
