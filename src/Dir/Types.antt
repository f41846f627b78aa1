-- ===== src/Dir/Types.antt =====
-- The data of dir.c. A name is the bytes in front of its NUL. With the NUL a name of at most 255 bytes
-- fits in `name` of an entry; what `strcpy` makes of a longer one is written out in `stored_name`.
use xcpfs.Base.{
  ℕ, ◌/◌, ◌%◌, ◌<◌, ◌≡◌, refl, Bool, true, false, ◌&&◌, List, [], ◌∷◌, ◌++◌, length, take, ltb,
  arith, ◌==◌, ==_refl, if◌then◌else◌,
}

abbrev pub Name : Type 0
Name = List ℕ

-- `strcmp(a, b) == 0`
unfoldable pub same_name : Name → Name → Bool
same_name [] [] = true
same_name [] (b ∷ ys) = false
same_name (a ∷ xs) [] = false
same_name (a ∷ xs) (b ∷ ys) = let rest = same_name xs ys in (a == b) && rest

-- The bytes of a 32-bit number, the lowest first.
abbrev pub le32_bytes : ℕ → List ℕ
le32_bytes n = n % 256 ∷ n / 256 % 256 ∷ n / 65536 % 256 ∷ n / 16777216 % 256 ∷ []

-- the bytes in front of the first NUL
unfoldable pub until_nul : List ℕ → Name
until_nul [] = []
until_nul (b ∷ rest) = let later = until_nul rest in if b == 0 then [] else b ∷ later

-- XCPFS_MAX_FNAME_LEN
abbrev pub max_fname_len : ℕ
max_fname_len = 256

-- The name of an entry after `strcpy(de->name,name)` and the two numbers set behind it. A name that
-- does not fit with its NUL runs into the fields behind it, which are then set: what is read as a name
-- goes on with the bytes of the inode number and of the length. (`xcpfs_lookup` lets names of up to 256
-- bytes through.)
unfoldable pub stored_name : ℕ → Name → Name
stored_name ino name =
    if ltb (length name) max_fname_len
    then name
    else take max_fname_len name ++ until_nul (le32_bytes ino ++ le32_bytes (length name))

-- `struct xcpfs_dentry`; an entry that is free has the inode number 0.
pub record Dentry : Type 0 where
  pub name : Name
  pub ino : ℕ
  pub namelen : ℕ

-- The comparison decides equality.
pub same_name_refl : (a : Name) → same_name a a ≡ true
unfolding same_name
same_name_refl [] = refl
same_name_refl (a ∷ xs) = ground (arith, ==_refl a, same_name_refl xs)

pub same_name-≡ : (a b : Name) → same_name a b ≡ true → a ≡ b
unfolding same_name
same_name-≡ [] [] h = refl
same_name-≡ [] (b ∷ ys) h = cc
same_name-≡ (a ∷ xs) [] h = cc
same_name-≡ (a ∷ xs) (b ∷ ys) h = ground (arith, same_name-≡ xs ys)

-- A name that fits is stored as it is.
pub stored_name-fits :
    (ino : ℕ) (name : Name) → length name < max_fname_len → stored_name ino name ≡ name
unfolding stored_name
stored_name-fits ino name h = ground (arith, h)
