-- ===== src/Dir/Entries/Update/Pages.antt =====
-- What a change of one page of a directory does to the map and to the invariant.
use xcpfs.Base.{
  ℕ, zero, suc, ◌+◌, ◌<◌, ◌≡◌, refl, true, false, List, [], ◌∷◌, ◌++◌, none, some, length,
  get_elem?, set, arith, if◌then◌else◌,
}
use xcpfs.Dir.Types.{Name, Dentry}
use xcpfs.Dir.Entries.Lookup.{names, ino_of, copies, FreeBlank}

-- An entry put in the place of a free one.
module _ (name : Name) (de : Dentry) where
  pub ino_of-set :
      (pages : List Dentry) (k : ℕ) (old : Dentry)
      → get_elem? pages k ≡ some old
      → old.ino ≡ 0
      → (names name de ≡ true → ino_of name pages ≡ none)
      → ino_of name (set pages k de) ≡ (if names name de then some de.ino else ino_of name pages)
  unfolding ino_of
  ino_of-set [] k old e free new = cc
  ino_of-set (x ∷ rest) zero old e free new = ground (arith, e, free, new)
  ino_of-set (x ∷ rest) (suc k) old e free new =
      ground (arith, e, new, ino_of-set rest k old e free)

  pub ino_of-append :
      (pages : List Dentry)
      → (names name de ≡ true → ino_of name pages ≡ none)
      → ino_of name (pages ++ (de ∷ []))
        ≡ (if names name de then some de.ino else ino_of name pages)
  unfolding ino_of
  ino_of-append [] new = ground arith
  ino_of-append (x ∷ rest) new = ground (arith, new, ino_of-append rest)

  -- An entry without the name put in the place of another.
  pub ino_of-clear :
      (pages : List Dentry) (k : ℕ) (old : Dentry)
      → get_elem? pages k ≡ some old
      → names name old ≡ false
      → names name de ≡ false
      → ino_of name (set pages k de) ≡ ino_of name pages
  unfolding ino_of
  ino_of-clear [] k old e other new = refl
  ino_of-clear (x ∷ rest) zero old e other new = ground (arith, e, other, new)
  ino_of-clear (x ∷ rest) (suc k) old e other new =
      ground (arith, ino_of-clear rest k old e other new)

  pub copies-set :
      (pages : List Dentry) (k : ℕ) (old : Dentry)
      → get_elem? pages k ≡ some old
      → copies name (set pages k de) + (if names name old then 1 else 0)
        ≡ copies name pages + (if names name de then 1 else 0)
  unfolding copies
  copies-set [] k old e = cc
  copies-set (x ∷ rest) zero old e = ground (arith, e)
  copies-set (x ∷ rest) (suc k) old e = ground (arith, copies-set rest k old e)

  pub copies-append :
      (pages : List Dentry)
      → copies name (pages ++ (de ∷ [])) ≡ copies name pages + (if names name de then 1 else 0)
  unfolding copies
  copies-append [] = ground arith
  copies-append (x ∷ rest) = ground (arith, copies-append rest)

pub FreeBlank-set :
    (pages : List Dentry) (k : ℕ) (de : Dentry)
    → FreeBlank pages
    → (de.ino ≡ 0 → de.namelen ≡ 0)
    → FreeBlank (set pages k de)
FreeBlank-set [] k de h b = tt
FreeBlank-set (x ∷ rest) zero de h b = (b, h.1)
FreeBlank-set (x ∷ rest) (suc k) de h b = (h.0, FreeBlank-set rest k de h.1 b)

pub FreeBlank-append :
    (pages : List Dentry) (de : Dentry)
    → FreeBlank pages
    → (de.ino ≡ 0 → de.namelen ≡ 0)
    → FreeBlank (pages ++ (de ∷ []))
FreeBlank-append [] de h b = (b, tt)
FreeBlank-append (x ∷ rest) de h b = (h.0, FreeBlank-append rest de h.1 b)

pub get_elem?-lt :
    (pages : List Dentry) (k : ℕ) (old : Dentry) → get_elem? pages k ≡ some old → k < length pages
get_elem?-lt [] k old e = cc
get_elem?-lt (x ∷ rest) zero old e = omega arith
get_elem?-lt (x ∷ rest) (suc k) old e = omega (arith, get_elem?-lt rest k old e)
