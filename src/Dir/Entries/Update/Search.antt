-- ===== src/Dir/Entries/Update/Search.antt =====
-- The page that the loop of `xcpfs_add_link` comes to.
use xcpfs.Base.{
  ℕ, suc, ◌+◌, ◌<◌, ◌≡◌, ◌≢◌, refl, true, false, ◌&&◌, List, [], ◌∷◌, none, some, length, get_elem?,
  arith, ◌==◌, if◌then◌else◌, ◌⊎◌, inl, inr, Bool-cases,
}
use xcpfs.Errno.{Ret, eexist}
use xcpfs.Dir.Types.{Name, Dentry}
use xcpfs.Dir.Entries.{is_match, Scan, target, stopped, scan}
use xcpfs.Dir.Entries.Lookup.{ino_of, FreeBlank}

-- What `scan` comes to from page `i` on: the name is there, or it is not and the page is the one
-- chosen before or, where none was, a free one.
unfoldable pub Scanned : Name → ℕ → ℕ → List Dentry → ℕ → Scan → Type 0
Scanned name npages i rest tar (stopped err) = (err ≡ eexist) × (ino_of name rest ≢ none)
Scanned name npages i rest tar (target t) =
    (ino_of name rest ≡ none)
    × ((t ≡ tar)
        ⊎ ((tar ≡ npages)
            × (k : ℕ) × (old : Dentry) × (t ≡ i + k)
            × (get_elem? rest k ≡ some old)
            × (old.ino ≡ 0)))

length-≢0 : (name : Name) → name ≢ [] → length name ≢ 0
length-≢0 [] h = absurd (h refl)
length-≢0 (c ∷ name) h = omega arith

module _ (fault : ℕ → Ret) (reads : (i : ℕ) → fault i ≡ none) (name : Name)
    (some_name : name ≢ []) where
  scan_hit :
      (npages i : ℕ) (de : Dentry) (rest : List Dentry) (tar : ℕ)
      → is_match name de ≡ true
      → scan fault name npages i (de ∷ rest) tar ≡ stopped eexist
  unfolding scan
  scan_hit npages i de rest tar m = ground (arith, m, reads i)

  scan_miss :
      (npages i : ℕ) (de : Dentry) (rest : List Dentry) (tar : ℕ)
      → is_match name de ≡ false
      → scan fault name npages i (de ∷ rest) tar
        ≡ scan fault name npages (i + 1) rest (if (de.ino == 0) && (tar == npages) then i else tar)
  unfolding scan
  scan_miss npages i de rest tar m = ground (arith, m, reads i)

  scan_end : (npages i tar : ℕ) → Scanned name npages i [] tar (scan fault name npages i [] tar)
  unfolding scan Scanned ino_of
  scan_end npages i tar = (refl, inl refl)

  step_back :
      (npages i : ℕ) (de : Dentry) (rest : List Dentry) (tar : ℕ) (found : Scan)
      → is_match name de ≡ false
      → i < npages
      → Scanned name npages (i + 1) rest (if (de.ino == 0) && (tar == npages) then i else tar) found
      → Scanned name npages i (de ∷ rest) tar found
  unfolding Scanned ino_of
  step_back npages i de rest tar (stopped err) m b (e, there) = (e, ground (arith, m, there))
  step_back npages i de rest tar (target t) m b (gone, inl same) = (
    ground (arith, m, gone),
    elim (Bool-cases ((de.ino == 0) && (tar == npages))) [
      | inl f ↦ inr (ground arith, 0, de, ground (arith, f, same), refl, ground arith)
      | inr f ↦ inl (ground (arith, f, same))
    ],
  )
  step_back npages i de rest tar (target t) m b (gone, inr (none_yet, k, old, at, place, free)) =
      (ground (arith, m, gone), inr (ground arith, suc k, old, omega (arith, at), place, free))

  pub scan-Scanned :
      (npages i : ℕ) (rest : List Dentry) (tar : ℕ)
      → FreeBlank rest
      → i + length rest ≡ npages
      → Scanned name npages i rest tar (scan fault name npages i rest tar)
  unfolding Scanned ino_of
  scan-Scanned npages i [] tar h e = scan_end npages i tar
  scan-Scanned npages i (de ∷ rest) tar h e =
      let free = (de.ino == 0) && (tar == npages) in
      let later =
        scan-Scanned npages (i + 1) rest (if free then i else tar) h.1 (omega (arith, e)) in
      elim (Bool-cases (is_match name de)) [
        | inl m ↦
            rw (scan_hit npages i de rest tar m)
              (refl, ground (arith, h.0, m, length-≢0 name some_name))
        | inr m ↦
            rw (scan_miss npages i de rest tar m)
              (step_back npages i de rest tar _ m (omega (arith, e)) later)
      ]
