-- ===== src/Dir/Entries/Update.antt =====
-- The map after an entry has been added or deleted.
mod Pages
mod Search
use xcpfs.Base.{
  ℕ, zero, suc, ◌+◌, ◌<◌, ◌≡◌, ◌≢◌, refl, sym, ◌∙◌, true, false, ◌&&◌, List, [], ◌∷◌, ◌++◌, none,
  some, length, get_elem?, set, arith, ◌==◌, ==_refl, ==_ne, if◌then◌else◌, ◌⊎◌, inl, inr,
  Bool-cases,
}
use mathlib.Core.Bool.{false≢true}
use xcpfs.Errno.{Ret, Errno, eexist}
use xcpfs.Dir.Types.{
  Name, same_name, same_name_refl, same_name-≡, max_fname_len, stored_name-fits, Dentry,
}
use xcpfs.Dir.Entries.{
  is_match, Scan, target, stopped, scan, write_page, xcpfs_add_link, free_dentry,
  xcpfs_delete_entry,
}
use xcpfs.Dir.Entries.Lookup.{
  names, ino_of, copies, FreeBlank, DirInv, ino_of-none, none_of_copies, FoundAt,
}
use xcpfs.Dir.Entries.Update.Pages.{
  ino_of-set, ino_of-append, ino_of-clear, copies-set, copies-append, FreeBlank-set,
  FreeBlank-append, get_elem?-lt,
}
use xcpfs.Dir.Entries.Update.Search.{Scanned, scan-Scanned}

abbrev pub named : Name → ℕ → Dentry
named name ino = record { name = name; ino = ino; namelen = length name }

names-named :
    (other name : Name) (ino : ℕ) → ino ≢ 0 → names other (named name ino) ≡ same_name name other
names-named other name ino h = elim (Bool-cases (same_name name other)) [
  | inl e ↦ rw (e, ==_ne ino 0 h, sym (same_name-≡ name other e), ==_refl (length name)) refl
  | inr e ↦ ground (arith, e)
]

-- The invariant and the map after an entry for a new name has been written to page `tar`.
abbrev pub Added : Name → ℕ → List Dentry → List Dentry → Type 0
Added name ino pages after =
    ((other : Name)
      → ino_of other after ≡ (if same_name name other then some ino else ino_of other pages))
    × DirInv after

module _ (name : Name) (ino : ℕ) (pages : List Dentry) (v : DirInv pages) (valid : ino ≢ 0)
    (new : ino_of name pages ≡ none) where
  abbrev de : Dentry
  de = named name ino

  absent : (other : Name) → names other de ≡ true → ino_of other pages ≡ none
  absent other h =
      rw (sym (same_name-≡ name other (sym (names-named other name ino valid) ∙ h))) new

  appended : Added name ino pages (pages ++ (de ∷ []))
  appended = (
    λ other.
        rw (ino_of-append other de pages (absent other), names-named other name ino valid) refl,
    record {
      unique = λ other. ground (
        arith,
        copies-append other de pages,
        v.unique other,
        absent other,
        ino_of-none other pages,
      );
      blank = FreeBlank-append pages de v.blank (λ z. absurd (valid z));
    },
  )

  replaced :
      (k : ℕ) (old : Dentry)
      → get_elem? pages k ≡ some old
      → old.ino ≡ 0
      → Added name ino pages (set pages k de)
  replaced k old place free = (
    λ other.
        rw
          (
            ino_of-set other de pages k old place free (absent other),
            names-named other name ino valid,
          )
          refl,
    record {
      unique = λ other. ground (
        arith,
        copies-set other de pages k old place,
        v.unique other,
        absent other,
        ino_of-none other pages,
      );
      blank = FreeBlank-set pages k de v.blank (λ z. absurd (valid z));
    },
  )

module _ (fault write_fault : ℕ → Ret) (reads : (i : ℕ) → fault i ≡ none)
    (writes : (i : ℕ) → write_fault i ≡ none) (pages : List Dentry) (v : DirInv pages) where
  module _ (name : Name) (ino : ℕ) (some_name : name ≢ []) (fits : length name < max_fname_len)
      (valid : ino ≢ 0) where
    add_stop :
        (err : Errno)
        → scan fault name (length pages) 0 pages (length pages) ≡ stopped err
        → xcpfs_add_link fault write_fault name ino pages ≡ (some err, pages)
    unfolding xcpfs_add_link
    add_stop err e = rw (e, xcpfs_add_link) refl

    add_at :
        (t : ℕ)
        → scan fault name (length pages) 0 pages (length pages) ≡ target t
        → xcpfs_add_link fault write_fault name ino pages
          ≡ (none, write_page pages t (named name ino))
    unfolding xcpfs_add_link
    add_at t e = rw (e, xcpfs_add_link, writes t, stored_name-fits ino name fits) refl

    written :
        (found : Scan)
        → Scanned name (length pages) 0 pages (length pages) found
        → scan fault name (length pages) 0 pages (length pages) ≡ found
        → (ino_of name pages ≢ none
            → xcpfs_add_link fault write_fault name ino pages ≡ (some eexist, pages))
          × (ino_of name pages ≡ none
              → ((xcpfs_add_link fault write_fault name ino pages).0 ≡ none)
                × Added name ino pages (xcpfs_add_link fault write_fault name ino pages).1)
    unfolding Scanned write_page
    written (stopped err) (is, there) e =
        (λ h. rw (add_stop err e, is) refl, λ gone. absurd (there gone))
    written (target t) (gone, inl same) e = (
      λ h. absurd (h gone),
      λ h. rw (add_at t e, same, ==_refl (length pages)) (refl, appended name ino pages v valid h),
    )
    written (target t) (gone, inr (_, k, old, at, place, free)) e =
        let inside = get_elem?-lt pages k old place in
        let other_page : k ≢ length pages = omega (arith, inside) in
        let here : t ≡ k = omega (arith, at) in
        (
          λ h. absurd (h gone),
          λ h.
              rw (add_at t e, here, ==_ne k (length pages) other_page)
                (refl, replaced name ino pages v valid h k old place free),
        )

    -- For a name of 1 to 255 bytes and a number that is not 0, in a directory in which no name is used
    -- twice and free entries have no name, and where no page fails to be read or written: Where the name is in use already, nothing changes and the error is
    -- EEXIST. Where it is not, it has the new number afterwards, every other name is as it was, and
    -- still no name is used twice.
    pub xcpfs_add_link_lem :
        (ino_of name pages ≢ none
          → xcpfs_add_link fault write_fault name ino pages ≡ (some eexist, pages))
        × (ino_of name pages ≡ none
            → ((xcpfs_add_link fault write_fault name ino pages).0 ≡ none)
              × Added name ino pages (xcpfs_add_link fault write_fault name ino pages).1)
    xcpfs_add_link_lem =
        written _
          (scan-Scanned fault reads name some_name (length pages) 0 pages (length pages) v.blank
            (omega arith))
          refl

  -- What the directory's part of an unlink leaves.
  module _ (name : Name) (i : ℕ) (de : Dentry) (found : FoundAt name pages 0 i de) where
    not_named : (other : Name) → names other free_dentry ≡ false
    not_named other = refl

    removed :
        (other : Name)
        → copies other (set pages found.k free_dentry) + (if names other de then 1 else 0)
          ≡ copies other pages
    removed other = ground (arith, copies-set other free_dentry pages found.k de found.spot)

    has_name : (other : Name) → names other de ≡ same_name name other
    has_name other = elim (Bool-cases (same_name name other)) [
      | inl e ↦ rw (e, sym (same_name-≡ name other e)) found.named
      | inr e ↦ elim (Bool-cases (names other de)) [
        | inr n ↦ n ∙ sym e
        | inl n ↦
            let is_other : de.name ≡ other = same_name-≡ de.name other (ground (arith, n)) in
            let is_name : de.name ≡ name = same_name-≡ de.name name (ground (arith, found.named)) in
            absurd (false≢true (sym e ∙ rw (sym is_name, is_other) (same_name_refl other)))
      ]
    ]

    deleted :
        ((other : Name)
          → ino_of other (set pages found.k free_dentry)
            ≡ (if same_name name other then none else ino_of other pages))
        × DirInv (set pages found.k free_dentry)
    deleted = (
      λ other. elim (Bool-cases (same_name name other)) [
        | inl e ↦ rw e (
            none_of_copies other (set pages found.k free_dentry)
              (ground (arith, removed other, has_name other, v.unique other)))
        | inr e ↦
            rw e
              (ino_of-clear other free_dentry pages found.k de found.spot (has_name other ∙ e) refl)
      ],
      record {
        unique = λ other. ground (arith, removed other, v.unique other);
        blank = FreeBlank-set pages found.k free_dentry v.blank (λ z. refl);
      },
    )

    -- After `xcpfs_delete_entry` at the place where `xcpfs_find_entry` found the name, no entry has
    -- the name, every other name is as it was, and still no name is used twice.
    pub xcpfs_delete_entry_lem :
        ((xcpfs_delete_entry write_fault i pages).0 ≡ none)
        × ((other : Name)
            → ino_of other (xcpfs_delete_entry write_fault i pages).1
              ≡ (if same_name name other then none else ino_of other pages))
        × DirInv (xcpfs_delete_entry write_fault i pages).1
    unfolding xcpfs_delete_entry
    xcpfs_delete_entry_lem =
        let here : i ≡ found.k = omega (arith, found.behind) in
        rw (writes i, here) (refl, deleted.0, deleted.1)
