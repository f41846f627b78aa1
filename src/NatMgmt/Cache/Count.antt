-- ===== src/NatMgmt/Cache/Count.antt =====
-- No node id is cached twice, the counter counts the entries, and a free entry has no address.
use xcpfs.Base.{
  ℕ, suc, ◌+◌, ◌≤◌, ◌≡◌, refl, inl, inr, Bool, List, [], ◌∷◌, none, some, arith, length, ◌==◌,
  if◌then◌else◌, Option-cases,
}
use xcpfs.NatMgmt.Types.{NatEntry, NatInfo}
use xcpfs.NatMgmt.Cache.{
  find, delete, assign, lookup_cached, add_entry, fresh_entry, insert_nat, remove_nat, update_nat,
  modify,
}
use xcpfs.NatMgmt.Cache.View.{find-nid}

unfoldable pub count : ℕ → List NatEntry → ℕ
count nid [] = 0
count nid (ne ∷ rest) = (if ne.nid == nid then 1 else 0) + count nid rest

-- every entry has the block address 0
abbrev pub AllFree : List NatEntry → Type 0
AllFree [] = Unit {0}
AllFree (ne ∷ rest) = (ne.block_addr ≡ 0) × AllFree rest

pub record NatInv (nm : NatInfo) : Type 0 where
  pub unique : (nid : ℕ) → count nid nm.nat_list + count nid nm.free_nat ≤ 1
  pub counted : nm.cached_nat_count ≡ length nm.nat_list + length nm.free_nat
  pub free : AllFree nm.free_nat

pub count_of_none : (nid : ℕ) (list : List NatEntry) → find nid list ≡ none → count nid list ≡ 0
unfolding find count
count_of_none nid [] e = refl
count_of_none nid (x ∷ rest) e = ground (arith, count_of_none nid rest)

pub count_of_some :
    (nid : ℕ) (list : List NatEntry) (ne : NatEntry) → find nid list ≡ some ne → 1 ≤ count nid list
unfolding find count
count_of_some nid [] ne e = cc
count_of_some nid (x ∷ rest) ne e = ground (arith, count_of_some nid rest ne)

pub find_of_count : (nid : ℕ) (list : List NatEntry) → count nid list ≡ 0 → find nid list ≡ none
find_of_count nid list h = elim (Option-cases (find nid list)) [
  | inl f ↦ f
  | inr (ne, f) ↦ ground (arith, h, count_of_some nid list ne f)
]

pub count-delete :
    (nid other : ℕ) (list : List NatEntry) (ne : NatEntry)
    → find nid list ≡ some ne
    → count other (delete nid list) + (if nid == other then 1 else 0) ≡ count other list
unfolding find delete count
count-delete nid other [] ne e = cc
count-delete nid other (x ∷ rest) ne e = ground (arith, count-delete nid other rest ne)

pub length-delete :
    (nid : ℕ) (list : List NatEntry) (ne : NatEntry)
    → find nid list ≡ some ne
    → suc (length (delete nid list)) ≡ length list
unfolding find delete
length-delete nid [] ne e = cc
length-delete nid (x ∷ rest) ne e = ground (arith, length-delete nid rest ne)

pub AllFree-delete : (nid : ℕ) (list : List NatEntry) → AllFree list → AllFree (delete nid list)
unfolding delete
AllFree-delete nid [] h = tt
AllFree-delete nid (x ∷ rest) h = ground (arith, AllFree-delete nid rest h.1)

module _ (f : NatEntry → NatEntry) (same : (ne : NatEntry) → (f ne).nid ≡ ne.nid) (nid : ℕ) where
  count-assign :
      (other : ℕ) (list : List NatEntry) → count other (assign nid f list) ≡ count other list
  unfolding assign count
  count-assign other [] = refl
  count-assign other (x ∷ rest) = ground (arith, same x, count-assign other rest)

  length-assign : (list : List NatEntry) → length (assign nid f list) ≡ length list
  unfolding assign
  length-assign [] = refl
  length-assign (x ∷ rest) = ground (arith, length-assign rest)

  AllFree-assign :
      ((ne : NatEntry) → ne.block_addr ≡ 0 → (f ne).block_addr ≡ 0)
      → (list : List NatEntry) → AllFree list
      → AllFree (assign nid f list)
  unfolding assign
  AllFree-assign keep [] h = tt
  AllFree-assign keep (x ∷ rest) h = ground (arith, keep x, AllFree-assign keep rest h.1)

added :
    (nm : NatInfo) (nid ino blkaddr : ℕ) (pinned : Bool)
    → lookup_cached nm nid ≡ none
    → NatInv nm
    → NatInv (add_entry nm (fresh_entry nid ino blkaddr pinned))
unfolding lookup_cached count
added nm nid ino blkaddr pinned e v = record {
  unique = λ o.
      ground (arith, e, v.unique o, count_of_none nid nm.nat_list, count_of_none nid nm.free_nat);
  counted = ground (arith, v.counted);
  free = ground (arith, v.free);
}

-- Every operation on the cache keeps the invariant.
pub insert_nat-NatInv :
    (nm : NatInfo) (nid ino blkaddr : ℕ) (pinned dirty : Bool)
    → NatInv nm
    → NatInv (insert_nat nm nid ino blkaddr pinned dirty).1
unfolding insert_nat lookup_cached
insert_nat-NatInv nm nid ino blkaddr pinned dirty v = elim (Option-cases (lookup_cached nm nid)) [
  | inl e ↦ rw (e, insert_nat) (added nm nid ino blkaddr pinned e v)
  | inr (ne, e) ↦ rw (e, insert_nat) v
]

pub remove_nat-NatInv : (nm : NatInfo) (nid : ℕ) → NatInv nm → NatInv (remove_nat nm nid).1
unfolding remove_nat
remove_nat-NatInv nm nid v = elim (Option-cases (find nid nm.nat_list)) [
  | inl e ↦ rw (e, remove_nat) v
  | inr (ne, e) ↦
      rw (e, remove_nat)
        (record {
          unique = λ o. omega (arith, v.unique o, count-delete nid o nm.nat_list ne e);
          counted = omega (arith, v.counted, length-delete nid nm.nat_list ne e);
          free = v.free;
        })
]

pub update_nat-NatInv :
    (nm : NatInfo) (nid blkaddr : ℕ) (pinned : Bool)
    → NatInv nm
    → NatInv (update_nat nm nid blkaddr pinned).1
unfolding update_nat count
update_nat-NatInv nm nid blkaddr pinned v = elim (Option-cases (find nid nm.nat_list)) [
  | inl e ↦ rw (e, update_nat) v
  | inr (ne, e) ↦ record {
    unique = λ o.
        ground
          (arith, v.unique o, count-delete nid o nm.nat_list ne e, find-nid nid nm.nat_list ne e);
    counted = ground (arith, v.counted, length-delete nid nm.nat_list ne e);
    free = ground (arith, v.free);
  }
]

pub modify-NatInv :
    (nm : NatInfo) (nid : ℕ) (f : NatEntry → NatEntry)
    → ((ne : NatEntry) → (f ne).nid ≡ ne.nid)
    → ((ne : NatEntry) → ne.block_addr ≡ 0 → (f ne).block_addr ≡ 0)
    → NatInv nm
    → NatInv (modify nm nid f)
unfolding modify
modify-NatInv nm nid f same keep v = record {
  unique = λ o. ground (
    arith,
    v.unique o,
    count-assign f same nid o nm.nat_list,
    count-assign f same nid o nm.free_nat,
  );
  counted = ground (
    arith,
    v.counted,
    length-assign f same nid nm.nat_list,
    length-assign f same nid nm.free_nat,
  );
  free = ground (arith, v.free, AllFree-assign f same nid keep nm.free_nat v.free);
}
