-- ===== src/Node/File/Same.antt =====
-- A file's blocks depend on the pointers and addresses in the nodes alone.
use xcpfs.Base.{
  ℕ, ◌≡◌, refl, ◌∙◌, ap, Bool, true, false, List, [], ◌∷◌, Option, none, some, ◌==◌, if◌then◌else◌,
}
use xcpfs.Node.{NodePage}
use xcpfs.Node.Dnode.{nid_at, addr_at}
use xcpfs.Node.Dnode.Walk.{Place, walk}
use xcpfs.Node.File.{place_of, addr_of, file_addr}
use xcpfs.Node.File.Paths.{full}

pub record SamePointers (view view' : ℕ → NodePage) : Type 0 where
  pub nids : (x : ℕ) (top : Bool) (o : ℕ) → nid_at top (view' x) o ≡ nid_at top (view x) o
  pub addrs : (x : ℕ) (top : Bool) (o : ℕ) → addr_at top (view' x) o ≡ addr_at top (view x) o

module _ (view view' : ℕ → NodePage) (same : SamePointers view view') where
  walk_same :
      (top : Bool) (offs : List ℕ) (nid : ℕ) → walk view' top offs nid ≡ walk view top offs nid
  unfolding walk
  walk_same top [] nid = refl
  walk_same top (o ∷ []) nid = refl
  walk_same top (o ∷ p ∷ rest) nid = rw (same.nids nid top o) (
      ap (λ w. if nid_at top (view nid) o == 0 then none else w)
        (walk_same false (p ∷ rest) (nid_at top (view nid) o)))

  addr_same : (place : Option Place) → addr_of view' place ≡ addr_of view place
  addr_same none = refl
  addr_same (some place) = same.addrs place.node place.top place.slot

  pub file_addr_same : (ino b : ℕ) → file_addr view' ino b ≡ file_addr view ino b
  file_addr_same ino b =
      ap (addr_of view') (walk_same true (full b) ino) ∙ addr_same (place_of view ino b)
