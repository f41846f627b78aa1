-- ===== src/Node/File.antt =====
-- A file as a map from its blocks to addresses, read off the tree of its nodes.
pub mod Paths
pub mod Same
use xcpfs.Base.{
  ℕ, ◌<◌, ◌≡◌, ◌≢◌, refl, sym, ◌∙◌, ap, Bool, true, false, ◌&&◌, List, [], ◌∷◌, ◌++◌, Option, none,
  some, arith, ◌==◌, ==_iff, ==_refl, if◌then◌else◌, inl, inr, Bool-cases, Option-cases,
}
use mathlib.Core.List.{append_assoc}
use mathlib.Core.Option.{some-injective}
use xcpfs.Base.Table.{update_self, update_ne}
use xcpfs.Format.{def_addrs_per_inode}
use xcpfs.Meta.Path.{BlockPath, in_inode}
use xcpfs.Meta.Path.Layout.{max_blocks, get_path-block_at}
use xcpfs.Node.{NodePage}
use xcpfs.Node.Dnode.{offsets, nid_at, addr_at, set_addr}
use xcpfs.Node.Dnode.Walk.{Place, walk, place_addr}
use xcpfs.Node.File.Paths.{full, full-injective, not_prefix}

abbrev pub place_of : (ℕ → NodePage) → ℕ → ℕ → Option Place
place_of view ino b = walk view true (full b) ino

abbrev pub addr_of : (ℕ → NodePage) → Option Place → ℕ
addr_of view none = 0
addr_of view (some place) = place_addr view place

-- The address of a block, 0 for none.
abbrev pub file_addr : (ℕ → NodePage) → ℕ → ℕ → ℕ
file_addr view ino b = addr_of view (place_of view ino b)

abbrev pub at_path : (ℕ → NodePage) → ℕ → BlockPath → ℕ
at_path view ino path = addr_of view (walk view true (offsets path) ino)

-- The first 900 blocks have their addresses in the inode.
pub in_inode_lem :
    (view : ℕ → NodePage) (ino b : ℕ)
    → b < def_addrs_per_inode
    → file_addr view ino b ≡ (view ino).i.i_addr b
unfolding walk
in_inode_lem view ino b h = ap (at_path view ino) (get_path-block_at (in_inode b) h)

-- Along a path, the label of each node is the path to it.
unfoldable pub Labelled : (ℕ → List ℕ) → (ℕ → NodePage) → Bool → List ℕ → ℕ → Type 0
Labelled label view top [] nid = Unit {0}
Labelled label view top (o ∷ []) nid = Unit {0}
Labelled label view top (o ∷ p ∷ rest) nid =
    let next = nid_at top (view nid) o in
    next ≢ 0 → (label next ≡ label nid ++ (o ∷ [])) × Labelled label view false (p ∷ rest) next

-- The nodes of a file form a tree: no node is reached by two paths.
pub record IsTree (label : ℕ → List ℕ) (view : ℕ → NodePage) (ino : ℕ) : Type 0 where
  pub root : label ino ≡ []
  pub labelled : (b : ℕ) → b < max_blocks → Labelled label view true (full b) ino

-- A place that a path leads to is told apart by the path.
place_label :
    (label : ℕ → List ℕ) (view : ℕ → NodePage) (top : Bool) (offs : List ℕ) (nid : ℕ)
    → Labelled label view top offs nid
    → (place : Place) → walk view top offs nid ≡ some place
    → label place.node ++ (place.slot ∷ []) ≡ label nid ++ offs
unfolding Labelled walk
place_label label view top [] nid h place e = cc
place_label label view top (o ∷ []) nid h place e =
    let same : record { node = nid; top = top; slot = o } ≡ place = some-injective _ place e in
    ap (λ (q : Place). label q.node ++ (q.slot ∷ [])) (sym same)
place_label label view top (o ∷ p ∷ rest) nid h place e =
    elim (Bool-cases (nid_at top (view nid) o == 0)) [
      | inl z ↦ ground (arith, z, e)
      | inr z ↦
          let next = nid_at top (view nid) o in
          let below = h (ground (arith, z)) in
          place_label label view false (p ∷ rest) next below.1 place (rw z at e)
          ∙ ap (λ l. l ++ (p ∷ rest)) below.0
          ∙ append_assoc (label nid) (o ∷ []) (p ∷ rest)
    ]

-- the nodes after the address at a place has been set
abbrev pub with_addr : (ℕ → NodePage) → Place → ℕ → ℕ → NodePage
with_addr view place addr x =
    if place.node == x then set_addr place.top (view x) place.slot addr else view x

nid_at-set_addr :
    (t : Bool) (page : NodePage) (slot addr : ℕ) (top : Bool) (o : ℕ)
    → (t ≡ false → top ≡ false → slot ≢ o)
    → nid_at top (set_addr t page slot addr) o ≡ nid_at top page o
nid_at-set_addr true page slot addr true o n = refl
nid_at-set_addr true page slot addr false o n = refl
nid_at-set_addr false page slot addr true o n = refl
nid_at-set_addr false page slot addr false o n = update_ne page.ptrs slot o addr (n refl refl)

addr_at-set_addr :
    (t : Bool) (page : NodePage) (slot addr : ℕ) (top : Bool) (o : ℕ)
    → slot ≢ o
    → addr_at top (set_addr t page slot addr) o ≡ addr_at top page o
addr_at-set_addr true page slot addr true o n = update_ne page.i.i_addr slot o addr n
addr_at-set_addr true page slot addr false o n = refl
addr_at-set_addr false page slot addr true o n = refl
addr_at-set_addr false page slot addr false o n = update_ne page.ptrs slot o addr n

addr_at_self :
    (t : Bool) (page : NodePage) (slot addr : ℕ) → addr_at t (set_addr t page slot addr) slot ≡ addr
addr_at_self true page slot addr = update_self page.i.i_addr slot addr
addr_at_self false page slot addr = update_self page.ptrs slot addr

-- Setting an address changes a pointer only at that offset of an array of pointers.
pointer_kept :
    (view : ℕ → NodePage) (place : Place) (addr : ℕ) (top : Bool) (nid o : ℕ)
    → (place.top ≡ false → top ≡ false → place.node ≡ nid → place.slot ≢ o)
    → nid_at top (with_addr view place addr nid) o ≡ nid_at top (view nid) o
pointer_kept view place addr top nid o n = elim (Bool-cases (place.node == nid)) [
  | inl e ↦ rw e (
      nid_at-set_addr place.top (view nid) place.slot addr top o
        (λ t t'. n t t' ((==_iff place.node nid).0 e)))
  | inr e ↦ rw e refl
]

addr_kept :
    (view : ℕ → NodePage) (place other : Place) (addr : ℕ)
    → (place.node ≡ other.node → place.slot ≢ other.slot)
    → place_addr (with_addr view place addr) other ≡ place_addr view other
addr_kept view place other addr n = elim (Bool-cases (place.node == other.node)) [
  | inl e ↦ rw e (
      addr_at-set_addr place.top (view other.node) place.slot addr other.top other.slot
        (n ((==_iff place.node other.node).0 e)))
  | inr e ↦ rw e refl
]

addr_set :
    (view : ℕ → NodePage) (place : Place) (addr : ℕ)
    → place_addr (with_addr view place addr) place ≡ addr
addr_set view place addr =
    rw (==_refl place.node) (addr_at_self place.top (view place.node) place.slot addr)

-- A path that the place's path is no start of leads where it did.
walk_kept :
    (label : ℕ → List ℕ) (view : ℕ → NodePage) (place : Place) (addr : ℕ) (top : Bool)
    (offs : List ℕ) (nid : ℕ)
    → Labelled label view top offs nid
    → ((x : ℕ) (rest : List ℕ)
        → label nid ++ offs ≢ (label place.node ++ (place.slot ∷ [])) ++ (x ∷ rest))
    → walk (with_addr view place addr) top offs nid ≡ walk view top offs nid
unfolding walk Labelled
walk_kept label view place addr top [] nid h n = refl
walk_kept label view place addr top (o ∷ []) nid h n = refl
walk_kept label view place addr top (o ∷ p ∷ rest) nid h n =
    let next = nid_at top (view nid) o in
    let same = pointer_kept view place addr top nid o (λ t t' e z.
      n p rest (sym (append_assoc (label nid) (o ∷ []) (p ∷ rest)) ∙ rw (e, z) refl)) in
    elim (Bool-cases (next == 0)) [
      | inl z ↦ rw (same, z) refl
      | inr z ↦
          let below = h (ground (arith, z)) in
          rw (same, z)
            (walk_kept label view place addr false (p ∷ rest) next below.1 (λ x more e. n x more (
              sym (append_assoc (label nid) (o ∷ []) (p ∷ rest))
              ∙ ap (λ l. l ++ (p ∷ rest)) (sym below.0)
              ∙ e)))
    ]

-- In a file whose nodes form a tree, setting the address at a block's place changes the address of
-- that block and of no other.
pub file_addr-with_addr :
    (label : ℕ → List ℕ) (view : ℕ → NodePage) (ino : ℕ)
    → IsTree label view ino
    → (b : ℕ) → b < max_blocks
    → (place : Place) → place_of view ino b ≡ some place
    → (addr other : ℕ) → other < max_blocks
    → file_addr (with_addr view place addr) ino other
      ≡ (if b == other then addr else file_addr view ino other)
file_addr-with_addr label view ino tree b h place found addr other k =
    let at_b : label place.node ++ (place.slot ∷ []) ≡ full b =
      place_label label view true (full b) ino (tree.labelled b h) place found
      ∙ rw tree.root refl in
    let same : place_of (with_addr view place addr) ino other ≡ place_of view ino other =
      walk_kept label view place addr true (full other) ino (tree.labelled other k)
        (λ x rest e. not_prefix b other h k x rest (sym (rw tree.root refl) ∙ e ∙ rw at_b refl)) in
    ap (addr_of (with_addr view place addr)) same ∙ elim (Bool-cases (b == other)) [
      | inl e ↦
          let there : place_of view ino other ≡ some place =
            ap (place_of view ino) (sym ((==_iff b other).0 e)) ∙ found in
          rw (there, e) (addr_set view place addr)
      | inr e ↦ rw e (elim (Option-cases (place_of view ino other)) [
        | inl gone ↦ rw gone refl
        | inr (place', there) ↦ rw there (
            addr_kept view place place' addr (λ n s.
              let at_other : label place'.node ++ (place'.slot ∷ []) ≡ full other =
                place_label label view true (full other) ino (tree.labelled other k) place' there
                ∙ rw tree.root refl in
              ground (arith, e, full-injective b other (sym at_b ∙ rw (n, s) at_other))))
      ])
    ]
