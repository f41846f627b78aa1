-- ===== src/Node/Dnode/Walk.antt =====
-- A reader's `get_dnode_page` against the file's tree of nodes.
use xcpfs.Base.{
  ℕ, ◌≡◌, ◌≢◌, refl, subst, ◌∙◌, ap, Bool, true, false, List, [], ◌∷◌, Option, none, some, arith,
  ◌==◌, if◌then◌else◌, inl, inr, Bool-cases,
}
use xcpfs.Errno.{eio}
use xcpfs.NatMgmt.Cache.Count.{NatInv}
use xcpfs.Meta.Path.{get_path}
use xcpfs.Node.{NodePage, NodeEnv, NodeState}
use xcpfs.Node.View.{node_view, IsKnown, Kept, same_views, Kept-refl, get_node_page_lem}
use xcpfs.Node.Dnode.{offsets, nid_at, addr_at, Dnode, dnode, no_dnode, descend, get_dnode_page}

-- The place of a block's address: the node, whether it is the inode, and the offset.
pub record Place : Type 0 where
  pub node : ℕ
  pub top : Bool
  pub slot : ℕ

-- The tree read off the nodes: the place at the end of a path, if no pointer on it is 0.
unfoldable pub walk : (ℕ → NodePage) → Bool → List ℕ → ℕ → Option Place
walk view top [] nid = none
walk view top (o ∷ []) nid = some (record { node = nid; top = top; slot = o })
walk view top (o ∷ p ∷ rest) nid =
    let next = nid_at top (view nid) o in
    let below = walk view false (p ∷ rest) next in if next == 0 then none else below

abbrev pub place_addr : (ℕ → NodePage) → Place → ℕ
place_addr view place = addr_at place.top (view place.node) place.slot

-- Every node on the path is in the map of addresses.
unfoldable pub Known : NodeEnv → NodeState → Bool → List ℕ → ℕ → Type 0
Known env st top [] nid = Unit {0}
Known env st top (o ∷ []) nid = IsKnown env st nid
Known env st top (o ∷ p ∷ rest) nid =
    let next = nid_at top (node_view env st nid) o in
    IsKnown env st nid × (next ≢ 0 → Known env st false (p ∷ rest) next)

IsKnown-Kept :
    (env : NodeEnv) (st st' : NodeState) (nid : ℕ)
    → Kept env st st'
    → IsKnown env st nid
    → IsKnown env st' nid
IsKnown-Kept env st st' nid k (ne, e) = (ne, k.entries nid ∙ e)

pub Known-Kept :
    (env : NodeEnv) (st st' : NodeState) (top : Bool) (offs : List ℕ) (nid : ℕ)
    → Kept env st st'
    → Known env st top offs nid
    → Known env st' top offs nid
unfolding Known
Known-Kept env st st' top [] nid k h = tt
Known-Kept env st st' top (o ∷ []) nid k h = IsKnown-Kept env st st' nid k h
Known-Kept env st st' top (o ∷ p ∷ rest) nid k h = (
  IsKnown-Kept env st st' nid k h.0,
  rw (k.views nid) (λ n. Known-Kept env st st' false (p ∷ rest) _ k (h.1 n)),
)

pub Kept-trans : (env : NodeEnv) (a b c : NodeState) → Kept env a b → Kept env b c → Kept env a c
Kept-trans env a b c h k = record {
  views = λ nid. k.views nid ∙ h.views nid;
  entries = λ nid. k.entries nid ∙ h.entries nid;
  inv = k.inv;
  listed = λ nid e. h.listed nid (k.listed nid e);
  cached = λ nid n. k.cached nid (h.cached nid n);
  zm = k.zm ∙ h.zm;
  cpc = k.cpc ∙ h.cpc;
  raw_sb = k.raw_sb ∙ h.raw_sb;
}

-- what a reader is answered for a place
abbrev pub answer : (ℕ → NodePage) → Option Place → NodeState → Dnode
answer view none st = no_dnode eio st
answer view (some place) st = dnode place.node (place_addr view place == 0) st

-- the page at the place is up to date, and holds what the node holds
abbrev pub Held : (ℕ → NodePage) → Option Place → NodeState → Type 0
Held view none st = Unit {0}
Held view (some place) st = st.pages place.node ≡ some (view place.node)

descend_lem :
    (env : NodeEnv) (ino : ℕ) (top : Bool) (offs : List ℕ) (nid : ℕ) (st : NodeState)
    → NatInv st.io.nm
    → Known env st top offs nid
    → (st' : NodeState) × Kept env st st'
      × (descend env false ino top offs nid st
          ≡ answer (node_view env st) (walk (node_view env st) top offs nid) st')
      × Held (node_view env st) (walk (node_view env st) top offs nid) st'
unfolding descend walk Known
descend_lem env ino top [] nid st v h = (st, Kept-refl env st v, refl, tt)
descend_lem env ino top (o ∷ []) nid st v h =
    let (got, e, k, there) = get_node_page_lem env nid st v h in
    (got, k, rw (e, descend) refl, there)
descend_lem env ino top (o ∷ p ∷ rest) nid st v h =
    let (got, e, k, there) = get_node_page_lem env nid st v h.0 in
    let view = node_view env st in
    let next = nid_at top (view nid) o in
    elim (Bool-cases (next == 0)) [
      | inl z ↦ (got, k, rw (e, descend, z) refl, rw z tt)
      | inr z ↦
          let (st', k', e', held) =
            descend_lem env ino false (p ∷ rest) next got k.inv
              (Known-Kept env st got false (p ∷ rest) next k (h.1 (ground (arith, z)))) in
          (
            st',
            Kept-trans env st got st' k k',
            rw (e, descend, z)
                (e'
                  ∙ ap (λ w. answer w (walk w false (p ∷ rest) next) st')
                      (same_views env st got k)),
            rw z (
                subst (λ w. Held w (walk w false (p ∷ rest) next) st') (same_views env st got k)
                  held),
          )
    ]

-- A reader gets the node at the end of the block's path, with `need` set where the block has no
-- address, or EIO where a pointer on the path is 0. The page that it gets holds what the node holds.
-- What each node holds, the map of addresses and the zones stay as they are.
pub get_dnode_page_lem :
    (env : NodeEnv) (ino iblock : ℕ) (st : NodeState)
    → NatInv st.io.nm
    → Known env st true (offsets (get_path iblock)) ino
    → (st' : NodeState) × Kept env st st'
      × (get_dnode_page env false ino iblock st
          ≡ answer
              (node_view env st)
              (walk (node_view env st) true (offsets (get_path iblock)) ino)
              st')
      × Held (node_view env st) (walk (node_view env st) true (offsets (get_path iblock)) ino) st'
unfolding get_dnode_page
get_dnode_page_lem env ino iblock st v h =
    descend_lem env ino true (offsets (get_path iblock)) ino st v h
