-- ===== src/Node/Dnode/Used.antt =====
-- Nodes in use, and what a change of the tree keeps.
use xcpfs.Base.{ℕ, ◌≡◌, ◌≢◌, sym, ◌∙◌, ap, Bool, false, List, [], ◌∷◌, none, some, arith}
use xcpfs.NatMgmt.Types.{NatEntry}
use xcpfs.NatMgmt.Cache.{find}
use xcpfs.NatMgmt.Cache.Count.{NatInv}
use xcpfs.NatMgmt.Lookup.Translate.{node_block}
use xcpfs.Node.{NodeEnv, NodeState}
use xcpfs.Node.View.{node_view, entry_of, Kept}
use xcpfs.Node.Dnode.{nid_at}

-- A node that is in use: it has an address, or its entry is in `nat_list`.
abbrev pub IsUsed : NodeEnv → NodeState → ℕ → Type 0
IsUsed env st nid =
    (ne : NatEntry) × (entry_of env st nid ≡ some ne)
    × (find nid st.io.nm.nat_list ≡ none → ne.block_addr ≢ 0)

-- every node on the path is in use
unfoldable pub UsedPath : NodeEnv → NodeState → Bool → List ℕ → ℕ → Type 0
UsedPath env st top [] nid = Unit {0}
UsedPath env st top (o ∷ []) nid = IsUsed env st nid
UsedPath env st top (o ∷ p ∷ rest) nid =
    let next = nid_at top (node_view env st nid) o in
    IsUsed env st nid × (next ≢ 0 → UsedPath env st false (p ∷ rest) next)

-- The cache of addresses is in order, and a node that is not in use holds no pointers.
pub record Ready (env : NodeEnv) (st : NodeState) : Type 0 where
  pub inv : NatInv st.io.nm
  pub blank :
      (nid slot : ℕ)
      → find nid st.io.nm.nat_list ≡ none
      → node_block env.io.file st.io.nm nid ≡ 0
      → (node_view env st nid).ptrs slot ≡ 0

-- Every pointer to a node, and every address of a data block, is still there.
pub record Extends (env : NodeEnv) (st st' : NodeState) : Type 0 where
  pub pointers :
      (nid : ℕ) (top : Bool) (slot : ℕ)
      → nid_at top (node_view env st nid) slot ≢ 0
      → nid_at top (node_view env st' nid) slot ≡ nid_at top (node_view env st nid) slot
  pub addrs :
      (nid slot : ℕ) → (node_view env st' nid).i.i_addr slot ≡ (node_view env st nid).i.i_addr slot
  pub zm : st'.io.zm ≡ st.io.zm

pub Extends-Kept : (env : NodeEnv) (st st' : NodeState) → Kept env st st' → Extends env st st'
Extends-Kept env st st' k = record {
  pointers = λ nid top slot h. ap (λ page. nid_at top page slot) (k.views nid);
  addrs = λ nid slot. ap (λ page. page.i.i_addr slot) (k.views nid);
  zm = k.zm;
}

pub Extends-trans :
    (env : NodeEnv) (a b c : NodeState) → Extends env a b → Extends env b c → Extends env a c
Extends-trans env a b c h k = record {
  pointers = λ nid top slot n.
      k.pointers nid top slot (λ z. n (sym (h.pointers nid top slot n) ∙ z))
      ∙ h.pointers nid top slot n;
  addrs = λ nid slot. k.addrs nid slot ∙ h.addrs nid slot;
  zm = k.zm ∙ h.zm;
}

pub IsUsed-Kept :
    (env : NodeEnv) (st st' : NodeState) (nid : ℕ)
    → Kept env st st'
    → IsUsed env st nid
    → IsUsed env st' nid
IsUsed-Kept env st st' nid k (ne, e, h) = (ne, k.entries nid ∙ e, λ f. h (k.listed nid f))

pub UsedPath-Kept :
    (env : NodeEnv) (st st' : NodeState) (top : Bool) (offs : List ℕ) (nid : ℕ)
    → Kept env st st'
    → UsedPath env st top offs nid
    → UsedPath env st' top offs nid
unfolding UsedPath
UsedPath-Kept env st st' top [] nid k h = tt
UsedPath-Kept env st st' top (o ∷ []) nid k h = IsUsed-Kept env st st' nid k h
UsedPath-Kept env st st' top (o ∷ p ∷ rest) nid k h = (
  IsUsed-Kept env st st' nid k h.0,
  rw (k.views nid) (λ n. UsedPath-Kept env st st' false (p ∷ rest) _ k (h.1 n)),
)

pub Ready-Kept :
    (env : NodeEnv) (st st' : NodeState) → Kept env st st' → Ready env st → Ready env st'
Ready-Kept env st st' k r = record {
  inv = k.inv;
  blank = λ nid slot f z.
      ap (λ page. page.ptrs slot) (k.views nid)
      ∙ r.blank nid slot (k.listed nid f) (ground (arith, z, k.entries nid));
}
