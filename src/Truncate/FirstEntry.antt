-- ===== src/Truncate/FirstEntry.antt =====
-- The loop of `xcpfs_recurse` over a whole indirect node, which begins at the second entry.
use xcpfs.Base.{ℕ, suc, ◌-◌, ◌<◌, ◌≡◌, refl, ◌∙◌, ap, some, arith, leb, ==_refl, if◌then◌else◌}
use xcpfs.Format.{def_nids_per_block}
use xcpfs.NatMgmt.Cache.Count.{NatInv}
use xcpfs.Node.{NodeEnv, NodeState}
use xcpfs.Node.View.{node_view, get_node_page_lem}
use xcpfs.Truncate.{commit, recurse_all}
use xcpfs.Truncate.Shrink.{
  Shrunk-Kept, Ids, Ids-Shrunk, IsKnown-of_ge, view_commit, drop_children_lem, recurse_all_lem,
}

-- The release of an indirect node as a whole comes to an end and leaves the pointer at the node's first
-- entry as it was; every other pointer of the node is 0 afterwards.
pub recurse_all_first :
    (env : NodeEnv) (depth nid : ℕ) (st : NodeState)
    → NatInv st.io.nm
    → Ids (node_view env st) (suc depth) nid
    → (st' : NodeState) × (recurse_all env (suc depth) nid st ≡ some st')
      × ((s : ℕ)
          → s < def_nids_per_block
          → (node_view env st' nid).ptrs s ≡ (if leb 1 s then 0 else (node_view env st nid).ptrs s))
unfolding recurse_all Ids
recurse_all_first env depth nid st v h =
    let (got, e, k, there) = get_node_page_lem env nid st v (IsKnown-of_ge env st nid h.0) in
    let page = node_view env st nid in
    let (nids, st1, e1, k1, all) =
      drop_children_lem env depth (recurse_all env depth) (recurse_all_lem env depth)
        (def_nids_per_block - 1) 1 page.ptrs got k.inv
        (λ j n. Ids-Shrunk env st got depth (page.ptrs j) (Shrunk-Kept env st got k) (h.1 j n)) in
    let here : node_view env (commit st1 nid page nids) nid ≡ record page { ptrs = nids } =
      rw (==_refl nid) at (view_commit env st1 st1.io.zm nid page nids nid) in
    (
      commit st1 nid page nids,
      rw (e, e1, recurse_all) refl,
      λ s l. ap (λ p. p.ptrs s) here ∙ all s ∙ ground (arith, l),
    )
