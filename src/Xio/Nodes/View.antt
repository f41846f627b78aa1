-- ===== src/Xio/Nodes/View.antt =====
-- The nodes' addresses with the valid blocks of the zones, when one node is moved.
use xcpfs.Base.{ℕ, ◌≡◌, refl, ◌∙◌, false, some, arith, ◌==◌, if◌then◌else◌}
use xcpfs.ZoneMgmt.Types.{ZmInfo}
use xcpfs.ZoneMgmt.Blocks.{validate_blkaddr}
use xcpfs.ZoneMgmt.Blocks.Owners.{Owners, Released, moved-Owners}
use xcpfs.ZoneMgmt.Blocks.Account.{is_valid}
use xcpfs.NatMgmt.Types.{NatEntry, NatInfo, NatFile}
use xcpfs.NatMgmt.Cache.{find, lookup_cached, update_nat}
use xcpfs.NatMgmt.Cache.View.{lookup-update_nat}
use xcpfs.NatMgmt.Lookup.Translate.{translate, node_block}

-- Every node that has a block has a valid one, and no two nodes share one.
abbrev pub NodesValid : NatFile → NatInfo → ZmInfo → Type 0
NodesValid file nm zm = Owners (node_block file nm) zm

module _ (file : NatFile) (nm : NatInfo) (nid written : ℕ) (ne : NatEntry)
    (listed : find nid nm.nat_list ≡ some ne) where
  pub node_block-update :
      (other : ℕ)
      → node_block file (update_nat nm nid written false).1 other
        ≡ (if nid == other then written else node_block file nm other)
  unfolding translate lookup_cached
  node_block-update other = ground (arith, listed, lookup-update_nat nm nid written false other)

  pub node_block-listed : node_block file nm nid ≡ ne.block_addr
  unfolding translate lookup_cached
  node_block-listed = ground (arith, listed)

  pub after-NodesValid :
      (zm zm' : ZmInfo)
      → NodesValid file nm zm
      → Released zm ne.block_addr zm'
      → is_valid zm' written ≡ false
      → NodesValid file (update_nat nm nid written false).1 (validate_blkaddr zm' written)
  after-NodesValid zm zm' v released unwritten =
      moved-Owners (node_block file nm) (node_block file (update_nat nm nid written false).1) nid
        written node_block-update zm zm' v (λ x. released x ∙ rw node_block-listed refl) unwritten
