-- ===== src/Truncate/Blocks.antt =====
-- The blocks of a file after `xcpfs_do_truncate` to a size within the inode's own addresses.
use xcpfs.Base.{
  ℕ, ◌+◌, ◌-◌, ◌*◌, ◌/◌, ◌%◌, ◌≤◌, ◌<◌, ◌≡◌, ◌≢◌, refl, sym, ◌∙◌, ap, false, none, some, arith, ltb,
  ltb→lt, ◌==◌, ==_refl, if◌then◌else◌, inl, inr, Bool-cases,
}
use xcpfs.Format.{page_size, def_nids_per_block}
use xcpfs.ZoneMgmt.Blocks.Account.{is_valid}
use xcpfs.NatMgmt.Cache.Count.{NatInv}
use xcpfs.Meta.Path.{BlockPath, in_inode, direct, indirect, double_indirect, get_path}
use xcpfs.Meta.Path.Layout.{
  InTree, block_at, max_blocks, indirect_start, get_path-InTree, block_at-get_path,
}
use xcpfs.Node.{RawInode, NodePage, NodeEnv, NodeState, keep_page}
use xcpfs.Node.View.{node_view, Kept, view-keep_page, get_node_page_lem}
use xcpfs.Node.Dnode.Walk.{walk}
use xcpfs.Node.File.{at_path, file_addr, in_inode_lem}
use xcpfs.Truncate.{Truncating, xcpfs_do_truncate}
use xcpfs.Truncate.Shrink.{Shrunk-Kept, Ids-Shrunk, IsKnown-of_ge}
use xcpfs.Truncate.Inside.{Nodes, Inside, truncate_blocks-Inside}

-- A file whose inode points to no nodes has no blocks behind the inode's own.
no_nodes :
    (view : ℕ → NodePage) (ino : ℕ)
    → ((j : ℕ) → j < 5 → (view ino).i.i_nid j ≡ 0)
    → (path : BlockPath) → InTree path
    → 900 ≤ block_at path
    → at_path view ino path ≡ 0
unfolding walk
no_nodes view ino z (in_inode a) t h = absurd (omega (arith, t, h))
no_nodes view ino z (direct a b) t h = ground (arith, z (a - 900), t)
no_nodes view ino z (indirect a b c) t h = ground (arith, z (a - 900), t)
no_nodes view ino z (double_indirect a b c d) t h = ground (arith, z (a - 900), t)

-- Where a block below a direct node has its address.
in_direct :
    (view : ℕ → NodePage) (ino : ℕ) (path : BlockPath)
    → InTree path
    → 900 ≤ block_at path
    → block_at path < indirect_start
    → at_path view ino path ≢ 0
    → (j s : ℕ) × (j < 2)
      × (s < def_nids_per_block)
      × ((view ino).i.i_nid j ≢ 0)
      × (at_path view ino path ≡ (view ((view ino).i.i_nid j)).ptrs s)
unfolding walk
in_direct view ino (in_inode a) t h k n = absurd (omega (arith, t, h))
in_direct view ino (direct a b) t h k n =
    (a - 900, b, omega (arith, t), omega (arith, t), λ z. n (ground (arith, z)), ground (arith, n))
in_direct view ino (indirect a b c) t h k n = absurd (omega (arith, t, k))
in_direct view ino (double_indirect a b c d) t h k n = absurd (omega (arith, t, k))

-- What a truncation to `n` blocks leaves of a file.
pub record Truncated (env : NodeEnv) (ino n : ℕ) (st st' : NodeState) : Type 0 where
  pub blocks :
      (b : ℕ)
      → b < max_blocks
      → file_addr (node_view env st') ino b
        ≡ (if ltb b n then file_addr (node_view env st) ino b else 0)
  pub released :
      (b : ℕ)
      → n ≤ b
      → b < indirect_start
      → file_addr (node_view env st) ino b ≢ 0
      → is_valid st'.io.zm (file_addr (node_view env st) ino b) ≡ false
  pub others : (x : ℕ) → is_valid st.io.zm x ≡ false → is_valid st'.io.zm x ≡ false
  pub inv : NatInv st'.io.nm

module _ (env : NodeEnv) (ino n : ℕ) (h : n < 900) (st got : NodeState) (k : Kept env st got)
    (t : Truncating) (inside : Inside env got (node_view env st ino).i n t) where
  abbrev page : NodePage
  page = node_view env st ino

  abbrev after : NodeState
  after = keep_page t.st ino (record page { i = t.ri })

  inode_after : (node_view env after ino).i ≡ t.ri
  inode_after =
      let here : node_view env after ino ≡ record page { i = t.ri } =
        rw (==_refl ino) at (view-keep_page env t.st ino (record page { i = t.ri }) ino) in
      ap (λ p. p.i) here

  blocks_after :
      (b : ℕ)
      → b < max_blocks
      → file_addr (node_view env after) ino b
        ≡ (if ltb b n then file_addr (node_view env st) ino b else 0)
  blocks_after b l = elim (Bool-cases (ltb b 900)) [
    | inl e ↦
        let small = ltb→lt b 900 e in
        let addr =
          in_inode_lem (node_view env after) ino b small
          ∙ ap (λ r. r.i_addr b) inode_after
          ∙ inside.addrs b in
        addr ∙ ground (arith, e, in_inode_lem (node_view env st) ino b small)
    | inr e ↦
        no_nodes (node_view env after) ino
          (λ j m. ap (λ r. r.i_nid j) inode_after ∙ inside.nids j m) (get_path b)
          (get_path-InTree b l) (rw (block_at-get_path b) (ground (arith, e)))
        ∙ ground (arith, e, h)
  ]

  released_after :
      (b : ℕ)
      → n ≤ b
      → b < indirect_start
      → file_addr (node_view env st) ino b ≢ 0
      → is_valid t.st.io.zm (file_addr (node_view env st) ino b) ≡ false
  released_after b a l m = elim (Bool-cases (ltb b 900)) [
    | inl e ↦
        let small = ltb→lt b 900 e in
        let same = in_inode_lem (node_view env st) ino b small in
        ap (is_valid t.st.io.zm) same ∙ inside.released b a small (λ z. m (same ∙ z))
    | inr e ↦
        let view = node_view env st in
        let (j, s, j2, s_in, some_nid, same) =
          in_direct view ino (get_path b) (get_path-InTree b (omega (arith, l)))
            (rw (block_at-get_path b) (ground (arith, e))) (rw (block_at-get_path b) l) m in
        let seen = ap (λ p. p.ptrs s) (k.views (page.i.i_nid j)) in
        ap (is_valid t.st.io.zm) (same ∙ sym seen)
        ∙ inside.released_direct j s j2 s_in some_nid (λ z. m (same ∙ sym seen ∙ z))
  ]

  truncated : Truncated env ino n st after
  truncated = record {
    blocks = blocks_after;
    released = released_after;
    others = λ x e. inside.shrunk.valid x (ap (λ z. is_valid z x) k.zm ∙ e);
    inv = inside.shrunk.inv;
  }

Nodes-got :
    (env : NodeEnv) (st got : NodeState) (ri : RawInode)
    → Kept env st got
    → Nodes env st ri
    → Nodes env got ri
Nodes-got env st got ri k nodes =
    let shrunk = Shrunk-Kept env st got k in
    record {
      direct = λ j l m. Ids-Shrunk env st got 0 (ri.i_nid j) shrunk (nodes.direct j l m);
      indirect = λ j a l m. Ids-Shrunk env st got 1 (ri.i_nid j) shrunk (nodes.indirect j a l m);
      double = λ m. Ids-Shrunk env st got 2 (ri.i_nid 4) shrunk (nodes.double m);
    }

-- A truncation to a size of fewer than 900 blocks comes to an end: the blocks before the new end
-- keep their addresses and no block behind it has one; those of them that stood in the inode or below
-- its two direct nodes are no longer valid, and no block becomes valid. The rest of the last block is
-- to be filled with zeros.
pub xcpfs_do_truncate_lem :
    (env : NodeEnv) (ino from : ℕ) (st : NodeState)
    → (from + page_size - 1) / page_size < 900
    → NatInv st.io.nm
    → 3 ≤ ino
    → Nodes env st (node_view env st ino).i
    → (st' : NodeState) × (xcpfs_do_truncate env ino from st
        ≡ some (
          st',
          if from % page_size == 0 then none else some (from / page_size, from % page_size),
        ))
      × Truncated env ino ((from + page_size - 1) / page_size) st st'
unfolding xcpfs_do_truncate
xcpfs_do_truncate_lem env ino from st h v id nodes =
    let (got, e, k, there) = get_node_page_lem env ino st v (IsKnown-of_ge env st ino id) in
    let ri = (node_view env st ino).i in
    let n = (from + page_size - 1) / page_size in
    let (t, e', inside) =
      truncate_blocks-Inside env got ri n h k.inv (Nodes-got env st got ri k nodes) in
    let rest : from - from / page_size * page_size ≡ from % page_size = omega arith in
    (
      after env ino n h st got k t inside,
      rw (e, e', rest, xcpfs_do_truncate) refl,
      truncated env ino n h st got k t inside,
    )
