-- ===== src/Truncate/Inside.antt =====
-- A truncation to a block whose address stands in the inode.
use xcpfs.Base.{
  ℕ, ◌+◌, ◌-◌, ◌≤◌, ◌<◌, ◌≡◌, ◌≢◌, refl, sym, subst, ◌∙◌, ap, true, false, ◌&&◌, some, arith, ltb,
  leb, lt→ltb, if◌then◌else◌, inl, inr,
}
use xcpfs.Base.Table.{update}
use xcpfs.Base.Int.{pos}
use xcpfs.Format.{def_addrs_per_inode, def_nids_per_block}
use xcpfs.ZoneMgmt.Types.{ZmInfo}
use xcpfs.ZoneMgmt.Blocks.Account.{is_valid}
use xcpfs.NatMgmt.Cache.Count.{NatInv}
use xcpfs.Meta.Path.{get_path, in_inode}
use xcpfs.Meta.Path.Layout.{get_path-block_at}
use xcpfs.Node.{RawInode, NodeEnv, NodeState}
use xcpfs.Node.View.{node_view}
use xcpfs.Truncate.{
  clear_addrs, with_zm, Truncating, drop_nids, drop_level, drop_addrs, to_array, ◌>>=◌,
  xcpfs_truncate_blocks,
}
use xcpfs.Truncate.Clear.{holds_at, clear_addrs_entries, clear_addrs_blocks}
use xcpfs.Truncate.Shrink.{
  Shrunk, Shrunk-refl, Shrunk-trans, Shrunk-drop_nat, Ids, Ids-Shrunk, recurse_all_lem,
  released_stays,
}
use xcpfs.Truncate.Direct.{
  Releasing, Releasing-refl, Releasing-trans, IsCleared, IsCleared-lasts, releases_direct,
}
use xcpfs.Truncate.Nids.{DroppedNids, DroppedNids-addr, drop_nids_lem}

-- The nodes of an inode, at their levels.
pub record Nodes (env : NodeEnv) (st : NodeState) (ri : RawInode) : Type 0 where
  pub direct : (j : ℕ) → j < 2 → ri.i_nid j ≢ 0 → Ids (node_view env st) 0 (ri.i_nid j)
  pub indirect : (j : ℕ) → 2 ≤ j → j < 4 → ri.i_nid j ≢ 0 → Ids (node_view env st) 1 (ri.i_nid j)
  pub double : ri.i_nid 4 ≢ 0 → Ids (node_view env st) 2 (ri.i_nid 4)

abbrev start : RawInode → NodeState → ℕ → Truncating
start ri st n = record { ri = ri; st = st; offset = to_array (get_path n); flag = false }

abbrev levelled : Truncating → ℕ → Truncating
levelled t next = record t {
  offset = update t.offset 0 (pos (def_addrs_per_inode + next));
  flag = true;
}

module _ (env : NodeEnv) where
  -- a loop over nodes of one level
  drop_deep :
      (depth n i : ℕ) (t : Truncating)
      → t.flag ≡ true
      → NatInv t.st.io.nm
      → ((j : ℕ)
          → i ≤ j
          → j < i + n
          → t.ri.i_nid j ≢ 0
          → Ids (node_view env t.st) depth (t.ri.i_nid j))
      → (t' : Truncating) × (drop_nids env depth n i t ≡ some t')
        × DroppedNids t t' i n
        × Shrunk env t.st t'.st
  drop_deep depth n i t f v h =
      let (t', e, d, k, gone) =
        drop_nids_lem env depth (Shrunk env) (λ st nid. Unit {0}) (λ a b k. k)
          (λ a v. Shrunk-refl env a v) (Shrunk-trans env) (λ a b nid k u. u)
          (λ nid st v h.
            let (st', e, k, cached) = recurse_all_lem env depth nid st v h in
            (st', e, Shrunk-trans env st st' _ k (Shrunk-drop_nat env st' nid k.inv cached), tt))
          n i t f v h in
      (t', e, d, k)

  drop_direct :
      (n i : ℕ) (t : Truncating)
      → t.flag ≡ true
      → NatInv t.st.io.nm
      → ((j : ℕ) → i ≤ j → j < i + n → t.ri.i_nid j ≢ 0 → Ids (node_view env t.st) 0 (t.ri.i_nid j))
      → (t' : Truncating) × (drop_nids env 0 n i t ≡ some t')
        × DroppedNids t t' i n
        × Releasing env t.st t'.st
        × ((j : ℕ) → i ≤ j → j < i + n → t.ri.i_nid j ≢ 0 → IsCleared env t'.st (t.ri.i_nid j))
  drop_direct =
      drop_nids_lem env 0 (Releasing env) (IsCleared env) (λ a b k. k.0) (Releasing-refl env)
        (Releasing-trans env) (IsCleared-lasts env) (releases_direct env)

  -- one of the three blocks, where `offset[0]` is `o`
  level_lem :
      (depth end_nid next o : ℕ) (t t' : Truncating)
      → t.offset 0 ≡ pos o
      → ltb o (def_addrs_per_inode + end_nid) ≡ true
      → drop_nids env depth (end_nid - (o - def_addrs_per_inode)) (o - def_addrs_per_inode) t
        ≡ some t'
      → drop_level env depth end_nid next t ≡ some (levelled t' next)
  unfolding drop_level
  level_lem depth end_nid next o t t' e l d = rw (e, l, d, drop_level) refl

  blocks_lem :
      (ri : RawInode) (st : NodeState) (n : ℕ) (t1 t2 t3 t4 : Truncating)
      → drop_addrs (start ri st n) ≡ t1
      → drop_level env 0 2 2 t1 ≡ some t2
      → drop_level env 1 4 4 t2 ≡ some t3
      → drop_level env 2 5 6 t3 ≡ some t4
      → xcpfs_truncate_blocks env ri n st ≡ some t4
  unfolding xcpfs_truncate_blocks
  blocks_lem ri st n t1 t2 t3 t4 a b c d =
      ap (λ t. drop_level env 0 2 2 t >>= drop_level env 1 4 4 >>= drop_level env 2 5 6) a
      ∙ ap (λ r. r >>= drop_level env 1 4 4 >>= drop_level env 2 5 6) b
      ∙ ap (λ r. r >>= drop_level env 2 5 6) c
      ∙ d

-- What such a truncation leaves.
pub record Inside (env : NodeEnv) (st : NodeState) (ri : RawInode) (n : ℕ) (t : Truncating)
    : Type 0 where
  pub addrs : (j : ℕ) → t.ri.i_addr j ≡ (if leb n j && ltb j 900 then 0 else ri.i_addr j)
  pub nids : (j : ℕ) → j < 5 → t.ri.i_nid j ≡ 0
  pub shrunk : Shrunk env st t.st
  pub released :
      (j : ℕ) → n ≤ j → j < 900 → ri.i_addr j ≢ 0 → is_valid t.st.io.zm (ri.i_addr j) ≡ false
  pub released_direct :
      (j s : ℕ)
      → j < 2
      → s < def_nids_per_block
      → ri.i_nid j ≢ 0
      → (node_view env st (ri.i_nid j)).ptrs s ≢ 0
      → is_valid t.st.io.zm ((node_view env st (ri.i_nid j)).ptrs s) ≡ false

module _ (env : NodeEnv) (st : NodeState) (ri : RawInode) (n : ℕ) (h : n < 900)
    (v : NatInv st.io.nm) (nodes : Nodes env st ri) where
  abbrev cleared : (ℕ → ℕ) × ZmInfo
  cleared = clear_addrs (900 - n) n ri.i_addr st.io.zm

  -- the state after the addresses in the inode have been released
  abbrev first : Truncating
  first = record {
    ri = record ri { i_addr = cleared.0 };
    st = with_zm st cleared.1;
    offset = update (to_array (in_inode n)) 0 (pos 900);
    flag = true;
  }

  first_lem : drop_addrs (start ri st n) ≡ first
  first_lem = rw (get_path-block_at (in_inode n) h, lt→ltb n 900 h) refl

  first-Shrunk : Shrunk env st first.st
  unfolding node_view
  first-Shrunk = record {
    inv = v;
    ptrs = λ x s m. refl;
    inodes = λ x. refl;
    valid = released_stays (900 - n) n ri.i_addr st.io.zm;
    cached = λ x m. m;
  }

  first_view : (x : ℕ) → node_view env st x ≡ node_view env first.st x
  unfolding node_view
  first_view x = refl

  -- the nodes of a level when its loop begins
  carry :
      (depth x nid : ℕ) (st' : NodeState)
      → Shrunk env st st'
      → x ≡ nid
      → (nid ≢ 0 → Ids (node_view env st) depth nid)
      → x ≢ 0
      → Ids (node_view env st') depth x
  carry depth x nid st' k e ids m = rw e (Ids-Shrunk env st st' depth nid k (ids (λ z. m (e ∙ z))))

  first_released :
      (j : ℕ) → n ≤ j → j < 900 → ri.i_addr j ≢ 0 → is_valid cleared.1 (ri.i_addr j) ≡ false
  first_released j a b m =
      clear_addrs_blocks (900 - n) n ri.i_addr st.io.zm (ri.i_addr j)
      ∙ rw (holds_at (900 - n) n ri.i_addr j a (omega (arith, b, h)) m) refl

  pub truncate_blocks-Inside :
      (t : Truncating) × (xcpfs_truncate_blocks env ri n st ≡ some t) × Inside env st ri n t
  truncate_blocks-Inside =
      let (u1, e1, d1, (k1, lost), gone) = drop_direct env 2 0 first refl v (λ j a b m.
        carry 0 (ri.i_nid j) (ri.i_nid j) first.st first-Shrunk refl (nodes.direct j b) m) in
      let t1 = levelled u1 2 in
      let s1 = Shrunk-trans env st first.st u1.st first-Shrunk k1 in
      let (u2, e2, d2, k2) = drop_deep env 1 2 2 t1 refl s1.inv (λ j a b m.
        carry 1 (u1.ri.i_nid j) (ri.i_nid j) u1.st s1 (ground (arith, d1.nids j, a))
          (nodes.indirect j a b) m) in
      let t2 = levelled u2 4 in
      let s2 = Shrunk-trans env st u1.st u2.st s1 k2 in
      let (u3, e3, d3, k3) = drop_deep env 2 1 4 t2 refl s2.inv (λ j a b m.
        let at_4 : j ≡ 4 = omega (arith, a, b) in
        carry 2 (u2.ri.i_nid j) (ri.i_nid j) u2.st s2 (ground (arith, d1.nids j, d2.nids j, a))
          (rw at_4 nodes.double) m) in
      let s3 = Shrunk-trans env st u2.st u3.st s2 k3 in
      (
        levelled u3 6,
        blocks_lem env ri st n first t1 t2 (levelled u3 6) first_lem
            (level_lem env 0 2 2 900 first u1 refl refl e1)
            (level_lem env 1 4 4 902 t1 u2 refl refl e2)
            (level_lem env 2 5 6 904 t2 u3 refl refl e3),
        record {
          addrs = λ j.
              DroppedNids-addr t2 u3 4 1 d3 j
              ∙ DroppedNids-addr t1 u2 2 2 d2 j
              ∙ DroppedNids-addr first u1 0 2 d1 j
              ∙ clear_addrs_entries (900 - n) n ri.i_addr st.io.zm j
              ∙ ground (arith, h);
          nids = λ j l. ground (arith, d1.nids j, d2.nids j, d3.nids j);
          shrunk = s3;
          released = λ j a b m. k3.valid _ (k2.valid _ (k1.valid _ (first_released j a b m)));
          released_direct = λ j s a b m z. k3.valid _ (
              k2.valid _
                (elim (lost (ri.i_nid j) s b
                  (λ y. z (ap (λ p. p.ptrs s) (first_view (ri.i_nid j)) ∙ y))) [
                    | inl still ↦ absurd (still (gone j (omega arith) a m s b))
                    | inr out ↦
                        subst (λ p. is_valid u1.st.io.zm (p.ptrs s) ≡ false)
                          (sym (first_view (ri.i_nid j))) out
                  ]));
        },
      )
