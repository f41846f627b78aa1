-- ===== src/Super/Evicted.antt =====
-- An inode without links that the kernel drops.
use xcpfs.Base.{
  none, ℕ, zero, suc, ◌≤◌, ◌<◌, ◌≡◌, ◌≢◌, refl, sym, ◌∙◌, ap, Bool, true, false, some, arith,
  ==_iff, ==_ne, ==_refl, leb, if◌then◌else◌,
}
use xcpfs.Base.Table.{update_self}
use xcpfs.ZoneMgmt.Blocks.Account.{is_valid}
use xcpfs.NatMgmt.Cache.Count.{NatInv}
use xcpfs.Meta.Path.Layout.{max_blocks, indirect_start}
use xcpfs.Node.{NodePage, NodeEnv, NodeState, keep_page}
use xcpfs.Node.View.{node_view, Kept, same_views, view-keep_page, cached_page}
use xcpfs.Node.File.{file_addr}
use xcpfs.Node.File.Same.{file_addr_same}
use xcpfs.Inode.Attributes.{VfsInode, stored_inode, xcpfs_update_inode_page}
use xcpfs.Inode.Stored.{attributes_kept, replaced}
use xcpfs.Truncate.{xcpfs_do_truncate}
use xcpfs.Truncate.Shrink.{Ids, IsKnown-of_ge}
use xcpfs.Truncate.Inside.{Nodes}
use xcpfs.Truncate.Blocks.{xcpfs_do_truncate_lem}
use xcpfs.Truncate.Setattr.{xcpfs_truncate}
use xcpfs.Super.Inodes.{xcpfs_write_inode, xcpfs_evict_inode}
use xcpfs.Super.Written.{stored_page, update_inode_page_lem}

-- What is left of an inode without links: no block, and none of those of the inode and of its direct
-- nodes is valid.
abbrev pub Emptied : NodeEnv → ℕ → NodeState → NodeState → Type 0
Emptied env ino st st' =
    ((b : ℕ) → b < max_blocks → file_addr (node_view env st') ino b ≡ 0)
    × ((b : ℕ)
        → b < indirect_start
        → file_addr (node_view env st) ino b ≢ 0
        → is_valid st'.io.zm (file_addr (node_view env st) ino b) ≡ false)
    × ((x : ℕ) → is_valid st.io.zm x ≡ false → is_valid st'.io.zm x ≡ false)
    × NatInv st'.io.nm

-- What the kernel's `sync_inode_metadata` leaves: the blocks of the file, the zones and the nodes.
record Synced (env : NodeEnv) (ino : ℕ) (st st' : NodeState) : Type 0 where
  inv : NatInv st'.io.nm
  nodes : Nodes env st (node_view env st ino).i → Nodes env st' (node_view env st' ino).i
  addrs : (b : ℕ) → file_addr (node_view env st') ino b ≡ file_addr (node_view env st) ino b
  zm : st'.io.zm ≡ st.io.zm

Ids-same :
    (view view' : ℕ → NodePage)
    → ((x s : ℕ) → (view' x).ptrs s ≡ (view x).ptrs s)
    → (depth nid : ℕ) → Ids view depth nid
    → Ids view' depth nid
unfolding Ids
Ids-same view view' same zero nid h = h
Ids-same view view' same (suc depth) nid h = (
  h.0,
  λ slot n.
      rw (same nid slot) (Ids-same view view' same depth _ (h.1 slot (λ z. n (same nid slot ∙ z)))),
)

nid_stored :
    (env : NodeEnv) (st got : NodeState) (inode : VfsInode) (j : ℕ)
    → (node_view env (keep_page got inode.i_ino (stored_page env st inode)) inode.i_ino).i.i_nid j
      ≡ (node_view env st inode.i_ino).i.i_nid j
unfolding stored_inode
nid_stored env st got inode j =
    let page = stored_page env st inode in
    ap (λ p. p.i.i_nid j)
      (rw (==_refl inode.i_ino) at (view-keep_page env got inode.i_ino page inode.i_ino))

ptrs_stored :
    (env : NodeEnv) (st got : NodeState) (inode : VfsInode)
    → Kept env st got
    → (x s : ℕ)
    → (node_view env (keep_page got inode.i_ino (stored_page env st inode)) x).ptrs s
      ≡ (node_view env st x).ptrs s
ptrs_stored env st got inode k x s =
    replaced (λ p. p.ptrs s) env got inode.i_ino (stored_page env st inode)
      (ap (λ p. p.ptrs s) (sym (k.views inode.i_ino))) x
    ∙ ap (λ p. p.ptrs s) (k.views x)

Nodes-stored :
    (env : NodeEnv) (st got : NodeState) (inode : VfsInode)
    → Kept env st got
    → Nodes env st (node_view env st inode.i_ino).i
    → let after = keep_page got inode.i_ino (stored_page env st inode) in
      Nodes env after (node_view env after inode.i_ino).i
Nodes-stored env st got inode k nodes =
    let after = keep_page got inode.i_ino (stored_page env st inode) in
    let nid = nid_stored env st got inode in
    let ids = Ids-same (node_view env st) (node_view env after) (ptrs_stored env st got inode k) in
    record {
      direct = λ j l m. rw (nid j) (ids 0 _ (nodes.direct j l (λ z. m (nid j ∙ z))));
      indirect = λ j a l m. rw (nid j) (ids 1 _ (nodes.indirect j a l (λ z. m (nid j ∙ z))));
      double = λ m. rw (nid 4) (ids 2 _ (nodes.double (λ z. m (nid 4 ∙ z))));
    }

-- A write that is not waited for only stores the attributes.
stores :
    (env : NodeEnv) (written : ℕ → ℕ) (inode : VfsInode) (st updated : NodeState) (page : NodePage)
    → inode.i_ino ≢ 2
    → xcpfs_update_inode_page env inode st ≡ some updated
    → updated.pages inode.i_ino ≡ some page
    → xcpfs_write_inode env false written inode st ≡ some updated
unfolding xcpfs_write_inode
stores env written inode st updated page n u there =
    let read = cached_page env inode.i_ino updated page there in
    rw (==_ne inode.i_ino 2 n, u, read, xcpfs_write_inode) refl

sync_lem :
    (env : NodeEnv) (dirty : Bool) (written : ℕ → ℕ) (inode : VfsInode) (st : NodeState)
    → NatInv st.io.nm
    → 3 ≤ inode.i_ino
    → (st' : NodeState) × ((if dirty then xcpfs_write_inode env false written inode st else some st)
        ≡ some st')
      × Synced env inode.i_ino st st'
sync_lem env false written inode st v h =
    (st, refl, record { inv = v; nodes = λ n. n; addrs = λ b. refl; zm = refl })
sync_lem env true written inode st v h =
    let ino = inode.i_ino in
    let (got, k, u) = update_inode_page_lem env inode st v (IsKnown-of_ge env st ino h) in
    let page = stored_page env st inode in
    let after = keep_page got ino page in
    (
      after,
      stores env written inode st after page (λ e. ground (arith, h, e)) u
          (update_self got.pages ino (some page)),
      record {
        inv = k.inv;
        nodes = Nodes-stored env st got inode k;
        addrs = λ b.
            file_addr_same (node_view env got) (node_view env after)
              (attributes_kept env got ino inode (node_view env st ino) (sym (k.views ino))) ino b
            ∙ ap (λ w. file_addr w ino b) (same_views env st got k);
        zm = k.zm;
      },
    )

evicts :
    (env : NodeEnv) (dirty : Bool) (written : ℕ → ℕ) (inode : VfsInode) (st synced st' : NodeState)
    → 3 ≤ inode.i_ino
    → inode.i_nlink ≡ 0
    → (if dirty then xcpfs_write_inode env false written inode st else some st) ≡ some synced
    → xcpfs_do_truncate env inode.i_ino 0 synced ≡ some (st', none)
    → xcpfs_evict_inode env dirty written inode st ≡ some st'
unfolding xcpfs_evict_inode xcpfs_truncate
evicts env dirty written inode st synced st' h z e t =
    let regular : leb inode.i_ino 2 ≡ false = ground (arith, h) in
    rw (regular, e, (==_iff inode.i_nlink 0).1 z, t, xcpfs_evict_inode, xcpfs_truncate) refl

-- The eviction of an inode without links comes to an end and releases the file: no block of it has
-- an address afterwards, and the blocks that stood in the inode or below its direct nodes are no
-- longer valid; no block becomes valid.
pub xcpfs_evict_inode-Emptied :
    (env : NodeEnv) (dirty : Bool) (written : ℕ → ℕ) (inode : VfsInode) (st : NodeState)
    → NatInv st.io.nm
    → 3 ≤ inode.i_ino
    → inode.i_nlink ≡ 0
    → Nodes env st (node_view env st inode.i_ino).i
    → (st' : NodeState) × (xcpfs_evict_inode env dirty written inode st ≡ some st')
      × Emptied env inode.i_ino st st'
xcpfs_evict_inode-Emptied env dirty written inode st v h z nodes =
    let ino = inode.i_ino in
    let (synced, e, s) = sync_lem env dirty written inode st v h in
    let (st', e', t) =
      xcpfs_do_truncate_lem env ino 0 synced (omega arith) s.inv h (s.nodes nodes) in
    (
      st',
      evicts env dirty written inode st synced st' h z e e',
      (
        λ b l. t.blocks b l ∙ ground arith,
        λ b l m.
            ap (is_valid st'.io.zm) (sym (s.addrs b))
            ∙ t.released b (omega arith) l (λ q. m (sym (s.addrs b) ∙ q)),
        λ x f. t.others x (ap (λ zm. is_valid zm x) s.zm ∙ f),
        t.inv,
      ),
    )
