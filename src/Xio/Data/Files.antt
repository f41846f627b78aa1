-- ===== src/Xio/Data/Files.antt =====
-- The blocks of a file while one of them is written.
use xcpfs.Base.{
  ℕ, ◌<◌, ◌≡◌, ◌≢◌, refl, sym, subst, ◌∙◌, ap, fun_ext, true, false, some, arith, ltb, ltb→lt,
  lt→ltb, ◌==◌, ==_iff, ==_ne, List, if◌then◌else◌, inl, inr, Bool-cases,
}
use xcpfs.Format.{PageType, type_code}
use xcpfs.ZoneMgmt.Types.{ZmInfo}
use xcpfs.ZoneMgmt.Device.{zone_append}
use xcpfs.ZoneMgmt.Alloc.{Found, done, null_deref, spinning}
use xcpfs.ZoneMgmt.Alloc.Search.{Finds}
use xcpfs.ZoneMgmt.Alloc.Write.{Placed, alloc_zone-Placed}
use xcpfs.ZoneMgmt.Blocks.{validate_blkaddr}
use xcpfs.ZoneMgmt.Blocks.Account.{is_valid}
use xcpfs.ZoneMgmt.Blocks.Owners.{Owners, Released, moved-Owners}
use xcpfs.NatMgmt.Cache.Count.{NatInv}
use xcpfs.Meta.Path.{BlockPath, in_inode, direct, indirect, double_indirect, get_path}
use xcpfs.Meta.Path.Layout.{max_blocks}
use xcpfs.Meta.Pages.{get_page_type}
use xcpfs.NatMgmt.Lookup.Translate.{node_block}
use xcpfs.Node.{NodePage, page_or, NodeEnv, NodeState, keep_page}
use xcpfs.Node.View.{same_views, node_view, stored, view-keep_page}
use xcpfs.Node.Dnode.{offsets, addr_at, set_addr}
use xcpfs.Node.Dnode.Walk.{Place, walk, place_addr, Known, answer, Held, get_dnode_page_lem}
use xcpfs.Node.File.{place_of, file_addr, IsTree, with_addr, file_addr-with_addr}
use xcpfs.Node.File.Paths.{full}
use xcpfs.Xio.Data.{
  in_top, last_offset, held_page, DataSubmitted, data_sent, send_data, submit_data_xio,
  end_data_write, data_io, data_fault, XioSubmitted, node_io, xcpfs_submit_xio,
  do_write_single_page,
}

-- The address of each block that a file can have, 0 for none.
abbrev pub block_addrs : (ℕ → NodePage) → ℕ → ℕ → ℕ
block_addrs view ino b = if ltb b max_blocks then file_addr view ino b else 0

-- Every block of the file that has an address has a valid one, and no two blocks share one.
abbrev pub FileValid : (ℕ → NodePage) → ℕ → ZmInfo → Type 0
FileValid view ino zm = Owners (block_addrs view ino) zm

-- After the end of the write of block `b`.
abbrev pub Written : NodeEnv → ℕ → ℕ → NodeState → NodeState → ℕ → Type 0
Written env ino b st st' written =
    FileValid (node_view env st') ino st'.io.zm
    × NatInv st'.io.nm
    × ((other : ℕ)
        → block_addrs (node_view env st') ino other
          ≡ (if b == other then written else block_addrs (node_view env st) ino other))

-- The place that a path leads to is the one that the code takes from the path.
pub walk_end :
    (view : ℕ → NodePage) (path : BlockPath) (ino : ℕ) (place : Place)
    → walk view true (offsets path) ino ≡ some place
    → (place.top ≡ in_top path) × (place.slot ≡ last_offset path)
unfolding walk
walk_end view (in_inode a) ino place e = (ground (arith, e), ground (arith, e))
walk_end view (direct a b) ino place e = (ground (arith, e), ground (arith, e))
walk_end view (indirect a b c) ino place e = (ground (arith, e), ground (arith, e))
walk_end view (double_indirect a b c d) ino place e = (ground (arith, e), ground (arith, e))

-- A request that has been sent: what the search for a zone found, and the state but for the zones.
send_data_lem :
    (P : ℕ → ZmInfo → Type 0) (d : ℕ) (got : NodeState) (found : Found) (d' new : ℕ)
    (st' : NodeState)
    → Finds P found
    → send_data d got found ≡ data_sent d' new st'
    → (d ≡ d') × P new st'.io.zm × (st'.pages ≡ got.pages) × (st'.io.nm ≡ got.io.nm)
send_data_lem P d got (done n zm cpc) d' new st' p e = (
  ap sent_node e,
  subst (λ x. P x st'.io.zm) (ap sent_block e) (subst (λ s. P n s.io.zm) (ap (sent_state got) e) p),
  ap (λ s. s.pages) (sym (ap (sent_state got) e)),
  ap (λ s. s.io.nm) (sym (ap (sent_state got) e)),
)
  where
    sent_node : DataSubmitted → ℕ
    sent_node (data_sent d new st) = d
    sent_node _ = 0

    sent_block : DataSubmitted → ℕ
    sent_block (data_sent d new st) = new
    sent_block _ = 0

    sent_state : NodeState → DataSubmitted → NodeState
    sent_state other (data_sent d new st) = st
    sent_state other _ = other
send_data_lem P d got null_deref d' new st' p e = cc
send_data_lem P d got spinning d' new st' p e = cc

same_view :
    (env : NodeEnv) (st got : NodeState)
    → st.pages ≡ got.pages
    → st.io.nm ≡ got.io.nm
    → node_view env st ≡ node_view env got
unfolding node_view
same_view env st got p n = fun_ext λ x.
    ap (λ o. page_or o (stored env (node_block env.io.file st.io.nm x))) (ap (λ f. f x) p)
    ∙ ap (λ m. page_or (got.pages x) (stored env (node_block env.io.file m x))) n

view_zm :
    (env : NodeEnv) (st : NodeState) (zm : ZmInfo) (x : ℕ)
    → node_view env (record st { io = record st.io { zm = zm } }) x ≡ node_view env st x
unfolding node_view
view_zm env st zm x = refl

with_addr_at :
    (view : ℕ → NodePage) (place : Place) (addr x : ℕ)
    → place.node ≡ x
    → with_addr view place addr x ≡ set_addr place.top (view x) place.slot addr
with_addr_at view place addr x e = rw ((==_iff place.node x).1 e) refl

module _ (env : NodeEnv) (ino b : ℕ) (type : PageType) (st : NodeState) (v : NatInv st.io.nm)
    (known : Known env st true (full b) ino) (place : Place)
    (found : place_of (node_view env st) ino b ≡ some place) where
  -- What a submission leaves: what the nodes hold, and all valid blocks but the old one.
  record Sent (d : ℕ) (st' : NodeState) : Type 0 where
    node : place.node ≡ d
    views : node_view env st' ≡ node_view env st
    inv : NatInv st'.io.nm
    held : st'.pages d ≡ some (node_view env st d)
    released : Released st.io.zm (place_addr (node_view env st) place) st'.io.zm

  submit_lem :
      (d new : ℕ) (st' : NodeState)
      → submit_data_xio env zone_append type ino b st ≡ data_sent d new st'
      → Sent d st'
  unfolding submit_data_xio
  submit_lem d new st' e =
      let (got, k, answered, held) = get_dnode_page_lem env ino b st v known in
      let here = answered ∙ ap (λ w. answer (node_view env st) w got) found in
      let there : got.pages place.node ≡ some (node_view env st place.node) =
        subst (λ w. Held (node_view env st) w got) found held in
      let path = get_path b in
      let old = addr_at (in_top path) (held_page got place.node) (last_offset path) in
      let ends = walk_end (node_view env st) path ino place found in
      let same_old : old ≡ place_addr (node_view env st) place = rw (there, ends.0, ends.1) refl in
      let submits : submit_data_xio env zone_append type ino b st ≡ send_data place.node got _ =
        rw (here, submit_data_xio) refl in
      let (node, placed, pages, nm) =
        send_data_lem (Placed got.io.zm old (type_code type)) place.node got _ d new st'
          (alloc_zone-Placed env.io.bdev env.io.cp_locked env.io.rounds
            (record { op = zone_append; old_blkaddr = old; type = type }) got.io.zm got.io.cpc refl)
          (sym submits ∙ e) in
      record {
        node = node;
        views = same_view env st' got pages nm ∙ same_views env st got k;
        inv = subst NatInv (sym nm) k.inv;
        held =
            subst (λ n. st'.pages n ≡ some (node_view env st n)) node
              (ap (λ f. f place.node) pages ∙ there);
        released = λ x. placed.1 x ∙ rw (k.zm, same_old) refl;
      }

  -- The nodes after the address has been entered.
  view_written :
      (d : ℕ) (st' : NodeState) (written : ℕ)
      → Sent d st'
      → node_view env (end_data_write b d written st') ≡ with_addr (node_view env st) place written
  unfolding end_data_write
  view_written d st' written s =
      let path = get_path b in
      let ends = walk_end (node_view env st) path ino place found in
      let page = set_addr (in_top path) (held_page st' d) (last_offset path) written in
      let same : page ≡ set_addr place.top (node_view env st d) place.slot written =
        rw (s.held, ends.0, ends.1) refl in
      fun_ext λ x.
        view_zm env (keep_page st' d page) (validate_blkaddr st'.io.zm written) x
        ∙ view-keep_page env st' d page x
        ∙ elim (Bool-cases (d == x)) [
          | inl e ↦ rw e (
              same
              ∙ sym (with_addr_at (node_view env st) place written d s.node)
              ∙ ap (with_addr (node_view env st) place written) ((==_iff d x).0 e))
          | inr e ↦ rw (s.node, e) (ap (λ w. w x) s.views)
        ]

  moves :
      (label : ℕ → List ℕ) (d : ℕ) (st' : NodeState) (written : ℕ)
      → IsTree label (node_view env st) ino
      → b < max_blocks
      → Sent d st'
      → (other : ℕ)
      → block_addrs (node_view env (end_data_write b d written st')) ino other
        ≡ (if b == other then written else block_addrs (node_view env st) ino other)
  moves label d st' written tree h s other =
      let after = view_written d st' written s in
      elim (Bool-cases (ltb other max_blocks)) [
        | inl e ↦ rw e (
            ap (λ w. file_addr w ino other) after
            ∙ file_addr-with_addr label (node_view env st) ino tree b h place found written other
                (ltb→lt other max_blocks e))
        | inr e ↦ rw (e, ==_ne b other (λ z. ground (arith, e, z, h))) refl
      ]

  addr_here :
      b < max_blocks → block_addrs (node_view env st) ino b ≡ place_addr (node_view env st) place
  addr_here h = rw (lt→ltb b max_blocks h, found) refl

  ended :
      (label : ℕ → List ℕ)
      → IsTree label (node_view env st) ino
      → FileValid (node_view env st) ino st.io.zm
      → b < max_blocks
      → (d : ℕ) (st' : NodeState) → Sent d st'
      → (written : ℕ) → is_valid st'.io.zm written ≡ false
      → Written env ino b st (end_data_write b d written st') written
  unfolding end_data_write
  ended label tree valid h d st' s written unwritten =
      let moved = moves label d st' written tree h s in
      (
        moved-Owners (block_addrs (node_view env st) ino)
            (block_addrs (node_view env (end_data_write b d written st')) ino) b written moved
            st.io.zm st'.io.zm valid (λ x. s.released x ∙ rw (addr_here h) refl) unwritten,
        s.inv,
        moved,
      )

-- A page that is not one of the node inode's is submitted as data.
is_data :
    (env : NodeEnv) (ino b : ℕ) (st : NodeState)
    → ino ≢ env.node_ino
    → do_write_single_page env ino b st
      ≡ data_io
          (submit_data_xio env zone_append (get_page_type env.meta_ino env.node_ino ino b) ino b st)
unfolding do_write_single_page xcpfs_submit_xio get_page_type
is_data env ino b st n = elim (Bool-cases (ino == env.meta_ino)) [
  | inl e ↦ rw e refl
  | inr e ↦ rw (e, ==_ne ino env.node_ino n) refl
]

io_of : XioSubmitted → DataSubmitted
io_of (node_io r) = data_fault
io_of (data_io r) = r

-- A block of a file, whose nodes form a tree, is written to a block of the device that was not valid
-- when the request was sent: after the end of the write the file's block is at that block, every
-- other one is where it was, every block of the file that has an address has a valid one, and no two
-- share one.
pub end_data_write-FileValid :
    (env : NodeEnv) (ino b : ℕ) (st : NodeState)
    → NatInv st.io.nm
    → Known env st true (full b) ino
    → (place : Place) → place_of (node_view env st) ino b ≡ some place
    → (label : ℕ → List ℕ) → IsTree label (node_view env st) ino
    → FileValid (node_view env st) ino st.io.zm
    → b < max_blocks
    → ino ≢ env.node_ino
    → (d new : ℕ) (st' : NodeState)
    → do_write_single_page env ino b st ≡ data_io (data_sent d new st')
    → (written : ℕ) → is_valid st'.io.zm written ≡ false
    → Written env ino b st (end_data_write b d written st') written
unfolding io_of
end_data_write-FileValid env ino b st v known place found label tree valid h regular d new st' e
      written unwritten =
    let type = get_page_type env.meta_ino env.node_ino ino b in
    let sent =
      submit_lem env ino b type st v known place found d new st'
        (ap io_of (sym (is_data env ino b st regular) ∙ e)) in
    ended env ino b type st v known place found label tree valid h d st' sent written unwritten
