-- ===== src/Xio/Nodes.antt =====
-- The nodes' addresses and the blocks of the zones.
pub mod View
use xcpfs.Base.{
  ℕ, ◌≡◌, ◌≢◌, refl, sym, subst, ◌∙◌, true, false, ◌&&◌, Option, none, some, arith, ◌==◌, ==_refl,
  ap, if◌then◌else◌, inl, inr, Bool-cases,
}
use mathlib.Core.Bool.{false≢true}
use mathlib.Core.Option.{some-injective}
use xcpfs.Format.{PageType, type_code}
use xcpfs.ZoneMgmt.Types.{ZmInfo}
use xcpfs.ZoneMgmt.Device.{ReqOp}
use xcpfs.ZoneMgmt.Blocks.{validate_blkaddr}
use xcpfs.ZoneMgmt.Blocks.Owners.{Released}
use xcpfs.ZoneMgmt.Blocks.Account.{is_valid, is_valid-validate}
use xcpfs.ZoneMgmt.Alloc.{Found, done, null_deref, spinning, AllocReq, is_read, alloc_zone}
use xcpfs.ZoneMgmt.Alloc.Search.{Finds}
use xcpfs.ZoneMgmt.Alloc.Write.{Placed, alloc_zone-Placed}
use xcpfs.NatMgmt.Types.{NatEntry, NatInfo, NatFile}
use xcpfs.NatMgmt.Cache.{find, lookup_cached, update_nat}
use xcpfs.NatMgmt.Cache.View.{moved, find-nid, lookup-update_nat}
use xcpfs.NatMgmt.Cache.Count.{NatInv, update_nat-NatInv}
use xcpfs.NatMgmt.Lookup.{lookup_nat}
use xcpfs.NatMgmt.Lookup.Translate.{translate, block_addr_of, node_block}
use xcpfs.Checkpoint.{cp_append_nat}
use xcpfs.Xio.{IoState, IoEnv, Submitted, sent, send_node, submit_node_xio, write_end_io}
use xcpfs.Xio.Nodes.View.{NodesValid, node_block-update, after-NodesValid}

abbrev sent_block : Submitted → ℕ
sent_block (sent new st) = new
sent_block _ = 0

abbrev sent_state : IoState → Submitted → IoState
sent_state other (sent new st) = st
sent_state other _ = other

send_node_lem :
    (P : ℕ → ZmInfo → Type 0) (st : IoState) (nm : NatInfo) (found : Found) (new : ℕ)
    (st' : IoState)
    → Finds P found
    → send_node st nm found ≡ sent new st'
    → P new st'.zm × (st'.nm ≡ nm) × (st'.raw_sb ≡ st.raw_sb)
send_node_lem P st nm (done n zm cpc) new st' p e =
    let state = ap (sent_state st) e in
    (
      subst (λ x. P x st'.zm) (ap sent_block e) (subst (λ s. P n s.zm) state p),
      ap (λ s. s.nm) (sym state),
      ap (λ s. s.raw_sb) (sym state),
    )
send_node_lem P st nm null_deref new st' p e = cc
send_node_lem P st nm spinning new st' p e = cc

-- A listed id is found in the cache, and the lookup changes nothing.
module _ (file : NatFile) (nm : NatInfo) (nid : ℕ) (ne : NatEntry)
    (listed : find nid nm.nat_list ≡ some ne) where
  cached : lookup_cached nm nid ≡ some ne
  unfolding lookup_cached
  cached = ground (arith, listed)

  pub lookup_listed : lookup_nat file nm nid ≡ (some ne, nm)
  unfolding lookup_nat
  lookup_listed = rw (cached, lookup_nat) refl

  listed_update :
      (written : ℕ)
      → find nid (update_nat nm nid written false).1.nat_list ≡ some (moved ne written false)
  unfolding update_nat find
  listed_update written = ground (arith, listed, find-nid nid nm.nat_list ne listed)

module _ (env : IoEnv) (nid : ℕ) (st : IoState) (ne : NatEntry)
    (listed : find nid st.nm.nat_list ≡ some ne) where
  -- The end of the write, with the record for the super block in the second phase of a checkpoint.
  pub end_io_lem :
      (st' : IoState) (written : ℕ)
      → st'.nm ≡ st.nm
      → (st'' : IoState) × (write_end_io env nid written st' ≡ some st'')
        × (st''.nm ≡ (update_nat st.nm nid written false).1)
        × (st''.zm ≡ validate_blkaddr st'.zm written)
  unfolding write_end_io
  end_io_lem st' written same =
      let nm = (update_nat st.nm nid written false).1 in
      let found =
        lookup_listed env.file nm nid (moved ne written false)
          (listed_update env.file st.nm nid ne listed written) in
      elim (Bool-cases (env.cp_locked && (env.cp_phase == 2))) [
        | inl e ↦
            rw (e, same, write_end_io, found)
              (
                _,
                refl,
                ap (λ n. (lookup_nat env.file (update_nat n nid written false).1 nid).1) same
                    ∙ ap (λ r. r.1) found,
                refl,
              )
        | inr e ↦ rw e (_, refl, ap (λ n. (update_nat n nid written false).1) same, refl)
      ]

  -- In the second phase of a checkpoint the node's entry is put into the super block, too.
  pub end_io_recorded :
      (st' : IoState) (written : ℕ)
      → env.cp_locked && (env.cp_phase == 2) ≡ true
      → st'.nm ≡ st.nm
      → (st'' : IoState) × (write_end_io env nid written st' ≡ some st'')
        × (st''.nm ≡ (update_nat st.nm nid written false).1)
        × (st''.raw_sb ≡ cp_append_nat st'.raw_sb (moved ne written false))
  unfolding write_end_io
  end_io_recorded st' written e same =
      let nm = (update_nat st.nm nid written false).1 in
      let found =
        lookup_listed env.file nm nid (moved ne written false)
          (listed_update env.file st.nm nid ne listed written) in
      rw (e, same, write_end_io, found)
        (
          _,
          refl,
          ap (λ n. (lookup_nat env.file (update_nat n nid written false).1 nid).1) same
              ∙ ap (λ r. r.1) found,
          refl,
        )

module _ (env : IoEnv) (op : ReqOp) (writes : is_read op ≡ false) (type : PageType) (nid : ℕ)
    (st : IoState) (ne : NatEntry) (listed : find nid st.nm.nat_list ≡ some ne) where
  abbrev xio : AllocReq
  xio = record { op = op; old_blkaddr = ne.block_addr; type = type }

  abbrev place_found : Found
  place_found = alloc_zone env.bdev env.cp_locked env.rounds xio st.zm st.cpc

  submits : submit_node_xio env op type nid st ≡ send_node st st.nm place_found
  unfolding submit_node_xio
  submits =
      let kept =
        ap (λ r. send_node st r.1 place_found) (lookup_listed env.file st.nm nid ne listed) in
      elim (Bool-cases (ne.block_addr == 0)) [
        | inl e ↦ rw (lookup_listed env.file st.nm nid ne listed, submit_node_xio, e, writes) kept
        | inr e ↦ rw (lookup_listed env.file st.nm nid ne listed, submit_node_xio, e) kept
      ]

  pub submit_lem :
      (new : ℕ) (st' : IoState)
      → submit_node_xio env op type nid st ≡ sent new st'
      → Released st.zm ne.block_addr st'.zm × (st'.nm ≡ st.nm) × (st'.raw_sb ≡ st.raw_sb)
  submit_lem new st' e =
      let (placed, same, sb) =
        send_node_lem (Placed st.zm ne.block_addr (type_code type)) st st.nm place_found new st'
          (alloc_zone-Placed env.bdev env.cp_locked env.rounds xio st.zm st.cpc writes)
          (sym submits ∙ e) in
      (placed.1, same, sb)

  -- A node in use is written, to a block of the device that was not valid when the request was sent:
  -- after the end of the write the node is at that block, every other node is where it was, every
  -- node that has a block has a valid one, and no two nodes share one.
  pub write_end_io-NodesValid :
      NatInv st.nm
      → NodesValid env.file st.nm st.zm
      → (new : ℕ) (st' : IoState) → submit_node_xio env op type nid st ≡ sent new st'
      → (written : ℕ) → is_valid st'.zm written ≡ false
      → (st'' : IoState) × (write_end_io env nid written st' ≡ some st'')
        × NodesValid env.file st''.nm st''.zm
        × NatInv st''.nm
        × ((other : ℕ)
            → node_block env.file st''.nm other
              ≡ (if nid == other then written else node_block env.file st.nm other))
  write_end_io-NodesValid inv v new st' e written unwritten =
      let (released, same, sb) = submit_lem new st' e in
      let (st'', ended, nm, zm) = end_io_lem env nid st ne listed st' written same in
      (
        st'',
        ended,
        rw (nm, zm)
            (after-NodesValid env.file st.nm nid written ne listed st.zm st'.zm v released
              unwritten),
        rw nm (update_nat-NatInv st.nm nid written false inv),
        rw nm (node_block-update env.file st.nm nid written ne listed),
      )
