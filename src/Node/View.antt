-- ===== src/Node/View.antt =====
-- What a node page holds, wherever it is: getting a page changes this for no node.
use xcpfs.Base.{
  ℕ, ◌/◌, ◌≡◌, ◌≢◌, refl, sym, ◌∙◌, ap, fun_ext, Option, none, some, arith, ◌==◌, if◌then◌else◌,
  inl, inr, Bool-cases, Option-cases,
}
use xcpfs.Base.Table.{update_self}
use xcpfs.ZoneMgmt.Device.{read}
use xcpfs.ZoneMgmt.Alloc.{alloc_zone}
use xcpfs.NatMgmt.Types.{NatEntry, NatInfo, NatFile}
use xcpfs.Format.{PageType, nat_entry_per_block}
use xcpfs.NatMgmt.Cache.{find, lookup_cached}
use xcpfs.NatMgmt.Cache.Count.{NatInv}
use xcpfs.NatMgmt.AllocFree.Fresh.{listed-load_nat_block}
use xcpfs.NatMgmt.Lookup.{lookup_nat}
use xcpfs.NatMgmt.Lookup.Translate.{translate, node_block, lookup_nat-translate}
use xcpfs.Meta.Pages.{get_page_type}
use xcpfs.Xio.{IoState, IoEnv, sent, zeroed, submit_node_xio}
use xcpfs.Node.{
  NodePage, zero_node, page_or, NodeEnv, NodeState, keep_page, read_node_page, get_node_page,
}

-- what the device holds for a node whose block is `addr`
unfoldable pub stored : NodeEnv → ℕ → NodePage
stored env addr = if addr == 0 then zero_node else env.disk addr

-- the page that is up to date, or else what the device holds
unfoldable pub node_view : NodeEnv → NodeState → ℕ → NodePage
node_view env st nid = page_or (st.pages nid) (stored env (node_block env.io.file st.io.nm nid))

abbrev pub entry_of : NodeEnv → NodeState → ℕ → Option NatEntry
entry_of env st nid = translate env.io.file st.io.nm nid

-- the node id is in the map
abbrev pub IsKnown : NodeEnv → NodeState → ℕ → Type 0
IsKnown env st nid = (ne : NatEntry) × (entry_of env st nid ≡ some ne)

-- What getting a page leaves as it was: what each node holds, the map of addresses, the zones and
-- the checkpoint.
pub record Kept (env : NodeEnv) (st st' : NodeState) : Type 0 where
  pub views : (nid : ℕ) → node_view env st' nid ≡ node_view env st nid
  pub entries : (nid : ℕ) → entry_of env st' nid ≡ entry_of env st nid
  pub inv : NatInv st'.io.nm
  pub listed : (nid : ℕ) → find nid st'.io.nm.nat_list ≡ none → find nid st.io.nm.nat_list ≡ none
  pub cached : (nid : ℕ) → st.pages nid ≢ none → st'.pages nid ≢ none
  pub zm : st'.io.zm ≡ st.io.zm
  pub cpc : st'.io.cpc ≡ st.io.cpc
  pub raw_sb : st'.io.raw_sb ≡ st.io.raw_sb

listed-lookup_nat :
    (file : NatFile) (nm : NatInfo) (nid other : ℕ)
    → find other (lookup_nat file nm nid).1.nat_list ≡ none
    → find other nm.nat_list ≡ none
unfolding lookup_nat
listed-lookup_nat file nm nid other h = elim (Option-cases (lookup_cached nm nid)) [
  | inl e ↦
      listed-load_nat_block file nm (nid / nat_entry_per_block) other (rw (e, lookup_nat) at h)
  | inr (ne, e) ↦ rw (e, lookup_nat) at h
]

submit_read :
    (env : IoEnv) (type : PageType) (nid : ℕ) (st : IoState) (ne : NatEntry)
    → (lookup_nat env.file st.nm nid).0 ≡ some ne
    → submit_node_xio env read type nid st ≡ (
        if ne.block_addr == 0
        then zeroed (record st { nm = (lookup_nat env.file st.nm nid).1 })
        else sent ne.block_addr (record st { nm = (lookup_nat env.file st.nm nid).1 }))
unfolding submit_node_xio alloc_zone
submit_read env type nid st ne e = ground (arith, e)

pub view-keep_page :
    (env : NodeEnv) (st : NodeState) (nid : ℕ) (page : NodePage) (other : ℕ)
    → node_view env (keep_page st nid page) other
      ≡ (if nid == other then page else node_view env st other)
unfolding node_view
view-keep_page env st nid page other = ground arith

module _ (env : NodeEnv) (nid : ℕ) (st : NodeState) (v : NatInv st.io.nm) (ne : NatEntry)
    (known : entry_of env st nid ≡ some ne) where
  abbrev looked : NatInfo
  looked = (lookup_nat env.io.file st.io.nm nid).1

  abbrev page : NodePage
  page = stored env ne.block_addr

  -- the state after a read
  abbrev after : NodeState
  after = keep_page (record st { io = record st.io { nm = looked } }) nid page

  reads : read_node_page env nid st ≡ some (page, after)
  unfolding read_node_page stored
  reads =
      let e =
        submit_read env.io (get_page_type env.meta_ino env.node_ino env.node_ino nid) nid st.io ne
          ((lookup_nat-translate env.io.file st.io.nm nid v).0 ∙ known) in
      elim (Bool-cases (ne.block_addr == 0)) [
        | inl z ↦ rw (e, read_node_page, z) refl
        | inr z ↦ rw (e, read_node_page, z) refl
      ]

  view_missing : st.pages nid ≡ none → node_view env st nid ≡ page
  unfolding node_view
  view_missing e = ground (arith, e, known)

  view_after :
      st.pages nid ≡ none → (other : ℕ) → node_view env after other ≡ node_view env st other
  unfolding node_view
  view_after e other =
      ground (arith, e, known, (lookup_nat-translate env.io.file st.io.nm nid v).1.1.0 other)

  kept : st.pages nid ≡ none → Kept env st after
  kept e =
      let found = lookup_nat-translate env.io.file st.io.nm nid v in
      record {
        views = view_after e;
        entries = λ other. found.1.1.0 other;
        inv = found.1.1.1;
        listed = listed-lookup_nat env.io.file st.io.nm nid;
        cached = λ other n f. ground (arith, n, f);
        zm = refl;
        cpc = refl;
        raw_sb = refl;
      }

view_there :
    (env : NodeEnv) (st : NodeState) (nid : ℕ) (page : NodePage)
    → st.pages nid ≡ some page
    → node_view env st nid ≡ page
unfolding node_view
view_there env st nid found e =
    ap (λ o. page_or o (stored env (node_block env.io.file st.io.nm nid))) e

pub Kept-refl : (env : NodeEnv) (st : NodeState) → NatInv st.io.nm → Kept env st st
Kept-refl env st v = record {
  views = λ other. refl;
  entries = λ other. refl;
  inv = v;
  listed = λ other h. h;
  cached = λ other n. n;
  zm = refl;
  cpc = refl;
  raw_sb = refl;
}

pub same_views :
    (env : NodeEnv) (st st' : NodeState) → Kept env st st' → node_view env st' ≡ node_view env st
same_views env st st' k = fun_ext k.views

-- A page that is up to date is got as it is.
pub cached_page :
    (env : NodeEnv) (nid : ℕ) (st : NodeState) (found : NodePage)
    → st.pages nid ≡ some found
    → get_node_page env nid st ≡ some (found, st)
unfolding get_node_page
cached_page env nid st found e = rw (e, get_node_page) refl

-- A page is got for every node that is in the map: it holds what the page cache or else the device
-- has for the node, and that stays so for every node.
pub get_node_page_lem :
    (env : NodeEnv) (nid : ℕ) (st : NodeState)
    → NatInv st.io.nm
    → IsKnown env st nid
    → (st' : NodeState) × (get_node_page env nid st ≡ some (node_view env st nid, st'))
      × Kept env st st'
      × (st'.pages nid ≡ some (node_view env st nid))
unfolding get_node_page
get_node_page_lem env nid st v (ne, known) = elim (Option-cases (st.pages nid)) [
  | inl e ↦
      rw (e, get_node_page, view_missing env nid st v ne known e)
        (
          after env nid st v ne known,
          reads env nid st v ne known,
          kept env nid st v ne known e,
          update_self st.pages nid (some (page env nid st v ne known)),
        )
  | inr (page, e) ↦
      rw (e, get_node_page)
        (
          st,
          ap (λ p. some (p, st)) (sym (view_there env st nid page e)),
          Kept-refl env st v,
          e ∙ ap some (sym (view_there env st nid page e)),
        )
]
