-- ===== src/Node/Dnode/New.antt =====
-- The node that `get_dnode_page` makes for a pointer that is 0.
use xcpfs.Base.{
  ℕ, ◌≡◌, ◌≢◌, refl, subst, ◌∙◌, ap, Bool, true, false, List, [], ◌∷◌, none, some, arith, ◌==◌,
  ==_refl, ==_ne, ==_iff, if◌then◌else◌, inl, inr, Bool-cases,
}
use xcpfs.NatMgmt.Types.{NatEntry, NatInfo}
use xcpfs.NatMgmt.Cache.{find}
use xcpfs.NatMgmt.Lookup.Translate.{translate, node_block}
use xcpfs.NatMgmt.AllocFree.{wrong_area, alloc_free_nat}
use xcpfs.NatMgmt.AllocFree.Fresh.{IsFresh, alloc_free_nat-IsFresh}
use xcpfs.NatMgmt.AllocFree.Assigned.{
  owned, assigned, assigned-NatInv, translate-assigned, listed-assigned, assigned_listed,
}
use xcpfs.Node.{NodePage, NodeEnv, NodeState, keep_page}
use xcpfs.Node.View.{node_view}
use xcpfs.Node.Dnode.{nid_at, set_nid, new_node}
use xcpfs.Node.Dnode.Used.{IsUsed, UsedPath, Ready, Extends}

regular_pos : (nid : ℕ) → wrong_area false nid ≡ false → nid ≢ 0
unfolding wrong_area
regular_pos nid h z = ground (arith, h, z)

set_pointer :
    (top : Bool) (page : NodePage) (o nid : ℕ) → nid_at top (set_nid top page o nid) o ≡ nid
set_pointer true page o nid = ground arith
set_pointer false page o nid = ground arith

-- A pointer that is not 0 is not overwritten by one that was.
kept_pointer :
    (top : Bool) (page : NodePage) (o nid : ℕ) (t : Bool) (slot : ℕ)
    → nid_at top page o ≡ 0
    → nid_at t page slot ≢ 0
    → nid_at t (set_nid top page o nid) slot ≡ nid_at t page slot
kept_pointer true page o nid true slot z n = ground (arith, z, n)
kept_pointer true page o nid false slot z n = refl
kept_pointer false page o nid true slot z n = refl
kept_pointer false page o nid false slot z n = ground (arith, z, n)

kept_addr :
    (top : Bool) (page : NodePage) (o nid slot : ℕ)
    → (set_nid top page o nid).i.i_addr slot ≡ page.i.i_addr slot
kept_addr true page o nid slot = refl
kept_addr false page o nid slot = refl

blank_path :
    (env : NodeEnv) (st : NodeState) (offs : List ℕ) (nid : ℕ)
    → IsUsed env st nid
    → ((slot : ℕ) → (node_view env st nid).ptrs slot ≡ 0)
    → UsedPath env st false offs nid
unfolding UsedPath
blank_path env st [] nid u b = tt
blank_path env st (o ∷ []) nid u b = u
blank_path env st (o ∷ p ∷ rest) nid u b = (u, λ n. absurd (n (b o)))

module _ (env : NodeEnv) (ino : ℕ) (regular : (ino == 1) ≡ false) (top : Bool) (o nid : ℕ)
    (st : NodeState) (r : Ready env st) (used : IsUsed env st nid)
    (zero : nid_at top (node_view env st nid) o ≡ 0) (ne : NatEntry) (nm : NatInfo)
    (found : alloc_free_nat env.io.rounds env.io.file st.io.nm false ≡ some (ne, nm)) where
  abbrev fresh : IsFresh env.io.file st.io.nm false ne nm
  fresh = alloc_free_nat-IsFresh env.io.rounds env.io.file st.io.nm false r.inv ne nm found

  abbrev nm' : NatInfo
  nm' = assigned env.io.rounds env.io.file st.io.nm false r.inv ne nm found ino

  abbrev page : NodePage
  page = set_nid top (node_view env st nid) o ne.nid

  abbrev pub made : NodeState
  made = record (keep_page st nid page) { io = record st.io { nm = nm' } }

  pub makes : new_node env ino top o nid (node_view env st nid) st ≡ some (ne.nid, made)
  unfolding new_node
  makes = rw (regular, found, new_node) refl

  pub made_pos : ne.nid ≢ 0
  made_pos = regular_pos ne.nid fresh.right_area

  differ : nid ≢ ne.nid
  differ e = ground (arith, e, fresh.unused, fresh.held, fresh.address, used.1, used.2)

  used_apart :
      (x : ℕ) → find x st.io.nm.nat_list ≡ none → node_block env.io.file st.io.nm x ≡ 0 → nid ≢ x
  used_apart x f z e = ground (arith, f, z, e, used.1, used.2)

  translate_made :
      (x : ℕ)
      → translate env.io.file nm' x
        ≡ (if ne.nid == x then some (owned ino ne) else translate env.io.file st.io.nm x)
  translate_made = translate-assigned env.io.rounds env.io.file st.io.nm false r.inv ne nm found ino

  view_made : (x : ℕ) → node_view env made x ≡ (if nid == x then page else node_view env st x)
  unfolding node_view
  view_made x = ground (arith, translate_made x, fresh.held, fresh.address)

  view_parent : node_view env made nid ≡ page
  view_parent = view_made nid ∙ rw (==_refl nid) refl

  view_other : (x : ℕ) → nid ≢ x → node_view env made x ≡ node_view env st x
  view_other x n = view_made x ∙ rw (==_ne nid x n) refl

  pub made_pointer : nid_at top (node_view env made nid) o ≡ ne.nid
  made_pointer =
      ap (λ p. nid_at top p o) view_parent ∙ set_pointer top (node_view env st nid) o ne.nid

  parent_pointer :
      (t : Bool) (slot : ℕ)
      → nid_at t (node_view env st nid) slot ≢ 0
      → nid_at t (node_view env made nid) slot ≡ nid_at t (node_view env st nid) slot
  parent_pointer t slot n =
      ap (λ p. nid_at t p slot) view_parent
      ∙ kept_pointer top (node_view env st nid) o ne.nid t slot zero n

  parent_addr :
      (slot : ℕ) → (node_view env made nid).i.i_addr slot ≡ (node_view env st nid).i.i_addr slot
  parent_addr slot =
      ap (λ p. p.i.i_addr slot) view_parent ∙ kept_addr top (node_view env st nid) o ne.nid slot

  pub made-Extends : Extends env st made
  made-Extends = record {
    pointers = λ x t slot n. elim (Bool-cases (nid == x)) [
      | inl e ↦
          subst
            (λ y.
              nid_at t (node_view env st y) slot ≢ 0
              → nid_at t (node_view env made y) slot ≡ nid_at t (node_view env st y) slot)
            ((==_iff nid x).0 e) (parent_pointer t slot) n
      | inr e ↦ ap (λ p. nid_at t p slot) (view_other x (ground (arith, e)))
    ];
    addrs = λ x slot. elim (Bool-cases (nid == x)) [
      | inl e ↦
          subst (λ y. (node_view env made y).i.i_addr slot ≡ (node_view env st y).i.i_addr slot)
            ((==_iff nid x).0 e) (parent_addr slot)
      | inr e ↦ ap (λ p. p.i.i_addr slot) (view_other x (ground (arith, e)))
    ];
    zm = refl;
  }

  listed : (x : ℕ) → find x nm'.nat_list ≡ none → find x st.io.nm.nat_list ≡ none
  listed = listed-assigned env.io.rounds env.io.file st.io.nm false r.inv ne nm found ino

  new_listed : find ne.nid nm'.nat_list ≡ some (owned ino ne)
  new_listed = assigned_listed env.io.rounds env.io.file st.io.nm false r.inv ne nm found ino

  pub made-Ready : Ready env made
  made-Ready = record {
    inv = assigned-NatInv env.io.rounds env.io.file st.io.nm false r.inv ne nm found ino;
    blank = λ x slot f z.
        let same : node_block env.io.file st.io.nm x ≡ 0 =
          ground (arith, z, f, translate_made x, new_listed) in
        let apart : nid ≢ x = λ e. used_apart x (listed x f) same e in
        ap (λ p. p.ptrs slot) (view_other x apart) ∙ r.blank x slot (listed x f) same;
  }

  pub made-IsUsed : IsUsed env made ne.nid
  made-IsUsed = (
    owned ino ne,
    translate_made ne.nid ∙ rw (==_refl ne.nid) refl,
    λ f. ground (arith, f, new_listed),
  )

  pub made-UsedPath : (offs : List ℕ) → UsedPath env made false offs ne.nid
  made-UsedPath offs = blank_path env made offs ne.nid made-IsUsed (λ slot.
      ap (λ p. p.ptrs slot) (view_other ne.nid differ)
      ∙ r.blank ne.nid slot fresh.unused (ground (arith, fresh.held, fresh.address)))
