-- ===== src/Node/Dnode/Create.antt =====
-- A writer's `get_dnode_page`, which makes the nodes that are missing.
use xcpfs.Base.{
  ℕ, ◌≡◌, ◌≢◌, refl, sym, subst, ◌∙◌, ap, Bool, true, false, List, [], ◌∷◌, none, some, arith, ◌==◌,
  ==_ne, inl, inr, Bool-cases, Option-cases,
}
use xcpfs.NatMgmt.Types.{NatInfo}
use xcpfs.NatMgmt.Cache.Count.{NatInv}
use xcpfs.NatMgmt.AllocFree.{alloc_free_nat}
use xcpfs.Meta.Path.{BlockPath, in_inode, direct, indirect, double_indirect, get_path}
use xcpfs.Node.{NodePage, NodeEnv, NodeState}
use xcpfs.Node.View.{node_view, IsKnown, get_node_page_lem}
use xcpfs.Node.Dnode.{
  offsets, nid_at, addr_at, Dnode, dnode, no_dnode, null_nat, searching, new_node, descend,
  get_dnode_page,
}
use xcpfs.Node.Dnode.Walk.{Place, walk, place_addr}
use xcpfs.Node.Dnode.Used.{
  IsUsed, UsedPath, Ready, Extends, Extends-Kept, Extends-trans, UsedPath-Kept, Ready-Kept,
  IsUsed-Kept,
}
use xcpfs.Node.Dnode.New.{
  made, makes, made_pos, made_pointer, made-Extends, made-Ready, made-UsedPath,
}

-- What a writer is answered: the node at the end of the path, which is there now; or no answer,
-- where the search for a free id needs more rounds. It is never an error.
abbrev pub Created : NodeEnv → NodeState → Bool → List ℕ → ℕ → Dnode → Type 0
Created env st top offs nid (dnode d need st') =
    ((place : Place) × (walk (node_view env st') top offs nid ≡ some place)
      × (place.node ≡ d)
      × (need ≡ (place_addr (node_view env st') place == 0)))
    × Extends env st st'
    × Ready env st'
Created env st top offs nid (no_dnode err st') = ⊥
Created env st top offs nid null_nat = ⊥
Created env st top offs nid searching =
    (nm : NatInfo) × NatInv nm × (alloc_free_nat env.io.rounds env.io.file nm false ≡ none)

-- From the node below to this one.
lift :
    (env : NodeEnv) (st mid : NodeState) (top : Bool) (o p : ℕ) (rest : List ℕ) (nid next : ℕ)
    → Extends env st mid
    → nid_at top (node_view env mid nid) o ≡ next
    → next ≢ 0
    → (r : Dnode) → Created env mid false (p ∷ rest) next r
    → Created env st top (o ∷ p ∷ rest) nid r
unfolding walk
lift env st mid top o p rest nid next x e n (dnode d need st') ((place, w, same, is_new), x', r) =
    let pointer = x'.pointers nid top o (λ z. n (sym e ∙ z)) ∙ e in
    ((place, rw (pointer, ==_ne next 0 n) w, same, is_new), Extends-trans env st mid st' x x', r)
lift env st mid top o p rest nid next x e n (no_dnode err st') h = h
lift env st mid top o p rest nid next x e n null_nat h = h
lift env st mid top o p rest nid next x e n searching h = h

module _ (env : NodeEnv) (ino : ℕ) (regular : (ino == 1) ≡ false) where
  known : (st : NodeState) (nid : ℕ) → IsUsed env st nid → IsKnown env st nid
  known st nid u = (u.0, u.1)

  fails :
      (top : Bool) (o nid : ℕ) (page : NodePage) (st : NodeState)
      → alloc_free_nat env.io.rounds env.io.file st.io.nm false ≡ none
      → new_node env ino top o nid page st ≡ none
  unfolding new_node
  fails top o nid page st e = rw (regular, e, new_node) refl

  -- the answer from a node whose pointer at `o` is 0
  below_new : Bool → ℕ → ℕ → List ℕ → ℕ → NodePage → NodeState → Dnode
  below_new top o p rest nid page got = elim (new_node env ino top o nid page got) [
    | none ↦ searching
    | some (new, made) ↦ descend env true ino false (p ∷ rest) new made
  ]

  descend_creates :
      (rest : List ℕ) (top : Bool) (o nid : ℕ) (st : NodeState)
      → Ready env st
      → UsedPath env st top (o ∷ rest) nid
      → Created env st top (o ∷ rest) nid (descend env true ino top (o ∷ rest) nid st)
  unfolding descend UsedPath walk below_new
  descend_creates [] top o nid st r u =
      let (got, e, k, there) = get_node_page_lem env nid st r.inv (known st nid u) in
      rw (e, descend)
        (
          (
            record { node = nid; top = top; slot = o },
            refl,
            refl,
            ap (λ page. addr_at top page o == 0) (sym (k.views nid)),
          ),
          Extends-Kept env st got k,
          Ready-Kept env st got k r,
        )
  descend_creates (p ∷ rest) top o nid st r u =
      let (got, e, k, there) = get_node_page_lem env nid st r.inv (known st nid u.0) in
      let next = nid_at top (node_view env st nid) o in
      let x = Extends-Kept env st got k in
      let r' = Ready-Kept env st got k r in
      elim (Bool-cases (next == 0)) [
        | inr z ↦
            let n : next ≢ 0 = ground (arith, z) in
            rw (e, descend, z)
              (lift env st got top o p rest nid next x
                (ap (λ page. nid_at top page o) (k.views nid)) n _
                (descend_creates rest false p next got r'
                  (UsedPath-Kept env st got false (p ∷ rest) next k (u.1 n))))
        | inl z ↦
            let page = k.views nid in
            let zero : nid_at top (node_view env got nid) o ≡ 0 = ground (arith, z, page) in
            let used = IsUsed-Kept env st got nid k u.0 in
            rw (e, descend, z)
              (subst (λ q. Created env st top (o ∷ p ∷ rest) nid (below_new top o p rest nid q got))
                page
                (elim (Option-cases (alloc_free_nat env.io.rounds env.io.file got.io.nm false)) [
                  | inl f ↦
                      rw (fails top o nid (node_view env got nid) got f, below_new)
                        (got.io.nm, r'.inv, f)
                  | inr ((ne, nm), f) ↦
                      rw (makes env ino regular top o nid got r' used zero ne nm f, below_new)
                        (lift env st (made env ino regular top o nid got r' used zero ne nm f) top o
                          p rest nid ne.nid
                          (Extends-trans env st got _ x
                            (made-Extends env ino regular top o nid got r' used zero ne nm f))
                          (made_pointer env ino regular top o nid got r' used zero ne nm f)
                          (made_pos env ino regular top o nid got r' used zero ne nm f) _
                          (descend_creates rest false p ne.nid
                            (made env ino regular top o nid got r' used zero ne nm f)
                            (made-Ready env ino regular top o nid got r' used zero ne nm f)
                            (made-UsedPath env ino regular top o nid got r' used zero ne nm f
                              (p ∷ rest))))
                ]))
      ]

  -- A writer of a regular file gets the node at the end of the block's path, with `need` set where
  -- the block has no address yet: every node on the path is there now, and every pointer and every
  -- address that was in a node before is still there. (Or a search for a free id does not end in
  -- its rounds.) No error is possible.
  pub get_dnode_page-Created :
      (iblock : ℕ) (st : NodeState)
      → Ready env st
      → UsedPath env st true (offsets (get_path iblock)) ino
      → Created env st true (offsets (get_path iblock)) ino (get_dnode_page env true ino iblock st)
  unfolding get_dnode_page
  get_dnode_page-Created iblock st r u = from_path (get_path iblock) u
    where
      from_path :
          (path : BlockPath)
          → UsedPath env st true (offsets path) ino
          → Created env st true (offsets path) ino (descend env true ino true (offsets path) ino st)
      from_path (in_inode a) u = descend_creates [] true a ino st r u
      from_path (direct a b) u = descend_creates (b ∷ []) true a ino st r u
      from_path (indirect a b c) u = descend_creates (b ∷ c ∷ []) true a ino st r u
      from_path (double_indirect a b c d) u = descend_creates (b ∷ c ∷ d ∷ []) true a ino st r u
