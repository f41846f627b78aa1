-- ===== src/Truncate/Direct.antt =====
-- The release of a direct node: every block that it addresses is released.
use xcpfs.Base.{
  ℕ, ◌<◌, ◌≡◌, ◌≢◌, refl, sym, subst, ◌∙◌, ap, false, none, some, arith, ◌==◌, ==_iff, ==_refl,
  if◌then◌else◌, ◌⊎◌, inl, inr, Bool-cases,
}
use mathlib.Core.Option.{some-injective}
use xcpfs.Format.{def_nids_per_block}
use xcpfs.ZoneMgmt.Types.{ZmInfo}
use xcpfs.ZoneMgmt.Blocks.Account.{is_valid}
use xcpfs.NatMgmt.Cache.Count.{NatInv}
use xcpfs.Node.{NodeEnv, NodeState}
use xcpfs.Node.View.{node_view, Kept, get_node_page_lem}
use xcpfs.Truncate.{clear_addrs, drop_nat, commit, with_zm, recurse_all}
use xcpfs.Truncate.Clear.{holds_at, clear_addrs_entries, clear_addrs_blocks}
use xcpfs.Truncate.Shrink.{
  Shrunk, Shrunk-refl, Shrunk-trans, Shrunk-drop_nat, view_drop_nat, view_commit, IsKnown-of_ge,
  Ids, recurse_all_lem,
}

-- An address that is taken out of a node is that of a released block.
abbrev pub Lost : NodeEnv → NodeState → NodeState → Type 0
Lost env a b =
    (x s : ℕ)
    → s < def_nids_per_block
    → (node_view env a x).ptrs s ≢ 0
    → ((node_view env b x).ptrs s ≢ 0) ⊎ (is_valid b.io.zm ((node_view env a x).ptrs s) ≡ false)

abbrev pub Releasing : NodeEnv → NodeState → NodeState → Type 0
Releasing env a b = Shrunk env a b × Lost env a b

abbrev pub IsCleared : NodeEnv → NodeState → ℕ → Type 0
IsCleared env st nid = (s : ℕ) → s < def_nids_per_block → (node_view env st nid).ptrs s ≡ 0

pub Releasing-refl : (env : NodeEnv) (a : NodeState) → NatInv a.io.nm → Releasing env a a
Releasing-refl env a v = (Shrunk-refl env a v, λ x s l n. inl n)

pub Releasing-trans :
    (env : NodeEnv) (a b c : NodeState) → Releasing env a b → Releasing env b c → Releasing env a c
Releasing-trans env a b c (h, lost) (k, lost') = (
  Shrunk-trans env a b c h k,
  λ x s l n. elim (lost x s l n) [
    | inr gone ↦ inr (k.valid _ gone)
    | inl n' ↦
        subst (λ p. ((node_view env c x).ptrs s ≢ 0) ⊎ (is_valid c.io.zm p ≡ false)) (h.ptrs x s n')
          (lost' x s l n')
  ],
)

pub IsCleared-lasts :
    (env : NodeEnv) (a b : NodeState) (nid : ℕ)
    → Releasing env a b
    → IsCleared env a nid
    → IsCleared env b nid
IsCleared-lasts env a b nid (k, lost) c s l =
    elim (Bool-cases ((node_view env b nid).ptrs s == 0)) [
      | inl z ↦ (==_iff _ 0).0 z
      | inr z ↦
          let n : (node_view env b nid).ptrs s ≢ 0 = ground (arith, z) in k.ptrs nid s n ∙ c s l
    ]

module _ (env : NodeEnv) (nid : ℕ) (st got : NodeState) (v : NatInv st.io.nm)
    (k : Kept env st got) where
  abbrev cleared : (ℕ → ℕ) × ZmInfo
  cleared = clear_addrs def_nids_per_block 0 (node_view env st nid).ptrs got.io.zm

  -- the state after the node has been released
  abbrev directly : NodeState
  directly = commit (with_zm got cleared.1) nid (node_view env st nid) cleared.0

  module _ (shrunk : Shrunk env st directly) (cached : directly.pages nid ≢ none) where
    after_view :
        (x : ℕ)
        → node_view env (drop_nat env directly nid) x ≡ (
            if nid == x
            then record (node_view env st nid) { ptrs = cleared.0 }
            else node_view env got x)
    after_view x =
        view_drop_nat env directly nid shrunk.inv cached x
        ∙ view_commit env got cleared.1 nid (node_view env st nid) cleared.0 x

    released :
        (s : ℕ)
        → s < def_nids_per_block
        → (node_view env st nid).ptrs s ≢ 0
        → is_valid cleared.1 ((node_view env st nid).ptrs s) ≡ false
    released s l n =
        clear_addrs_blocks def_nids_per_block 0 (node_view env st nid).ptrs got.io.zm _
        ∙ rw
            (holds_at def_nids_per_block 0 (node_view env st nid).ptrs s (omega arith)
              (omega (arith, l)) n)
            refl

    lost : Lost env st (drop_nat env directly nid)
    lost x s l n = elim (Bool-cases (nid == x)) [
      | inl e ↦
          let same = (==_iff nid x).0 e in
          inr (
            subst (λ y. is_valid cleared.1 ((node_view env st y).ptrs s) ≡ false) same
              (released s l (subst (λ y. (node_view env st y).ptrs s ≢ 0) (sym same) n)))
      | inr e ↦
          let here : node_view env (drop_nat env directly nid) x ≡ node_view env got x =
            rw e at (after_view x) in
          inl (λ z. n (ap (λ p. p.ptrs s) (sym (here ∙ k.views x)) ∙ z))
    ]

    is_cleared : IsCleared env (drop_nat env directly nid) nid
    is_cleared s l =
        let here : node_view env (drop_nat env directly nid) nid
            ≡ record (node_view env st nid) { ptrs = cleared.0 } =
          rw (==_refl nid) at (after_view nid) in
        ap (λ p. p.ptrs s) here
        ∙ clear_addrs_entries def_nids_per_block 0 (node_view env st nid).ptrs got.io.zm s
        ∙ ground (arith, l)

    directly_lem :
        Releasing env st (drop_nat env directly nid) × IsCleared env (drop_nat env directly nid) nid
    directly_lem = (
      (
        Shrunk-trans env st directly _ shrunk (Shrunk-drop_nat env directly nid shrunk.inv cached),
        lost,
      ),
      is_cleared,
    )

-- A direct node whose entry in the map is dropped too.
pub releases_direct :
    (env : NodeEnv) (nid : ℕ) (st : NodeState)
    → NatInv st.io.nm
    → Ids (node_view env st) 0 nid
    → (st' : NodeState) × (recurse_all env 0 nid st ≡ some st')
      × Releasing env st (drop_nat env st' nid)
      × IsCleared env (drop_nat env st' nid) nid
unfolding recurse_all Ids
releases_direct env nid st v h =
    let (got, e, k, there) = get_node_page_lem env nid st v (IsKnown-of_ge env st nid h) in
    let (st', e', shrunk, cached) = recurse_all_lem env 0 nid st v h in
    let is : recurse_all env 0 nid st ≡ some (directly env nid st got v k) =
      rw (e, recurse_all) refl in
    let same = some-injective st' (directly env nid st got v k) (sym e' ∙ is) in
    let done =
      directly_lem env nid st got v k (subst (Shrunk env st) same shrunk)
        (subst (λ s. s.pages nid ≢ none) same cached) in
    (directly env nid st got v k, is, done.0, done.1)
