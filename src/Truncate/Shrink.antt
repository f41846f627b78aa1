-- ===== src/Truncate/Shrink.antt =====
-- The release of whole nodes: what it takes away, and that it comes to an end.
use xcpfs.Base.{
  ℕ, zero, suc, ◌+◌, ◌-◌, ◌≤◌, ◌≡◌, ◌≢◌, refl, ◌∙◌, ap, false, ◌&&◌, Option, none, some, arith, ltb,
  leb, ◌==◌, ==_iff, if◌then◌else◌, inl, inr, Bool-cases, Option-cases, ◌/◌, ◌%◌,
}
use xcpfs.Base.Table.{update}
use xcpfs.Format.{def_nids_per_block, nat_entry_per_block}
use xcpfs.ZoneMgmt.Types.{ZmInfo}
use xcpfs.ZoneMgmt.Blocks.Account.{is_valid}
use xcpfs.NatMgmt.Cache.{lookup_cached, fresh_entry}
use xcpfs.NatMgmt.Cache.Count.{NatInv}
use xcpfs.NatMgmt.Lookup.Translate.{translate, invalidate_nat-translate}
use xcpfs.Node.{NodePage, NodeEnv, NodeState}
use xcpfs.Node.View.{node_view, IsKnown, Kept, get_node_page_lem}
use xcpfs.Truncate.{clear_addrs, drop_nat, drop_children, commit, with_zm, recurse_all}
use xcpfs.Truncate.Clear.{holds, clear_addrs_entries, clear_addrs_blocks}

-- Pointers are taken away and blocks released, nothing else.
pub record Shrunk (env : NodeEnv) (st st' : NodeState) : Type 0 where
  pub inv : NatInv st'.io.nm
  pub ptrs :
      (x s : ℕ)
      → (node_view env st' x).ptrs s ≢ 0
      → (node_view env st' x).ptrs s ≡ (node_view env st x).ptrs s
  pub inodes : (x : ℕ) → (node_view env st' x).i ≡ (node_view env st x).i
  pub valid : (x : ℕ) → is_valid st.io.zm x ≡ false → is_valid st'.io.zm x ≡ false
  pub cached : (x : ℕ) → st.pages x ≢ none → st'.pages x ≢ none

pub Shrunk-refl : (env : NodeEnv) (st : NodeState) → NatInv st.io.nm → Shrunk env st st
Shrunk-refl env st v = record {
  inv = v;
  ptrs = λ x s n. refl;
  inodes = λ x. refl;
  valid = λ x e. e;
  cached = λ x n. n;
}

pub Shrunk-trans :
    (env : NodeEnv) (a b c : NodeState) → Shrunk env a b → Shrunk env b c → Shrunk env a c
Shrunk-trans env a b c h k = record {
  inv = k.inv;
  ptrs = λ x s n. let same = k.ptrs x s n in same ∙ h.ptrs x s (λ z. n (same ∙ z));
  inodes = λ x. k.inodes x ∙ h.inodes x;
  valid = λ x e. k.valid x (h.valid x e);
  cached = λ x n. k.cached x (h.cached x n);
}

pub Shrunk-Kept : (env : NodeEnv) (st st' : NodeState) → Kept env st st' → Shrunk env st st'
Shrunk-Kept env st st' k = record {
  inv = k.inv;
  ptrs = λ x s n. ap (λ p. p.ptrs s) (k.views x);
  inodes = λ x. ap (λ p. p.i) (k.views x);
  valid = λ x e. ap (λ z. is_valid z x) k.zm ∙ e;
  cached = k.cached;
}

-- An id of the regular area or of the table is always in the map.
pub IsKnown-of_ge : (env : NodeEnv) (st : NodeState) (nid : ℕ) → 3 ≤ nid → IsKnown env st nid
unfolding translate
IsKnown-of_ge env st nid h =
    let raw = env.io.file (nid / nat_entry_per_block) (nid % nat_entry_per_block) in
    elim (Option-cases (lookup_cached st.io.nm nid)) [
      | inl e ↦ (fresh_entry nid raw.ino raw.block_addr false, ground (arith, e, h))
      | inr (ne, e) ↦ (ne, ground (arith, e))
    ]

pub view_drop_nat :
    (env : NodeEnv) (st : NodeState) (nid : ℕ)
    → NatInv st.io.nm
    → st.pages nid ≢ none
    → (x : ℕ) → node_view env (drop_nat env st nid) x ≡ node_view env st x
unfolding node_view
view_drop_nat env st nid v n x =
    ground (arith, n, (invalidate_nat-translate env.io.file st.io.nm nid v x).0)

pub Shrunk-drop_nat :
    (env : NodeEnv) (st : NodeState) (nid : ℕ)
    → NatInv st.io.nm
    → st.pages nid ≢ none
    → Shrunk env st (drop_nat env st nid)
Shrunk-drop_nat env st nid v n = record {
  inv = (invalidate_nat-translate env.io.file st.io.nm nid v nid).1.1;
  ptrs = λ x s _. ap (λ p. p.ptrs s) (view_drop_nat env st nid v n x);
  inodes = λ x. ap (λ p. p.i) (view_drop_nat env st nid v n x);
  valid = λ x e. e;
  cached = λ x m. m;
}

pub view_commit :
    (env : NodeEnv) (st : NodeState) (zm : ZmInfo) (nid : ℕ) (page : NodePage) (ptrs : ℕ → ℕ)
    (x : ℕ)
    → node_view env (commit (with_zm st zm) nid page ptrs) x
      ≡ (if nid == x then record page { ptrs = ptrs } else node_view env st x)
unfolding node_view
view_commit env st zm nid page ptrs x = ground arith

-- The page of a node written back with fewer pointers than it had at first.
pub Shrunk-commit :
    (env : NodeEnv) (base st : NodeState) (zm : ZmInfo) (nid : ℕ) (page : NodePage) (ptrs : ℕ → ℕ)
    → Shrunk env base st
    → page.i ≡ (node_view env base nid).i
    → ((s : ℕ) → ptrs s ≢ 0 → ptrs s ≡ (node_view env base nid).ptrs s)
    → ((x : ℕ) → is_valid st.io.zm x ≡ false → is_valid zm x ≡ false)
    → Shrunk env base (commit (with_zm st zm) nid page ptrs)
Shrunk-commit env base st zm nid page ptrs k i fewer valid =
    let after = commit (with_zm st zm) nid page ptrs in
    let seen = view_commit env st zm nid page ptrs in
    record {
      inv = k.inv;
      ptrs = λ x s n. elim (Bool-cases (nid == x)) [
        | inl e ↦
            let at_x : node_view env after x ≡ record page { ptrs = ptrs } = rw e at (seen x) in
            let here = ap (λ p. p.ptrs s) at_x in
            here
            ∙ fewer s (λ z. n (here ∙ z))
            ∙ ap (λ y. (node_view env base y).ptrs s) ((==_iff nid x).0 e)
        | inr e ↦
            let at_x : node_view env after x ≡ node_view env st x = rw e at (seen x) in
            let here = ap (λ p. p.ptrs s) at_x in here ∙ k.ptrs x s (λ z. n (here ∙ z))
      ];
      inodes = λ x. elim (Bool-cases (nid == x)) [
        | inl e ↦
            let at_x : node_view env after x ≡ record page { ptrs = ptrs } = rw e at (seen x) in
            ap (λ p. p.i) at_x ∙ i ∙ ap (λ y. (node_view env base y).i) ((==_iff nid x).0 e)
        | inr e ↦
            let at_x : node_view env after x ≡ node_view env st x = rw e at (seen x) in
            ap (λ p. p.i) at_x ∙ k.inodes x
      ];
      valid = λ x e. valid x (k.valid x e);
      cached = λ x n f. ground (arith, k.cached x n, f);
    }

-- The nodes below one, `depth` levels of them, have ids that are never NULL in the map.
unfoldable pub Ids : (ℕ → NodePage) → ℕ → ℕ → Type 0
Ids view zero nid = 3 ≤ nid
Ids view (suc depth) nid =
    (3 ≤ nid) × ((slot : ℕ) → (view nid).ptrs slot ≢ 0 → Ids view depth ((view nid).ptrs slot))

pub Ids-ge : (view : ℕ → NodePage) (depth nid : ℕ) → Ids view depth nid → 3 ≤ nid
unfolding Ids
Ids-ge view zero nid h = h
Ids-ge view (suc depth) nid h = h.0

pub Ids-Shrunk :
    (env : NodeEnv) (st st' : NodeState) (depth nid : ℕ)
    → Shrunk env st st'
    → Ids (node_view env st) depth nid
    → Ids (node_view env st') depth nid
unfolding Ids
Ids-Shrunk env st st' zero nid k h = h
Ids-Shrunk env st st' (suc depth) nid k h = (
  h.0,
  λ slot n.
      let same = k.ptrs nid slot n in
      rw same (
        Ids-Shrunk env st st' depth ((node_view env st nid).ptrs slot) k
          (h.1 slot (λ z. n (same ∙ z)))),
)

-- what the release of a node and of all that is below it comes to
abbrev pub Releases : NodeEnv → NodeState → ℕ → Option NodeState → Type 0
Releases env st nid r =
    (st' : NodeState) × (r ≡ some st') × Shrunk env st st' × (st'.pages nid ≢ none)

pub Ids-kept :
    (env : NodeEnv) (depth : ℕ) (st st' : NodeState)
    → Shrunk env st st'
    → (i j : ℕ) (nids : ℕ → ℕ) → ((j : ℕ) → nids j ≢ 0 → Ids (node_view env st) depth (nids j))
    → update nids i 0 j ≢ 0
    → Ids (node_view env st') depth (update nids i 0 j)
Ids-kept env depth st st' k i j nids h m = elim (Bool-cases (i == j)) [
  | inl e ↦ absurd (m (rw e refl))
  | inr e ↦ rw e (Ids-Shrunk env st st' depth (nids j) k (h j (λ z. m (rw e z))))
]

pub drop_children_lem :
    (env : NodeEnv) (depth : ℕ) (child : ℕ → NodeState → Option NodeState)
    → ((nid : ℕ) (st : NodeState)
        → NatInv st.io.nm
        → Ids (node_view env st) depth nid
        → Releases env st nid (child nid st))
    → (n i : ℕ) (nids : ℕ → ℕ) (st : NodeState) → NatInv st.io.nm
    → ((j : ℕ) → nids j ≢ 0 → Ids (node_view env st) depth (nids j))
    → (nids' : ℕ → ℕ) × (st' : NodeState) × (drop_children env child n i nids st
        ≡ some (nids', st'))
      × Shrunk env st st'
      × ((j : ℕ) → nids' j ≡ (if leb i j && ltb j (i + n) then 0 else nids j))
unfolding drop_children
drop_children_lem env depth child good zero i nids st v h =
    (nids, st, refl, Shrunk-refl env st v, λ j. ground arith)
drop_children_lem env depth child good (suc n) i nids st v h = elim (Bool-cases (nids i == 0)) [
  | inl z ↦
      let (nids', st', e, k, all) = drop_children_lem env depth child good n (i + 1) nids st v h in
      (nids', st', rw (z, drop_children) e, k, λ j. ground (arith, all j, z))
  | inr z ↦
      let (st1, e1, k1, there) = good (nids i) st v (h i (ground (arith, z))) in
      let dropped = Shrunk-drop_nat env st1 (nids i) k1.inv there in
      let k2 = Shrunk-trans env st st1 (drop_nat env st1 (nids i)) k1 dropped in
      let (nids', st', e, k, all) =
        drop_children_lem env depth child good n (i + 1) (update nids i 0)
          (drop_nat env st1 (nids i)) dropped.inv
          (λ j m. Ids-kept env depth st (drop_nat env st1 (nids i)) k2 i j nids h m) in
      (
        nids',
        st',
        rw (z, e1, drop_children) e,
        Shrunk-trans env st _ st' k2 k,
        λ j. ground (arith, all j),
      )
]

pub cleared_kept :
    (n i : ℕ) (addr : ℕ → ℕ) (zm : ZmInfo) (s : ℕ)
    → (clear_addrs n i addr zm).0 s ≢ 0
    → (clear_addrs n i addr zm).0 s ≡ addr s
cleared_kept n i addr zm s h = ground (arith, h, clear_addrs_entries n i addr zm s)

pub released_stays :
    (n i : ℕ) (addr : ℕ → ℕ) (zm : ZmInfo) (x : ℕ)
    → is_valid zm x ≡ false
    → is_valid (clear_addrs n i addr zm).1 x ≡ false
released_stays n i addr zm x f =
    clear_addrs_blocks n i addr zm x
    ∙ elim (Bool-cases (holds n i addr x)) [ inl e ↦ rw e refl | inr e ↦ rw e f ]

pub committed :
    (st : NodeState) (nid : ℕ) (page : NodePage) (ptrs : ℕ → ℕ)
    → (commit st nid page ptrs).pages nid ≢ none
committed st nid page ptrs f = ground (arith, f)

-- A node is released with all that is below it; an indirect node goes on as it was for its first
-- entry.
pub recurse_all_lem :
    (env : NodeEnv) (depth nid : ℕ) (st : NodeState)
    → NatInv st.io.nm
    → Ids (node_view env st) depth nid
    → Releases env st nid (recurse_all env depth nid st)
unfolding recurse_all Ids
recurse_all_lem env zero nid st v h =
    let (got, e, k, there) = get_node_page_lem env nid st v (IsKnown-of_ge env st nid h) in
    let page = node_view env st nid in
    let cleared = clear_addrs def_nids_per_block 0 page.ptrs got.io.zm in
    let done =
      Shrunk-commit env st got cleared.1 nid page cleared.0 (Shrunk-Kept env st got k) refl
        (λ s n. cleared_kept def_nids_per_block 0 page.ptrs got.io.zm s n)
        (λ x f. released_stays def_nids_per_block 0 page.ptrs got.io.zm x f) in
    (
      commit (with_zm got cleared.1) nid page cleared.0,
      rw (e, recurse_all) refl,
      done,
      committed (with_zm got cleared.1) nid page cleared.0,
    )
recurse_all_lem env (suc depth) nid st v h =
    let (got, e, k, there) = get_node_page_lem env nid st v (IsKnown-of_ge env st nid h.0) in
    let page = node_view env st nid in
    let shrunk = Shrunk-Kept env st got k in
    let (nids, st1, e1, k1, all) =
      drop_children_lem env depth (recurse_all env depth) (recurse_all_lem env depth)
        (def_nids_per_block - 1) 1 page.ptrs got k.inv
        (λ j n. Ids-Shrunk env st got depth (page.ptrs j) shrunk (h.1 j n)) in
    let k2 = Shrunk-trans env st got st1 shrunk k1 in
    let done =
      Shrunk-commit env st st1 st1.io.zm nid page nids k2 refl (λ s n. ground (arith, all s, n))
        (λ x f. f) in
    (commit st1 nid page nids, rw (e, e1, recurse_all) refl, done, committed st1 nid page nids)
