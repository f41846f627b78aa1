-- ===== src/Truncate/Nids.antt =====
-- The loops of `xcpfs_truncate_blocks` over the nodes of the inode, once `flag` is set.
use xcpfs.Base.{
  ℕ, zero, suc, ◌+◌, ◌≤◌, ◌<◌, ◌≡◌, ◌≢◌, refl, sym, subst, ◌∙◌, ap, true, false, ◌&&◌, some, arith,
  ltb, leb, ◌==◌, ==_iff, if◌then◌else◌, inl, inr, Bool-cases,
}
use mathlib.Core.Bool.{false≢true}
use xcpfs.Base.Table.{update, update_ne}
use xcpfs.NatMgmt.Cache.Count.{NatInv}
use xcpfs.Node.{RawInode, NodeEnv, NodeState}
use xcpfs.Node.View.{node_view}
use xcpfs.Truncate.{drop_nat, recurse_all, Truncating, recurse, drop_nid, drop_nids}
use xcpfs.Truncate.Shrink.{Shrunk, Ids, Ids-Shrunk}

-- What a loop over entries `i` to `i + n` leaves of the inode.
pub record DroppedNids (t t' : Truncating) (i n : ℕ) : Type 0 where
  pub flag : t'.flag ≡ true
  pub offset : t'.offset ≡ t.offset
  pub inode : t'.ri ≡ record t.ri { i_nid = t'.ri.i_nid }
  pub nids : (j : ℕ) → t'.ri.i_nid j ≡ (if leb i j && ltb j (i + n) then 0 else t.ri.i_nid j)

pub DroppedNids-addr :
    (t t' : Truncating) (i n : ℕ) → DroppedNids t t' i n → (j : ℕ) → t'.ri.i_addr j ≡ t.ri.i_addr j
DroppedNids-addr t t' i n d j = ap (λ (r : RawInode). r.i_addr j) d.inode

-- the state after entry `i` has been dropped
abbrev without : Truncating → ℕ → NodeState → Truncating
without t i st = record t { st = st; ri = record t.ri { i_nid = update t.ri.i_nid i 0 } }

-- `Keeps` is what the release of a node keeps of the rest, `Gone` what becomes of the node itself.
module _ (env : NodeEnv) (depth : ℕ) (Keeps : NodeState → NodeState → Type 0)
    (Gone : NodeState → ℕ → Type 0) (shrinks : (a b : NodeState) → Keeps a b → Shrunk env a b)
    (stays : (a : NodeState) → NatInv a.io.nm → Keeps a a)
    (joins : (a b c : NodeState) → Keeps a b → Keeps b c → Keeps a c)
    (lasts : (a b : NodeState) (nid : ℕ) → Keeps a b → Gone a nid → Gone b nid)
    (releases : (nid : ℕ) (st : NodeState)
      → NatInv st.io.nm
      → Ids (node_view env st) depth nid
      → (st' : NodeState) × (recurse_all env depth nid st ≡ some st')
        × Keeps st (drop_nat env st' nid)
        × Gone (drop_nat env st' nid) nid) where
  step :
      (n i : ℕ) (t : Truncating) (st1 : NodeState)
      → t.flag ≡ true
      → (t.ri.i_nid i == 0) ≡ false
      → recurse_all env depth (t.ri.i_nid i) t.st ≡ some st1
      → drop_nids env depth (suc n) i t
        ≡ drop_nids env depth n (i + 1) (without t i (drop_nat env st1 (t.ri.i_nid i)))
  unfolding drop_nids
  step n i t st1 f z e =
      let recursed : recurse env depth (t.ri.i_nid i) t ≡ some (record t { st = st1 }) =
        ground (arith, f, e) in
      let dropped : drop_nid env i (record t { st = st1 })
          ≡ without t i (drop_nat env st1 (t.ri.i_nid i)) =
        ground (arith, f) in
      rw (z, recursed, drop_nids) (ap (drop_nids env depth n (i + 1)) dropped)

  later :
      (t : Truncating) (i j : ℕ) (st : NodeState)
      → Shrunk env t.st st
      → i < j
      → update t.ri.i_nid i 0 j ≢ 0
      → (t.ri.i_nid j ≢ 0 → Ids (node_view env t.st) depth (t.ri.i_nid j))
      → Ids (node_view env st) depth (update t.ri.i_nid i 0 j)
  later t i j st k l m h =
      let same = update_ne t.ri.i_nid i j 0 (omega (arith, l)) in
      rw same (Ids-Shrunk env t.st st depth (t.ri.i_nid j) k (h (λ z. m (same ∙ z))))

  pub drop_nids_lem :
      (n i : ℕ) (t : Truncating)
      → t.flag ≡ true
      → NatInv t.st.io.nm
      → ((j : ℕ)
          → i ≤ j
          → j < i + n
          → t.ri.i_nid j ≢ 0
          → Ids (node_view env t.st) depth (t.ri.i_nid j))
      → (t' : Truncating) × (drop_nids env depth n i t ≡ some t')
        × DroppedNids t t' i n
        × Keeps t.st t'.st
        × ((j : ℕ) → i ≤ j → j < i + n → t.ri.i_nid j ≢ 0 → Gone t'.st (t.ri.i_nid j))
  unfolding drop_nids
  drop_nids_lem zero i t f v h = (
    t,
    refl,
    record { flag = f; offset = refl; inode = refl; nids = λ j. ground arith },
    stays t.st v,
    λ j a b n. absurd (omega (arith, a, b)),
  )
  drop_nids_lem (suc n) i t f v h = elim (Bool-cases (t.ri.i_nid i == 0)) [
    | inl z ↦
        let (t', e, d, k, gone) =
          drop_nids_lem n (i + 1) t f v (λ j a b m. h j (omega (arith, a)) (omega (arith, b)) m) in
        (
          t',
          rw (z, drop_nids) e,
          record {
            flag = d.flag;
            offset = d.offset;
            inode = d.inode;
            nids = λ j. ground (arith, d.nids j, z);
          },
          k,
          λ j a b m. elim (Bool-cases (i == j)) [
            | inl e ↦
                absurd (m (ap t.ri.i_nid (sym ((==_iff i j).0 e)) ∙ (==_iff (t.ri.i_nid i) 0).0 z))
            | inr e ↦ gone j (ground (arith, a, e)) (omega (arith, b)) m
          ],
        )
    | inr z ↦
        let nid = t.ri.i_nid i in
        let (st1, e1, k1, g1) =
          releases nid t.st v
            (h i (omega arith) (omega arith) (λ y. false≢true (sym z ∙ (==_iff nid 0).1 y))) in
        let next = without t i (drop_nat env st1 nid) in
        let smaller = shrinks t.st (drop_nat env st1 nid) k1 in
        let (t', e, d, k, gone) = drop_nids_lem n (i + 1) next f smaller.inv (λ j a b m.
          later t i j (drop_nat env st1 nid) smaller (omega (arith, a)) m
            (h j (omega (arith, a)) (omega (arith, b)))) in
        (
          t',
          step n i t st1 f z e1 ∙ e,
          record {
            flag = d.flag;
            offset = d.offset;
            inode = d.inode;
            nids = λ j. ground (arith, d.nids j);
          },
          joins t.st _ t'.st k1 k,
          λ j a b m. elim (Bool-cases (i == j)) [
            | inl e ↦
                lasts _ t'.st (t.ri.i_nid j) k
                  (subst (λ y. Gone (drop_nat env st1 nid) (t.ri.i_nid y)) ((==_iff i j).0 e) g1)
            | inr e ↦ subst (Gone t'.st) (update_ne t.ri.i_nid i j 0 (ground (arith, e))) (
                gone j (ground (arith, a, e)) (omega (arith, b))
                  (λ y. m (sym (update_ne t.ri.i_nid i j 0 (ground (arith, e))) ∙ y)))
          ],
        )
  ]
