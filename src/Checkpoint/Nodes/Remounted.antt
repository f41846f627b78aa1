-- ===== src/Checkpoint/Nodes/Remounted.antt =====
-- What the next mount finds of the nodes that a checkpoint has written last.
use xcpfs.Base.{
  ℕ, ◌≡◌, ◌≢◌, refl, sym, subst, ◌∙◌, ap, Bool, true, false, ◌&&◌, ◌||◌, List, [], ◌∷◌, Option,
  none, some, length, arith, ◌==◌, if◌then◌else◌, inl, inr, Option-cases, Bool-cases,
}
use mathlib.Core.Bool.{false≢true}
use mathlib.Core.Option.{some-injective}
use xcpfs.Base.Table.{update}
use xcpfs.Format.{PageType}
use xcpfs.ZoneMgmt.Device.{zone_append}
use xcpfs.ZoneMgmt.Blocks.Owners.{Owners, released-Owners, written-Owners, same-Owners}
use xcpfs.ZoneMgmt.Blocks.Account.{is_valid}
use xcpfs.NatMgmt.Types.{NatEntry, NatInfo}
use xcpfs.NatMgmt.Cache.{find, update_nat}
use xcpfs.NatMgmt.Cache.View.{moved, find-nid, find-delete_ne}
use xcpfs.NatMgmt.Cache.Count.{NatInv, update_nat-NatInv}
use xcpfs.NatMgmt.Lookup.Translate.{node_block}
use xcpfs.Checkpoint.Remount.{append_all, last_addr, AllPlaced}
use xcpfs.Checkpoint.Nodes.{Writes, waited, submit, end_write, is_written}
use xcpfs.Xio.{IoState, IoEnv, sent, submit_node_xio, write_end_io}
use xcpfs.Xio.Nodes.{submit_lem, end_io_lem, end_io_recorded}
use xcpfs.Xio.Nodes.View.{NodesValid, node_block-listed, node_block-update}

-- no id and no block is 0
abbrev pub AllNonzero : List (ℕ × ℕ) → Type 0
AllNonzero [] = Unit {0}
AllNonzero ((nid, written) ∷ rest) = (nid ≢ 0) × (written ≢ 0) × AllNonzero rest

-- the ids that are written are in use
abbrev pub AllListed : IoState → List (ℕ × ℕ) → Type 0
AllListed st ws = (nid : ℕ) → is_written nid ws ≡ true → find nid st.nm.nat_list ≢ none

-- What a sequence of writes leaves: the entries that were put into the super block, and where the
-- nodes are.
pub record Recorded (env : IoEnv) (st : IoState) (ws : List (ℕ × ℕ)) (st' : IoState) : Type 0 where
  pub entries : List NatEntry
  pub sb : st'.raw_sb ≡ append_all st.raw_sb entries
  pub size : length entries ≡ length ws
  pub placed : AllPlaced entries
  pub last :
      (nid : ℕ) (b : Option ℕ)
      → last_addr nid entries b
        ≡ (if is_written nid ws then some (node_block env.file st'.nm nid) else b)
  pub kept :
      (nid : ℕ)
      → is_written nid ws ≡ false
      → node_block env.file st'.nm nid ≡ node_block env.file st.nm nid
  pub inv : NatInv st'.nm
  pub valid : NodesValid env.file st'.nm st'.zm
  pub listed : (nid : ℕ) → find nid st.nm.nat_list ≢ none → find nid st'.nm.nat_list ≢ none

listed-update_nat :
    (nm : NatInfo) (nid written other : ℕ)
    → find other nm.nat_list ≢ none
    → find other (update_nat nm nid written false).1.nat_list ≢ none
unfolding update_nat find
listed-update_nat nm nid written other h = elim (Option-cases (find nid nm.nat_list)) [
  | inl e ↦ rw (e, update_nat) h
  | inr (ne, e) ↦
      ground (arith, e, h, find-nid nid nm.nat_list ne e, find-delete_ne nid other nm.nat_list)
]

moved_lem :
    (ne : NatEntry) (written : ℕ)
    → ((moved ne written false).nid ≡ ne.nid) × ((moved ne written false).block_addr ≡ written)
moved_lem ne written = ground arith

neither : (a b : Bool) → a || b ≡ false → (a ≡ false) × (b ≡ false)
neither true b e = cc
neither false b e = (refl, e)

hit_or_later :
    (hit later : Bool) (here there : ℕ) (b : Option ℕ)
    → (later ≡ false → hit ≡ true → there ≡ here)
    → (if later then some there else if hit then some here else b)
      ≡ (if hit || later then some there else b)
hit_or_later true true here there b h = refl
hit_or_later true false here there b h = ap some (sym (h refl refl))
hit_or_later false true here there b h = refl
hit_or_later false false here there b h = refl

-- A node whose page is being written has no block; the others have valid ones of their own.
abbrev pub InPlace : IoEnv → (ℕ → Bool) → IoState → Type 0
InPlace env writeback st =
    Owners (λ nid. if writeback nid then 0 else node_block env.file st.nm nid) st.zm

-- A page that is being written is in the list.
ends :
    {env : IoEnv} {st : IoState} {writeback : ℕ → Bool} {ws : List (ℕ × ℕ)} {st' : IoState}
    → Writes env st writeback ws st'
    → (nid : ℕ) → writeback nid ≡ true
    → is_written nid ws ≡ true
ends (waited st writeback none_left) nid h = absurd (false≢true (sym (none_left nid) ∙ h))
ends (submit type n new ws writeback st sent_st st' f s more) nid h =
    ends more nid (ground (arith, h))
ends (end_write n written ws writeback st ended st' t f e more) nid h =
    elim (Bool-cases (n == nid)) [
      | inl x ↦ rw x refl
      | inr x ↦ ground (arith, x, ends more nid (ground (arith, x, h)))
    ]

module _ (env : IoEnv) (phase : env.cp_locked && (env.cp_phase == 2) ≡ true) where
  -- a submission in front
  submitted :
      (type : PageType) (nid new : ℕ) (ws : List (ℕ × ℕ)) (writeback : ℕ → Bool)
      (st sent_st st' : IoState)
      → writeback nid ≡ false
      → submit_node_xio env zone_append type nid st ≡ sent new sent_st
      → NatInv st.nm
      → InPlace env writeback st
      → (ne : NatEntry) → find nid st.nm.nat_list ≡ some ne
      → (sent_st.nm ≡ st.nm
          → NatInv sent_st.nm
          → InPlace env (update writeback nid true) sent_st
          → Recorded env sent_st ws st')
      → Recorded env st ws st'
  submitted type nid new ws writeback st sent_st st' f s v valid ne listed more =
      let (released, same, sb) =
        submit_lem env zone_append refl type nid st ne listed new sent_st s in
      let addr : ℕ → ℕ = λ k. if writeback k then 0 else node_block env.file st.nm k in
      let old : addr nid ≡ ne.block_addr =
        rw f (node_block-listed env.file st.nm nid 0 ne listed) in
      let gone = released-Owners addr nid st.zm sent_st.zm valid (λ x. rw old (released x)) in
      let r =
        more same (subst NatInv (sym same) v)
          (same-Owners _ _ sent_st.zm (λ k. rw same (ground arith)) gone) in
      record {
        entries = r.entries;
        sb = r.sb ∙ ap (λ x. append_all x r.entries) sb;
        size = r.size;
        placed = r.placed;
        last = r.last;
        kept = λ other z. r.kept other z ∙ ap (λ x. node_block env.file x other) same;
        inv = r.inv;
        valid = r.valid;
        listed = λ other h. r.listed other (rw same h);
      }

  -- the end of a write in front
  ended_first :
      (nid written : ℕ) (ws : List (ℕ × ℕ)) (writeback : ℕ → Bool) (st ended st' : IoState)
      → writeback nid ≡ true
      → is_valid st.zm written ≡ false
      → write_end_io env nid written st ≡ some ended
      → NatInv st.nm
      → InPlace env writeback st
      → (ne : NatEntry) → find nid st.nm.nat_list ≡ some ne
      → nid ≢ 0
      → written ≢ 0
      → (NatInv ended.nm
          → InPlace env (update writeback nid false) ended
          → ((other : ℕ) → find other st.nm.nat_list ≢ none → find other ended.nm.nat_list ≢ none)
          → Recorded env ended ws st')
      → Recorded env st ((nid, written) ∷ ws) st'
  unfolding append_all last_addr
  ended_first nid written ws writeback st ended st' t free e v valid ne listed n0 w0 more =
      let (x, e', nm', sb') = end_io_recorded env nid st ne listed st written phase refl in
      let (y, e'', _, zm') = end_io_lem env nid st ne listed st written refl in
      let is_x : x ≡ ended = some-injective x ended (sym e' ∙ e) in
      let is_y : y ≡ ended = some-injective y ended (sym e'' ∙ e) in
      let nm = ap (λ z. z.nm) (sym is_x) ∙ nm' in
      let sb = ap (λ z. z.raw_sb) (sym is_x) ∙ sb' in
      let zm = ap (λ z. z.zm) (sym is_y) ∙ zm' in
      let blocks : (other : ℕ)
          → node_block env.file ended.nm other
            ≡ (if nid == other then written else node_block env.file st.nm other) =
        λ other. rw nm (node_block-update env.file st.nm nid written ne listed other) in
      let stays : (other : ℕ)
          → find other st.nm.nat_list ≢ none
          → find other ended.nm.nat_list ≢ none =
        λ other h. rw nm (listed-update_nat st.nm nid written other h) in
      let addr : ℕ → ℕ = λ k. if writeback k then 0 else node_block env.file st.nm k in
      let after : ℕ → ℕ =
        λ k. if update writeback nid false k then 0 else node_block env.file ended.nm k in
      let r =
        more (rw nm (update_nat-NatInv st.nm nid written false v))
          (rw zm (
            written-Owners addr after nid written (λ k. ground (arith, blocks k)) st.zm valid free))
          stays in
      let m = moved ne written false in
      let id : m.nid ≡ nid = (moved_lem ne written).0 ∙ find-nid nid st.nm.nat_list ne listed in
      let addr : m.block_addr ≡ written = (moved_lem ne written).1 in
      record {
        entries = m ∷ r.entries;
        sb = r.sb ∙ ap (λ x. append_all x r.entries) sb;
        size = omega (arith, r.size);
        placed = (λ z. n0 (sym id ∙ z), λ z. w0 (sym addr ∙ z), r.placed);
        last = λ other b.
            r.last other (if m.nid == other then some m.block_addr else b)
            ∙ ap
                (λ n.
                  if is_written other ws
                  then some (node_block env.file st'.nm other)
                  else if n == other
                  then some m.block_addr
                  else b)
                id
            ∙ ap
                (λ a.
                  if is_written other ws
                  then some (node_block env.file st'.nm other)
                  else if nid == other
                  then some a
                  else b)
                addr
            ∙ hit_or_later (nid == other) (is_written other ws) written
                (node_block env.file st'.nm other) b
                (λ f h. r.kept other f ∙ blocks other ∙ rw h refl);
        kept = λ other z.
            let (f, g) = neither (nid == other) (is_written other ws) z in
            r.kept other g ∙ blocks other ∙ rw f refl;
        inv = r.inv;
        valid = r.valid;
        listed = λ other h. r.listed other (stays other h);
      }

  pub recorded :
      {st : IoState} {writeback : ℕ → Bool} {ws : List (ℕ × ℕ)} {st' : IoState}
      → Writes env st writeback ws st'
      → NatInv st.nm
      → InPlace env writeback st
      → AllListed st ws
      → AllNonzero ws
      → Recorded env st ws st'
  unfolding append_all last_addr
  recorded (waited st writeback none_left) v valid listed nonzero = record {
    entries = [];
    sb = refl;
    size = refl;
    placed = tt;
    last = λ nid b. refl;
    kept = λ nid e. refl;
    inv = v;
    valid = same-Owners _ _ st.zm (λ k. rw (none_left k) refl) valid;
    listed = λ nid h. h;
  }
  recorded (submit type nid new ws writeback st sent_st st' f s more) v valid listed nonzero =
      elim (Option-cases (find nid st.nm.nat_list)) [
        | inl gone ↦ absurd (listed nid (ends more nid (ground arith)) gone)
        | inr (ne, found) ↦
            submitted type nid new ws writeback st sent_st st' f s v valid ne found
              (λ same inv' valid'.
                recorded more inv' valid' (λ other w. rw same (listed other w)) nonzero)
      ]
  recorded (end_write nid written ws writeback st ended st' t free e more) v valid listed nonzero =
      elim (Option-cases (find nid st.nm.nat_list)) [
        | inl gone ↦ absurd (listed nid (ground arith) gone)
        | inr (ne, found) ↦
            ended_first nid written ws writeback st ended st' t free e v valid ne found nonzero.0
              nonzero.1
              (λ inv' valid' stays.
                recorded more inv' valid'
                  (λ other w. stays other (listed other (ground (arith, w)))) nonzero.2)
      ]
