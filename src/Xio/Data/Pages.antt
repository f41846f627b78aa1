-- ===== src/Xio/Data/Pages.antt =====
-- data.c: a page of a file that is not up to date is prepared, from the block that the file has there or
-- with zeros.
use xcpfs.Base.{
  ℕ, ◌≡◌, refl, subst, ◌∙◌, ap, Bool, true, false, Option, none, some, ◌==◌, if◌then◌else◌, inl,
  inr, Bool-cases, Option-cases,
}
use xcpfs.Errno.{Errno, eio}
use xcpfs.Format.{PageType}
use xcpfs.ZoneMgmt.Device.{read}
use xcpfs.ZoneMgmt.Alloc.{alloc_zone}
use xcpfs.NatMgmt.Cache.Count.{NatInv}
use xcpfs.Meta.Path.{get_path}
use xcpfs.Meta.Pages.{get_page_type}
use xcpfs.Node.{NodePage, NodeEnv, NodeState}
use xcpfs.Node.View.{node_view, Kept, same_views}
use xcpfs.Node.Dnode.{addr_at, dnode, no_dnode, null_nat, searching, get_dnode_page}
use xcpfs.Node.Dnode.Walk.{
  Place, place_addr, Kept-trans, Known, Known-Kept, answer, Held, get_dnode_page_lem,
}
use xcpfs.Node.File.{place_of}
use xcpfs.Node.File.Paths.{full}
use xcpfs.Xio.Data.{
  in_top, last_offset, held_page, DataSubmitted, data_sent, refused, data_fault, data_waiting,
  submit_data_xio,
}
use xcpfs.Xio.Data.Files.{walk_end}

-- A page of zeros; a page that is read from a block; an error; a page that stays locked for ever, as
-- the request has failed; a NULL pointer followed; or no answer within the rounds.
pub data Prepared : Type 0 where
  zero_filled : NodeState → Prepared
  from_block : ℕ → NodeState → Prepared
  no_page : Errno → NodeState → Prepared
  locked : Prepared
  null_deref : Prepared
  searching_id : Prepared

abbrev pub read_page : DataSubmitted → Prepared
read_page (data_sent d addr st) = from_block addr st
read_page (refused err st) = locked
read_page data_fault = null_deref
read_page data_waiting = searching_id

-- `do_prepare_page` for the page `iblock` of the file `ino`, which is not the file of nodes.
unfoldable pub prepare_data_page : NodeEnv → Bool → ℕ → ℕ → NodeState → Prepared
prepare_data_page env create ino iblock st = elim (get_dnode_page env create ino iblock st) [
  | dnode d need got ↦
      if need
      then zero_filled got
      else read_page (
          submit_data_xio env read (get_page_type env.meta_ino env.node_ino ino iblock) ino iblock
            got)
  | no_dnode err got ↦ no_page eio got
  | null_nat ↦ null_deref
  | searching ↦ searching_id
]

-- The page of a file that `place` leads to.
abbrev pub contents : (ℕ → NodePage) → Option Place → NodeState → Prepared
contents view none st = no_page eio st
contents view (some place) st =
    if place_addr view place == 0 then zero_filled st else from_block (place_addr view place) st

-- A block that is there is read at its address.
reads :
    (env : NodeEnv) (type : PageType) (ino b : ℕ) (st : NodeState)
    → NatInv st.io.nm
    → Known env st true (full b) ino
    → (place : Place) → place_of (node_view env st) ino b ≡ some place
    → (st' : NodeState) × Kept env st st'
      × (submit_data_xio env read type ino b st
          ≡ data_sent place.node (place_addr (node_view env st) place) st')
unfolding submit_data_xio alloc_zone
reads env type ino b st v known place found =
    let (got, k, answered, held) = get_dnode_page_lem env ino b st v known in
    let here = answered ∙ ap (λ w. answer (node_view env st) w got) found in
    let there : got.pages place.node ≡ some (node_view env st place.node) =
      subst (λ w. Held (node_view env st) w got) found held in
    let ends = walk_end (node_view env st) (get_path b) ino place found in
    let same_old : addr_at (in_top (get_path b)) (held_page got place.node)
          (last_offset (get_path b))
        ≡ place_addr (node_view env st) place =
      rw (there, ends.0, ends.1) refl in
    (got, k, rw (here, submit_data_xio) (ap (λ a. data_sent place.node a got) same_old))

-- A page of a file prepared for a reader: where a node on the way is missing the answer is an error;
-- where the block has no address the page is filled with zeros; and otherwise the page is read from the
-- block's address. What the nodes hold, the addresses of the nodes and the zones stay as they are.
pub prepare_data_page_lem :
    (env : NodeEnv) (ino b : ℕ) (st : NodeState)
    → NatInv st.io.nm
    → Known env st true (full b) ino
    → (st' : NodeState) × Kept env st st'
      × (prepare_data_page env false ino b st
          ≡ contents (node_view env st) (place_of (node_view env st) ino b) st')
unfolding prepare_data_page
prepare_data_page_lem env ino b st v known =
    let view = node_view env st in
    let type = get_page_type env.meta_ino env.node_ino ino b in
    let (got, k, answered, held) = get_dnode_page_lem env ino b st v known in
    elim (Option-cases (place_of view ino b)) [
      | inl gone ↦
          let here = answered ∙ ap (λ w. answer view w got) gone in
          (got, k, rw (here, gone, prepare_data_page) refl)
      | inr (place, found) ↦
          let here = answered ∙ ap (λ w. answer view w got) found in
          elim (Bool-cases (place_addr view place == 0)) [
            | inl z ↦ (got, k, rw (here, found, z, prepare_data_page) refl)
            | inr z ↦
                let same = same_views env st got k in
                let (st', k', e) =
                  reads env type ino b got k.inv (Known-Kept env st got true (full b) ino k known)
                    place (ap (λ w. place_of w ino b) same ∙ found) in
                (
                  st',
                  Kept-trans env st got st' k k',
                  rw (here, found, z, e, prepare_data_page)
                      (ap (λ w. from_block (place_addr w place) st') same),
                )
          ]
    ]
