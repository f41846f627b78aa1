-- ===== src/Node/Dnode.antt =====
-- `get_dnode_page` of meta.c: from a block of a file down to the node that holds its address.
pub mod Walk
pub mod Used
pub mod New
pub mod Create
use xcpfs.Base.{ℕ, ◌-◌, Bool, true, false, List, [], ◌∷◌, Option, none, some, ◌==◌, if◌then◌else◌}
use xcpfs.Base.Table.{update}
use xcpfs.Errno.{Errno, eio}
use xcpfs.Format.{def_addrs_per_inode}
use xcpfs.NatMgmt.Cache.{modify}
use xcpfs.NatMgmt.AllocFree.{alloc_free_nat}
use xcpfs.Meta.Path.{BlockPath, in_inode, direct, indirect, double_indirect, get_path}
use xcpfs.Node.{NodePage, NodeEnv, NodeState, keep_page, get_node_page}

-- the entries of `offset` that are set
abbrev pub offsets : BlockPath → List ℕ
offsets (in_inode a) = a ∷ []
offsets (direct a b) = a ∷ b ∷ []
offsets (indirect a b c) = a ∷ b ∷ c ∷ []
offsets (double_indirect a b c d) = a ∷ b ∷ c ∷ d ∷ []

-- The pointer at an offset of a page, to a node and to a data block; `top` marks the inode.
abbrev pub nid_at : Bool → NodePage → ℕ → ℕ
nid_at true page o = page.i.i_nid (o - def_addrs_per_inode)
nid_at false page o = page.ptrs o

abbrev pub addr_at : Bool → NodePage → ℕ → ℕ
addr_at true page o = page.i.i_addr o
addr_at false page o = page.ptrs o

abbrev pub set_nid : Bool → NodePage → ℕ → ℕ → NodePage
set_nid true page o nid = record page {
  i = record page.i { i_nid = update page.i.i_nid (o - def_addrs_per_inode) nid };
}
set_nid false page o nid = record page { ptrs = update page.ptrs o nid }

abbrev pub set_addr : Bool → NodePage → ℕ → ℕ → NodePage
set_addr true page o addr = record page {
  i = record page.i { i_addr = update page.i.i_addr o addr };
}
set_addr false page o addr = record page { ptrs = update page.ptrs o addr }

-- The node page with `*need`; an error; a NULL pointer followed; or no free id within the rounds.
pub data Dnode : Type 0 where
  dnode : ℕ → Bool → NodeState → Dnode
  no_dnode : Errno → NodeState → Dnode
  null_nat : Dnode
  searching : Dnode

-- The part below `creating`: a new node for offset `o` of the page of node `nid`. The file with the
-- number 1 is the meta file.
unfoldable pub new_node : NodeEnv → ℕ → Bool → ℕ → ℕ → NodePage → NodeState → Option (ℕ × NodeState)
new_node env ino top o nid page st =
    elim (alloc_free_nat env.io.rounds env.io.file st.io.nm (ino == 1)) [
      | none ↦ none
      | some (ne, nm) ↦
          let filled = keep_page st nid (set_nid top page o ne.nid) in
          let assigned =
            modify nm ne.nid
              (λ e. record e { ino = ino; block_addr = 0; dirty = true; pinned = false }) in
          some (ne.nid, record filled { io = record st.io { nm = assigned } })
    ]

-- The loop, for the offsets left and the node that they start from.
unfoldable pub descend : NodeEnv → Bool → ℕ → Bool → List ℕ → ℕ → NodeState → Dnode
descend env create ino top [] nid st = no_dnode eio st
descend env create ino top (o ∷ []) nid st = elim (get_node_page env nid st) [
  | none ↦ null_nat
  | some (page, got) ↦ dnode nid (addr_at top page o == 0) got
]
descend env create ino top (o ∷ p ∷ rest) nid st = elim (get_node_page env nid st) [
  | none ↦ null_nat
  | some (page, got) ↦
      let next = nid_at top page o in
      elim (next == 0) [
        | false ↦ descend env create ino false (p ∷ rest) next got
        | true ↦ elim create [
          | false ↦ no_dnode eio got
          | true ↦ elim (new_node env ino top o nid page got) [
            | none ↦ searching
            | some (new, made) ↦ descend env create ino false (p ∷ rest) new made
          ]
        ]
      ]
]

-- For the page `iblock` of the file `ino`. Where the address is 0, `need` is set for a reader too.
unfoldable pub get_dnode_page : NodeEnv → Bool → ℕ → ℕ → NodeState → Dnode
get_dnode_page env create ino iblock st =
    descend env create ino true (offsets (get_path iblock)) ino st
