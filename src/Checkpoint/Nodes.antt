-- ===== src/Checkpoint/Nodes.antt =====
-- The last part of a pass of `do_checkpoint`: the nodes of the meta file are written in the second
-- phase, each entered into the super block when its write ends, and then the entries of the meta file
-- and of the root.
pub mod Remounted
pub mod Roots
use xcpfs.Base.{ℕ, Bool, false, true, ◌||◌, ◌≡◌, List, [], ◌∷◌, Option, none, some, ◌==◌}
use xcpfs.Base.Table.{update}
use xcpfs.Format.{PageType}
use xcpfs.ZoneMgmt.Device.{zone_append}
use xcpfs.ZoneMgmt.Blocks.Account.{is_valid}
use xcpfs.NatMgmt.Lookup.{lookup_nat}
use xcpfs.Checkpoint.{cp_append_nat}
use xcpfs.Xio.{IoState, IoEnv, sent, submit_node_xio, write_end_io}

-- What `filemap_write_and_wait_range` of the kernel does with the pages of nodes, as a sequence of
-- steps: a page that is not being written is submitted, and the write of one that is being written
-- ends, in any order; and it waits until no page is being written. `writeback` tells which pages are
-- being written. The list has, for each end of a write, the id and the block that the device has
-- written to, which is not valid then.
pub data Writes (env : IoEnv) : IoState → (ℕ → Bool) → List (ℕ × ℕ) → IoState → Type 0 where
  waited :
      (st : IoState) (writeback : ℕ → Bool)
      → ((nid : ℕ) → writeback nid ≡ false)
      → Writes env st writeback [] st
  submit :
      (type : PageType) (nid new : ℕ) (ws : List (ℕ × ℕ)) (writeback : ℕ → Bool)
      (st sent_st st' : IoState)
      → writeback nid ≡ false
      → submit_node_xio env zone_append type nid st ≡ sent new sent_st
      → Writes env sent_st (update writeback nid true) ws st'
      → Writes env st writeback ws st'
  end_write :
      (nid written : ℕ) (ws : List (ℕ × ℕ)) (writeback : ℕ → Bool) (st ended st' : IoState)
      → writeback nid ≡ true
      → is_valid st.zm written ≡ false
      → write_end_io env nid written st ≡ some ended
      → Writes env ended (update writeback nid false) ws st'
      → Writes env st writeback ((nid, written) ∷ ws) st'

-- no page is being written
abbrev pub idle : ℕ → Bool
idle nid = false

abbrev pub is_written : ℕ → List (ℕ × ℕ) → Bool
is_written nid [] = false
is_written nid ((n, written) ∷ rest) = let later = is_written nid rest in (n == nid) || later

-- `cp_append_nat(sb,lookup_nat(sb,nid))`; `none` is a NULL pointer followed.
abbrev pub append_looked : IoEnv → ℕ → IoState → Option IoState
append_looked env nid st =
    let looked = lookup_nat env.file st.nm nid in
    elim looked.0 [
      | none ↦ none
      | some ne ↦ some (record st { nm = looked.1; raw_sb = cp_append_nat st.raw_sb ne })
    ]

-- The third phase.
unfoldable pub append_roots : IoEnv → IoState → Option IoState
append_roots env st = elim (append_looked env 1 st) [
  | none ↦ none
  | some st' ↦ append_looked env 3 st'
]

-- It, and the test at the end of `do_checkpoint`: `true` where it starts again from `restart`.
unfoldable pub last_phase : IoEnv → IoState → Option (Bool × IoState)
last_phase env st = elim (append_roots env st) [
  | none ↦ none
  | some st' ↦ elim st'.cpc [ none ↦ none | some restart ↦ some (restart, st') ]
]
