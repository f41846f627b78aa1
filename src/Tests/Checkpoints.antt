-- ===== src/Tests/Checkpoints.antt =====
-- The end of a checkpoint in which one node is written.
use xcpfs.Base.{
  ℕ, ◌≡◌, ◌≢◌, refl, true, false, ◌&&◌, ◌||◌, [], ◌∷◌, none, some, ltb, leb, ◌==◌, if◌then◌else◌,
  arith, inl, inr, Bool-cases,
}
use xcpfs.Base.Int.{pos}
use xcpfs.Base.Table.{update}
use xcpfs.Format.{meta_node}
use xcpfs.ZoneMgmt.Types.{ZmInfo}
use xcpfs.ZoneMgmt.Device.{zone_append}
use xcpfs.ZoneMgmt.Blocks.{blk2zone, blk_index, invalidate_blkaddr, validate_blkaddr}
use xcpfs.ZoneMgmt.Blocks.Account.{is_valid}
use xcpfs.ZoneMgmt.Alloc.{alloc_zone}
use xcpfs.NatMgmt.Types.{NatInfo}
use xcpfs.NatMgmt.Cache.{find, delete, lookup_cached, update_nat, init_nat_info}
use xcpfs.NatMgmt.Cache.View.{moved}
use xcpfs.NatMgmt.Cache.Count.{count, NatInv}
use xcpfs.NatMgmt.Lookup.{lookup_nat}
use xcpfs.NatMgmt.Lookup.Translate.{translate, node_block}
use xcpfs.Checkpoint.{init_cpsb, cp_append_nat, read_super}
use xcpfs.Checkpoint.Remount.{addr_of}
use xcpfs.Checkpoint.Nodes.{Writes, waited, submit, end_write, idle, is_written, last_phase}
use xcpfs.Checkpoint.Nodes.Roots.{read_super-append_roots}
use xcpfs.Xio.{IoState, sent, submit_node_xio, write_end_io}
use xcpfs.Xio.Nodes.View.{NodesValid}
use xcpfs.Tests.Device.{empty_zone, new_zm}
use xcpfs.Tests.Io.{no_file, env, node, numbers}

-- The meta file's node is at block 29, the root's at 30, and another node at 31.
abbrev three_zm : ZmInfo
three_zm = record new_zm {
  zone_info =
      update empty_zone 3
        (record (empty_zone 3) { vblocks = pos 3; valid_map = λ b. leb 5 b && ltb b 8 });
}

abbrev three_nm : NatInfo
three_nm = record {
  cached_nat_count = 3;
  nat_list =
      node
      ∷ record { pinned = true; dirty = false; nid = 1; ino = 1; block_addr = 29 }
      ∷ record { pinned = true; dirty = false; nid = 3; ino = 3; block_addr = 30 }
      ∷ [];
  free_nat = [];
}

three_nm-NatInv : NatInv three_nm
unfolding count
three_nm-NatInv = record { unique = λ nid. ground arith; counted = refl; free = tt }

abbrev before : IoState
before = record { nm = three_nm; zm = three_zm; cpc = some false; raw_sb = init_cpsb numbers }

block_lem :
    (nid : ℕ)
    → node_block no_file three_nm nid
      ≡ (if 5 == nid then 31 else if 1 == nid then 29 else if 3 == nid then 30 else 0)
unfolding translate lookup_cached find
block_lem nid = ground arith

valid_29 : is_valid three_zm 29 ≡ true
unfolding blk2zone blk_index
valid_29 = refl

valid_30 : is_valid three_zm 30 ≡ true
unfolding blk2zone blk_index
valid_30 = refl

valid_31 : is_valid three_zm 31 ≡ true
unfolding blk2zone blk_index
valid_31 = refl

before-NodesValid : NodesValid no_file three_nm three_zm
before-NodesValid = record {
  valid = λ nid h. elim (Bool-cases (5 == nid)) [
    | inl e ↦ rw (block_lem nid, e) valid_31
    | inr e ↦ elim (Bool-cases (1 == nid)) [
      | inl f ↦ rw (block_lem nid, e, f) valid_29
      | inr f ↦ elim (Bool-cases (3 == nid)) [
        | inl g ↦ rw (block_lem nid, e, f, g) valid_30
        | inr g ↦ absurd (h (ground (arith, block_lem nid, e, f, g)))
      ]
    ]
  ];
  apart = λ a b h e. ground (arith, h, e, block_lem a, block_lem b);
}

abbrev sent_state : IoState
sent_state = record before { zm = invalidate_blkaddr three_zm 31 }

abbrev after : IoState
after = record sent_state {
  nm = (update_nat three_nm 5 24 false).1;
  zm = validate_blkaddr sent_state.zm 24;
  raw_sb = cp_append_nat before.raw_sb (moved node 24 false);
}

is_sent : submit_node_xio env zone_append meta_node 5 before ≡ sent 24 sent_state
unfolding submit_node_xio lookup_nat lookup_cached find alloc_zone blk2zone
is_sent = refl

is_free : is_valid sent_state.zm 24 ≡ false
unfolding invalidate_blkaddr blk2zone blk_index
is_free = refl

is_ended : write_end_io env 5 24 sent_state ≡ some after
unfolding write_end_io lookup_nat lookup_cached find update_nat delete
is_ended = refl

one_write : Writes env before idle ((5, 24) ∷ []) after
one_write = submit meta_node 5 24 ((5, 24) ∷ []) idle before sent_state after refl is_sent (
    end_write 5 24 [] (update idle 5 true) sent_state after after refl is_free is_ended
      (waited after (update (update idle 5 true) 5 false) (λ nid. ground arith)))

still_29 : node_block no_file after.nm 1 ≢ 0
unfolding translate lookup_cached find update_nat delete
still_29 = λ e. ground (arith, e)

still_30 : node_block no_file after.nm 3 ≢ 0
unfolding translate lookup_cached find update_nat delete
still_30 = λ e. ground (arith, e)

listed : (nid : ℕ) → is_written nid ((5, 24) ∷ []) ≡ true → find nid three_nm.nat_list ≢ none
unfolding find
listed nid h = λ e. ground (arith, h, e)

listed_1 : find 1 three_nm.nat_list ≢ none
unfolding find
listed_1 = λ e. ground (arith, e)

listed_3 : find 3 three_nm.nat_list ≢ none
unfolding find
listed_3 = λ e. ground (arith, e)

read_super-append_roots_example :
    (st'' : IoState) × (last_phase env after ≡ some (false, st''))
    × NodesValid no_file st''.nm st''.zm
    × (let result = read_super st''.raw_sb numbers init_nat_info in
        (result.0 ≡ none)
        × ((nid : ℕ)
            → addr_of (find nid result.1.1.nat_list) ≡ (
                if (1 == nid) || (3 == nid) || is_written nid ((5, 24) ∷ [])
                then some (node_block no_file st''.nm nid)
                else none)))
read_super-append_roots_example =
    read_super-append_roots env numbers numbers before after ((5, 24) ∷ []) refl refl
      three_nm-NatInv before-NodesValid listed (λ e. ground (arith, e), λ e. ground (arith, e), tt)
      (omega arith) one_write listed_1 listed_3 still_29 still_30 refl
