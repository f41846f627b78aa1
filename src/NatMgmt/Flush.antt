-- ===== src/NatMgmt/Flush.antt =====
-- `flush_nat`: the dirty entries of `nat_list` are written to the table.
pub mod Written
use xcpfs.Base.{ℕ, ◌/◌, ◌%◌, Bool, true, false, List, [], ◌∷◌, if◌then◌else◌}
use xcpfs.Base.Table.{update}
use xcpfs.Format.{nat_entry_per_block}
use xcpfs.NatMgmt.Types.{NatEntry, NatInfo, RawNat, NatFile}

abbrev pub nat_block : ℕ → ℕ
nat_block nid = nid / nat_entry_per_block

abbrev pub nat_slot : ℕ → ℕ
nat_slot nid = nid % nat_entry_per_block

unfoldable pub write_nat : NatFile → NatEntry → NatFile
write_nat file ne = update file (nat_block ne.nid) (
    update (file (nat_block ne.nid)) (nat_slot ne.nid)
      (record { ino = ne.ino; block_addr = ne.block_addr }))

-- The loop: the list with its entries clean, and the table.
unfoldable pub flush_entries : List NatEntry → NatFile → List NatEntry × NatFile
flush_entries [] file = ([], file)
flush_entries (ne ∷ rest) file =
    let written = flush_entries rest (write_nat file ne) in
    let skipped = flush_entries rest file in
    if ne.dirty
    then (record ne { dirty = false } ∷ written.0, written.1)
    else (ne ∷ skipped.0, skipped.1)

unfoldable pub flush_nat : NatInfo → NatFile → NatInfo × NatFile
flush_nat nm file =
    let flushed = flush_entries nm.nat_list file in (record nm { nat_list = flushed.0 }, flushed.1)
