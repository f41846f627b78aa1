-- ===== src/Truncate/Clear.antt =====
-- The loop that clears addresses and releases their blocks.
use xcpfs.Base.{
  ℕ, zero, suc, ◌+◌, ◌≤◌, ◌<◌, ◌≡◌, ◌≢◌, refl, Bool, true, false, not, ◌&&◌, ◌||◌, arith, ltb, leb,
  ◌==◌, if◌then◌else◌, inl, inr, Bool-cases,
}
use xcpfs.Base.Table.{update}
use xcpfs.ZoneMgmt.Types.{ZmInfo}
use xcpfs.ZoneMgmt.Blocks.{invalidate_blkaddr}
use xcpfs.ZoneMgmt.Blocks.Account.{is_valid, is_valid-invalidate}
use xcpfs.Truncate.{clear_addrs}

-- One of the `n` entries from `i` on is the address `x`.
unfoldable pub holds : ℕ → ℕ → (ℕ → ℕ) → ℕ → Bool
holds zero i addr x = false
holds (suc n) i addr x = (addr i == x) && not (x == 0) || holds n (i + 1) addr x

holds-update :
    (n i k : ℕ) (addr : ℕ → ℕ) (a x : ℕ) → k < i → holds n i (update addr k a) x ≡ holds n i addr x
unfolding holds
holds-update zero i k addr a x h = refl
holds-update (suc n) i k addr a x h = ground (arith, holds-update n (i + 1) k addr a x)

pub holds_at :
    (n i : ℕ) (addr : ℕ → ℕ) (k : ℕ)
    → i ≤ k
    → k < i + n
    → addr k ≢ 0
    → holds n i addr (addr k) ≡ true
unfolding holds
holds_at zero i addr k h l z = absurd (omega arith)
holds_at (suc n) i addr k h l z = elim (Bool-cases (i == k)) [
  | inl e ↦ ground (arith, e, z)
  | inr e ↦ ground (arith, e, holds_at n (i + 1) addr k)
]

-- The entries of the range are 0 afterwards, and every other one is as before.
pub clear_addrs_entries :
    (n i : ℕ) (addr : ℕ → ℕ) (zm : ZmInfo) (j : ℕ)
    → (clear_addrs n i addr zm).0 j ≡ (if leb i j && ltb j (i + n) then 0 else addr j)
unfolding clear_addrs
clear_addrs_entries zero i addr zm j = ground arith
clear_addrs_entries (suc n) i addr zm j = elim (Bool-cases (addr i == 0)) [
  | inl z ↦ rw (z, clear_addrs) (ground (arith, z, clear_addrs_entries n (i + 1) addr zm j))
  | inr z ↦
      rw (z, clear_addrs)
        (ground (
          arith,
          clear_addrs_entries n (i + 1) (update addr i 0) (invalidate_blkaddr zm (addr i)) j,
        ))
]

-- The blocks whose addresses are cleared are no longer valid, and no other block is touched.
pub clear_addrs_blocks :
    (n i : ℕ) (addr : ℕ → ℕ) (zm : ZmInfo) (x : ℕ)
    → is_valid (clear_addrs n i addr zm).1 x ≡ (if holds n i addr x then false else is_valid zm x)
unfolding clear_addrs holds
clear_addrs_blocks zero i addr zm x = refl
clear_addrs_blocks (suc n) i addr zm x = elim (Bool-cases (addr i == 0)) [
  | inl z ↦ rw (z, clear_addrs) (ground (arith, z, clear_addrs_blocks n (i + 1) addr zm x))
  | inr z ↦
      rw (z, clear_addrs)
        (ground (
          arith,
          z,
          clear_addrs_blocks n (i + 1) (update addr i 0) (invalidate_blkaddr zm (addr i)) x,
          is_valid-invalidate zm (addr i) x,
          holds-update n (i + 1) i addr 0 x,
        ))
]
