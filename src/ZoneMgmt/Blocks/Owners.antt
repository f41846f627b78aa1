-- ===== src/ZoneMgmt/Blocks/Owners.antt =====
-- Owners of blocks, such as the nodes or the blocks of a file: each has an address, or 0 for none.
use xcpfs.Base.{
  ℕ, ◌≡◌, ◌≢◌, sym, ◌∙◌, true, false, arith, ◌==◌, ==_refl, ap, refl, if◌then◌else◌, inl, inr,
  Bool-cases,
}
use mathlib.Core.Bool.{false≢true}
use xcpfs.Base.Table.{update}
use xcpfs.ZoneMgmt.Types.{ZmInfo}
use xcpfs.ZoneMgmt.Blocks.{validate_blkaddr}
use xcpfs.ZoneMgmt.Blocks.Account.{is_valid, is_valid-validate}

-- Every owner that has a block has a valid one, and no two owners share one.
pub record Owners (addr : ℕ → ℕ) (zm : ZmInfo) : Type 0 where
  pub valid : (k : ℕ) → addr k ≢ 0 → is_valid zm (addr k) ≡ true
  pub apart : (a b : ℕ) → addr a ≢ 0 → addr a ≡ addr b → a ≡ b

-- What a submission leaves of the blocks: the old one is no longer valid.
abbrev pub Released : ZmInfo → ℕ → ZmInfo → Type 0
Released zm old zm' = (x : ℕ) → is_valid zm' x ≡ (if old == x then false else is_valid zm x)

-- Owner `k` has no block while it is written.
module _ (addr : ℕ → ℕ) (k : ℕ) (zm zm' : ZmInfo) (v : Owners addr zm)
    (released : Released zm (addr k) zm') where
  still : (other : ℕ) → k ≢ other → addr other ≢ 0 → is_valid zm' (addr other) ≡ true
  still other differ h = elim (Bool-cases (addr k == addr other)) [
    | inr e ↦ released (addr other) ∙ rw e (v.valid other h)
    | inl e ↦ absurd (differ (sym (v.apart other k h (ground (arith, e)))))
  ]

  pub released-Owners : Owners (update addr k 0) zm'
  released-Owners = record {
    valid = λ other h. elim (Bool-cases (k == other)) [
      | inl e ↦ absurd (h (rw e refl))
      | inr e ↦ rw e (still other (ground (arith, e)) (λ z. h (rw e z)))
    ];
    apart = λ a b h e. ground (arith, h, e, v.apart a b);
  }

-- Owner `k`, which has no block, gets the block that was written.
module _ (addr after : ℕ → ℕ) (k written : ℕ)
    (moves : (x : ℕ) → after x ≡ (if k == x then written else addr x)) (zm : ZmInfo)
    (v : Owners addr zm) (unwritten : is_valid zm written ≡ false) where
  not_written : (other : ℕ) → written ≢ 0 → written ≢ addr other
  not_written other h e =
      absurd (false≢true (sym unwritten ∙ rw (sym e) at (v.valid other (λ z. h (e ∙ z)))))

  or_true :
      (x : ℕ)
      → is_valid zm (addr x) ≡ true
      → (if written == addr x then true else is_valid zm (addr x)) ≡ true
  or_true x g = elim (Bool-cases (written == addr x)) [ inl e ↦ rw e refl | inr e ↦ rw e g ]

  after_valid :
      (other : ℕ) → after other ≢ 0 → is_valid (validate_blkaddr zm written) (after other) ≡ true
  after_valid other h = elim (Bool-cases (k == other)) [
    | inl e ↦
        let seen : after other ≡ written = rw e at (moves other) in
        ap (is_valid (validate_blkaddr zm written)) seen
        ∙ is_valid-validate zm written written
        ∙ rw (==_refl written) refl
    | inr e ↦
        let seen : after other ≡ addr other = rw e at (moves other) in
        ap (is_valid (validate_blkaddr zm written)) seen
        ∙ is_valid-validate zm written (addr other)
        ∙ or_true other (v.valid other (λ z. h (seen ∙ z)))
  ]

  after_apart : (a b : ℕ) → after a ≢ 0 → after a ≡ after b → a ≡ b
  after_apart a b h e =
      ground (arith, h, e, moves a, moves b, v.apart a b, not_written a, not_written b)

  pub written-Owners : Owners after (validate_blkaddr zm written)
  written-Owners = record { valid = after_valid; apart = after_apart }

-- Owner `k` moves to the block that was written.
pub moved-Owners :
    (addr after : ℕ → ℕ) (k written : ℕ)
    → ((x : ℕ) → after x ≡ (if k == x then written else addr x))
    → (zm zm' : ZmInfo) → Owners addr zm
    → Released zm (addr k) zm'
    → is_valid zm' written ≡ false
    → Owners after (validate_blkaddr zm' written)
moved-Owners addr after k written moves zm zm' v released unwritten =
    written-Owners (update addr k 0) after k written (λ x. ground (arith, moves x)) zm'
      (released-Owners addr k zm zm' v released) unwritten

pub same-Owners :
    (addr after : ℕ → ℕ) (zm : ZmInfo)
    → ((k : ℕ) → after k ≡ addr k)
    → Owners addr zm
    → Owners after zm
same-Owners addr after zm same v = record {
  valid = λ k h. rw (same k) (v.valid k (λ z. h (same k ∙ z)));
  apart = λ a b h e. v.apart a b (λ z. h (same a ∙ z)) (sym (same a) ∙ e ∙ same b);
}
