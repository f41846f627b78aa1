-- ===== src/Mkfs/Made.antt =====
-- What the device holds after a run of mkfs.
use xcpfs.Base.{
  ℕ, ◌≤◌, ◌<◌, ◌≡◌, ◌≢◌, ◌∙◌, ap, none, some, arith, inl, inr, Bool-cases, Option-cases,
}
use xcpfs.Mkfs.{
  Image, dir_page, inode_page, super_page, Nvme, zone2zslba, Run, and_then, opening, appending, dot,
  dot_dot, root_dentry, root_inode, meta_inode, init_root, init_meta, write_root, write_dot_dot,
  first_super, mkfs, Appends,
}

and_then-some :
    {D A B : Type 0} (m : Run D A) (f : A → Run D B) (d d' : D) (b : B)
    → and_then m f d ≡ (some b, d')
    → (a : A) × ((m d).0 ≡ some a) × (f a (m d).1 ≡ (some b, d'))
and_then-some m f d d' b e = elim (Option-cases (m d).0) [
  | inl z ↦ ground (arith, z, ap (λ r. r.0) e)
  | inr (a, z) ↦ (a, z, rw (z, and_then) at e)
]

module _ {D : Type 0} (dev : Nvme D) (law : Appends dev) where
  -- what blocks hold is held on to
  abbrev Holds : D → D → Type 0
  Holds d d' = (b : ℕ) (image : Image) → dev.block b d ≡ some image → dev.block b d' ≡ some image

  holds :
      (d d' : D) → ((b : ℕ) → dev.block b d ≢ none → dev.block b d' ≡ dev.block b d) → Holds d d'
  holds d d' kept b image h = kept b (λ z. ground (arith, z, h)) ∙ h

  open_step :
      {B : Type 0} (zoneid : ℕ) (m : Run D B) (d d' : D) (b : B)
      → opening dev zoneid m d ≡ (some b, d')
      → (d1 : D) × Holds d d1 × (m d1 ≡ (some b, d'))
  open_step zoneid m d d' b e =
      let r = dev.zone_mgmt_open (zone2zslba zoneid) d in
      let kept : Holds d r.1 = λ x image h. law.opened (zone2zslba zoneid) x d ∙ h in
      elim (Bool-cases r.0) [
        | inl z ↦ ground (arith, z, ap (λ q. q.0) e)
        | inr z ↦ (r.1, kept, rw (z, opening) at e)
      ]

  append_step :
      {B : Type 0} (zoneid : ℕ) (image : Image) (f : ℕ → Run D B) (d d' : D) (b : B)
      → and_then (appending dev zoneid image) f d ≡ (some b, d')
      → (lba : ℕ) × (d1 : D) × (zone2zslba zoneid ≤ lba)
        × (dev.block lba d1 ≡ some image)
        × Holds d d1
        × (f lba d1 ≡ (some b, d'))
  append_step zoneid image f d d' b e =
      let (lba, got, rest) = and_then-some (appending dev zoneid image) f d d' b e in
      let r = dev.zone_append (zone2zslba zoneid) image d in
      let (low, here, kept) =
        law.placed (zone2zslba zoneid) image d r.1 lba (ap (λ o. (o, r.1)) got) in
      (lba, r.1, low, here, holds d r.1 kept, rest)

  -- What `init_root` leaves: the two pages of the directory and its inode.
  pub record Root (d : D) (root first second : ℕ) : Type 0 where
    pub low : 0 < root
    pub node : dev.block root d ≡ some (inode_page (root_inode first second))
    pub page : dev.block first d ≡ some (dir_page (root_dentry dot))
    pub page_too : dev.block second d ≡ some (dir_page (root_dentry dot_dot))

  init_root_lem :
      (d d' : D) (root : ℕ)
      → init_root dev d ≡ (some root, d')
      → (first : ℕ) × (second : ℕ) × Root d' root first second
  unfolding init_root zone2zslba
  init_root_lem d d' root e =
      let (d1, k1, e1) =
        open_step 6 (and_then (appending dev 6 (dir_page (root_dentry dot))) (write_dot_dot dev)) d
          d' root e in
      let (first, d2, low2, here2, k2, e2) =
        append_step 6 (dir_page (root_dentry dot)) (write_dot_dot dev) d1 d' root e1 in
      let (second, d3, low3, here3, k3, e3) =
        append_step 6 (dir_page (root_dentry dot_dot)) (write_root dev first) d2 d' root e2 in
      let node = inode_page (root_inode first second) in
      let (d4, k4, e4) = open_step 5 (appending dev 5 node) d3 d' root e3 in
      let (low, here, kept) = law.placed (zone2zslba 5) node d4 d' root e4 in
      let last = holds d4 d' kept in
      (
        first,
        second,
        record {
          low = omega (arith, low);
          node = here;
          page = last first (dir_page (root_dentry dot)) (k4 first _ (k3 first _ here2));
          page_too = last second (dir_page (root_dentry dot_dot)) (k4 second _ here3);
        },
      )

  init_meta_lem :
      (d d' : D) (meta : ℕ)
      → init_meta dev d ≡ (some meta, d')
      → (dev.block meta d' ≡ some (inode_page meta_inode)) × Holds d d'
  unfolding init_meta
  init_meta_lem d d' meta e =
      let (d1, k1, e1) = open_step 3 (appending dev 3 (inode_page meta_inode)) d d' meta e in
      let (low, here, kept) = law.placed (zone2zslba 3) (inode_page meta_inode) d1 d' meta e1 in
      (here, λ b image h. holds d1 d' kept b image (k1 b image h))

  -- All that the device holds after a run in which no command for the root and the meta file fails.
  pub record Made (d : D) (lba root meta first second : ℕ) : Type 0 where
    pub super : dev.block lba d ≡ some (super_page (first_super root meta))
    pub of_root : Root d root first second
    pub of_meta : dev.block meta d ≡ some (inode_page meta_inode)

  pub mkfs-Made :
      (d d1 d2 d3 : D) (root meta lba : ℕ)
      → init_root dev d ≡ (some root, d1)
      → init_meta dev d1 ≡ (some meta, d2)
      → mkfs dev d ≡ (some lba, d3)
      → (first : ℕ) × (second : ℕ) × Made d3 lba root meta first second
  unfolding mkfs
  mkfs-Made d d1 d2 d3 root meta lba er em e =
      let (first, second, r) = init_root_lem d d1 root er in
      let (here, kept) = init_meta_lem d1 d2 meta em in
      let opened = (dev.zone_mgmt_open (zone2zslba 0) d2).1 in
      let sb = super_page (first_super root meta) in
      let (low, at, kept') = law.placed (zone2zslba 0) sb opened d3 lba (rw (er, em, mkfs) at e) in
      let last : Holds d2 d3 =
        λ b image h. holds opened d3 kept' b image (law.opened (zone2zslba 0) b d2 ∙ h) in
      (
        first,
        second,
        record {
          super = at;
          of_root = record {
            low = r.low;
            node = last root _ (kept root _ r.node);
            page = last first _ (kept first _ r.page);
            page_too = last second _ (kept second _ r.page_too);
          };
          of_meta = last meta _ here;
        },
      )
