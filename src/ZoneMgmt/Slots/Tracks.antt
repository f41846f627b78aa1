-- ===== src/ZoneMgmt/Slots/Tracks.antt =====
-- A list of slots that holds each zone of a set exactly once, with its counter.
use xcpfs.Base.{
  ℕ, suc, ◌+◌, ◌-◌, ◌*◌, ◌≤◌, ◌<◌, ◌≡◌, Bool, true, false, List, [], ◌∷◌, Option, none, some, arith,
  length, ◌==◌,
}
use xcpfs.Base.Table.{update}
use xcpfs.ZoneMgmt.Types.{ZmInfo}
use xcpfs.ZoneMgmt.Slots.{
  insert_zone, remove_zone, insert_zone_opened, remove_zone_opened, insert_zone_active,
  remove_zone_active,
}

abbrev pub indicator : Bool → ℕ
indicator true = 1
indicator false = 0

-- the slots in use
unfoldable pub filled : List (Option ℕ) → ℕ
filled [] = 0
filled (none ∷ list) = filled list
filled (some z ∷ list) = suc (filled list)

-- the slots that point to `tar`
unfoldable pub holds : ℕ → List (Option ℕ) → ℕ
holds tar [] = 0
holds tar (none ∷ list) = holds tar list
holds tar (some z ∷ list) = indicator (z == tar) + holds tar list

filled-le-length : (list : List (Option ℕ)) → filled list ≤ length list
unfolding filled
filled-le-length [] = omega arith
filled-le-length (none ∷ list) = omega (arith, filled-le-length list)
filled-le-length (some z ∷ list) = omega (arith, filled-le-length list)

-- What the two list functions leave: the list itself where they fail.
abbrev pub or_same : List (Option ℕ) → Option (List (Option ℕ)) → List (Option ℕ)
or_same list none = list
or_same list (some l) = l

abbrev pub succeeded : Option (List (Option ℕ)) → ℕ
succeeded none = 0
succeeded (some l) = 1

record Inserted (list : List (Option ℕ)) (tar : ℕ) : Type 0 where
  fits : filled list < length list → succeeded (insert_zone list tar) ≡ 1
  same_length : length (or_same list (insert_zone list tar)) ≡ length list
  one_more :
      filled (or_same list (insert_zone list tar)) ≡ filled list + succeeded (insert_zone list tar)
  held :
      (z : ℕ)
      → holds z (or_same list (insert_zone list tar))
        ≡ holds z list + succeeded (insert_zone list tar) * indicator (tar == z)

insert_zone-Inserted : (list : List (Option ℕ)) (tar : ℕ) → Inserted list tar
unfolding insert_zone filled holds
insert_zone-Inserted [] tar = ground arith
insert_zone-Inserted (none ∷ list) tar = ground (arith, filled-le-length list)
insert_zone-Inserted (some z ∷ list) tar =
    let rest = insert_zone-Inserted list tar in
    record {
      fits = ground (arith, rest.fits);
      same_length = ground (arith, rest.same_length);
      one_more = ground (arith, rest.one_more);
      held = λ x. ground (arith, rest.held x);
    }

record Removed (list : List (Option ℕ)) (tar : ℕ) : Type 0 where
  found : holds tar list ≡ 0 → remove_zone list tar ≡ none
  found' : 0 < holds tar list → succeeded (remove_zone list tar) ≡ 1
  same_length : length (or_same list (remove_zone list tar)) ≡ length list
  one_less :
      filled (or_same list (remove_zone list tar)) + succeeded (remove_zone list tar) ≡ filled list
  held :
      (z : ℕ)
      → holds z (or_same list (remove_zone list tar))
          + succeeded (remove_zone list tar) * indicator (tar == z)
        ≡ holds z list

remove_zone-Removed : (list : List (Option ℕ)) (tar : ℕ) → Removed list tar
unfolding remove_zone filled holds
remove_zone-Removed [] tar = ground arith
remove_zone-Removed (none ∷ list) tar =
    let rest = remove_zone-Removed list tar in
    record {
      found = ground (arith, rest.found);
      found' = ground (arith, rest.found');
      same_length = ground (arith, rest.same_length);
      one_less = ground (arith, rest.one_less);
      held = λ x. ground (arith, rest.held x);
    }
remove_zone-Removed (some z ∷ list) tar =
    let rest = remove_zone-Removed list tar in
    record {
      found = ground (arith, rest.found);
      found' = ground (arith, rest.found');
      same_length = ground (arith, rest.same_length);
      one_less = ground (arith, rest.one_less);
      held = λ x. ground (arith, rest.held x);
    }

-- The list has `most` slots, the counter says how many are in use, and each zone of `P` is in one.
pub record Tracks (P : ℕ → Bool) (list : List (Option ℕ)) (count most : ℕ) : Type 0 where
  pub size : length list ≡ most
  pub counted : count ≡ filled list
  pub once : (z : ℕ) → holds z list ≡ indicator (P z)

module _ {P : ℕ → Bool} {list : List (Option ℕ)} {count most : ℕ} (t : Tracks P list count most)
    (tar : ℕ) where
  pub insert_zone-Tracks :
      P tar ≡ false
      → count < most
      → Tracks
          (update P tar true)
          (or_same list (insert_zone list tar))
          (count + succeeded (insert_zone list tar))
          most
  insert_zone-Tracks fresh room =
      let did = insert_zone-Inserted list tar in
      record {
        size = omega (arith, t.size, did.same_length);
        counted = omega (arith, t.counted, did.one_more);
        once = λ z. ground (arith, t.once z, t.size, t.counted, did.held z, did.fits);
      }

  pub remove_zone-Tracks :
      Tracks
        (update P tar false)
        (or_same list (remove_zone list tar))
        (count - succeeded (remove_zone list tar))
        most
  remove_zone-Tracks =
      let did = remove_zone-Removed list tar in
      record {
        size = omega (arith, t.size, did.same_length);
        counted = omega (arith, t.counted, did.one_less);
        once = λ z. ground (arith, t.once z, t.once tar, did.held z, did.found, did.found');
      }

  pub Tracks-le : count ≤ most
  Tracks-le = omega (arith, t.size, t.counted, filled-le-length list)

pub Tracks-ext :
    {P Q : ℕ → Bool} {list : List (Option ℕ)} {count most : ℕ}
    → ((z : ℕ) → P z ≡ Q z)
    → Tracks P list count most
    → Tracks Q list count most
Tracks-ext same t = record {
  size = t.size;
  counted = t.counted;
  once = λ z. ground (arith, t.once z, same z);
}

-- Each of the four callers as one update of the state.
module _ (zm : ZmInfo) (tar : ℕ) where
  open zm use {zone_opened, zone_opened_count, zone_active, zone_active_count}

  pub insert_zone_opened_lem : (insert_zone_opened zm tar).1 ≡ record zm {
    zone_opened = or_same zone_opened (insert_zone zone_opened tar);
    zone_opened_count = zone_opened_count + succeeded (insert_zone zone_opened tar);
  }
  unfolding insert_zone_opened
  insert_zone_opened_lem = ground arith

  pub remove_zone_opened_lem : (remove_zone_opened zm tar).1 ≡ record zm {
    zone_opened = or_same zone_opened (remove_zone zone_opened tar);
    zone_opened_count = zone_opened_count - succeeded (remove_zone zone_opened tar);
  }
  unfolding remove_zone_opened
  remove_zone_opened_lem = ground arith

  pub insert_zone_active_lem : (insert_zone_active zm tar).1 ≡ record zm {
    zone_active = or_same zone_active (insert_zone zone_active tar);
    zone_active_count = zone_active_count + succeeded (insert_zone zone_active tar);
  }
  unfolding insert_zone_active
  insert_zone_active_lem = ground arith

  pub remove_zone_active_lem : (remove_zone_active zm tar).1 ≡ record zm {
    zone_active = or_same zone_active (remove_zone zone_active tar);
    zone_active_count = zone_active_count - succeeded (remove_zone zone_active tar);
  }
  unfolding remove_zone_active
  remove_zone_active_lem = ground arith
