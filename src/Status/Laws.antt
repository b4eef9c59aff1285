-- ===== src/Status/Laws.antt =====
-- core/status.c, `vhdb_status_of`: it returns, its counters are in order, and what each state
-- rests on.
use vhdb.Base.{
  ℕ, zero, suc, ◌+◌, ◌≤◌, ◌≡◌, ◌≢◌, refl, sym, subst, ◌⊎◌, inl, inr, ◌↔◌, Bool, true, false, ◌&&◌,
  List, Option, none, some, equal, equal_iff, arith, Bool-cases, Option-cases,
}
use vhdb.Catalog.{Entry, Db}
use vhdb.Catalog.Access.{str}
use vhdb.Catalog.Access.Laws.{str_bounded}
use vhdb.Catalog.Load.Sound.{Sound}
use vhdb.Needs
use vhdb.Needs.{Need, unchecked, met, missing, needs_check, needs_count}
use vhdb.Version.{same, older, newer, unknown, version_compare}
use vhdb.Version.Total.{version_compare-some}
use vhdb.Status.{
  not_installed, update, Status, Installed, has_flag, rolling_flag, aux_flag, eboot_flag, Found,
  absent, aux_same, by_bytes, state_of_version, by_version, found_installed, is_bare, found_of,
  Counts, count_state, count_need, count_needs, status_of,
}

abbrev InOrder : Counts → ℕ → Type 0
InOrder n k = (n.met ≤ n.checked) × (n.checked ≤ k)

count_state-InOrder :
    (s : Needs.State) (n : Counts) (k : ℕ) → InOrder n k → InOrder (count_state s n) (k + 1)
unfolding count_state
count_state-InOrder unchecked n k h = omega arith
count_state-InOrder met n k h = omega arith
count_state-InOrder missing n k h = omega arith

count_need-InOrder :
    (o : Option Need) (n : Counts) (k : ℕ) → InOrder n k → InOrder (count_need o n) (k + 1)
unfolding count_need
count_need-InOrder none n k h = omega arith
count_need-InOrder (some need) n k h = count_state-InOrder need.state n k h

count_needs-InOrder :
    (needs : List ℕ) (exists : Option (List ℕ → Bool)) (rounds i : ℕ) (n : Counts) (k : ℕ)
    → InOrder n k
    → InOrder (count_needs needs exists rounds i n) (k + rounds)
unfolding count_needs
count_needs-InOrder needs exists zero i n k h = omega arith
count_needs-InOrder needs exists (suc rounds) i n k h = omega (
  arith,
  count_needs-InOrder needs exists rounds (i + 1) (count_need (needs_check needs i exists) n)
      (k + 1) (count_need-InOrder (needs_check needs i exists) n k h),
)

status_of-parts :
    (db : Db) (rec : Entry) (inst : Option Installed) (exists : Option (List ℕ → Bool)) (s : Status)
    → status_of db rec inst exists ≡ some s
    → (f : Found) × (needs : List ℕ) × (found_of db rec inst ≡ some f)
      × (str db rec.needs ≡ some needs)
      × (s ≡ record {
        state = f.state;
        needs_total = needs_count needs;
        needs_met =
            (count_needs needs exists (needs_count needs) 0 (record { checked = 0; met = 0 })).met;
        needs_checked =
            (count_needs needs exists
              (needs_count needs)
              0
              (record { checked = 0; met = 0 })).checked;
        trusted = f.trusted;
        by_content = f.by_content;
      })
unfolding status_of
status_of-parts db rec inst exists s e = elim (Option-cases (found_of db rec inst)) [
  | inl out ↦ absurd (ground arith)
  | inr (f, ef) ↦ elim (Option-cases (str db rec.needs)) [
    | inl out ↦ absurd (ground arith)
    | inr (needs, en) ↦ (f, needs, ef, en, ground arith)
  ]
]

-- Of the needed files no more are met than checked, and no more checked than listed.
status_of_counts :
    (db : Db) (rec : Entry) (inst : Option Installed) (exists : Option (List ℕ → Bool)) (s : Status)
    → status_of db rec inst exists ≡ some s
    → (s.needs_met ≤ s.needs_checked) × (s.needs_checked ≤ s.needs_total)
status_of_counts db rec inst exists s e =
    let (f, needs, ef, en, is) = status_of-parts db rec inst exists s e in
    let h =
      count_needs-InOrder needs exists (needs_count needs) 0 (record { checked = 0; met = 0 }) 0
        (omega arith) in
    ground (arith, is, h)

-- What the answer about an installed copy rests on.
abbrev pub ContentDiffers : Entry → Installed → Type 0
ContentDiffers rec inst =
    ((inst.has_aux ≡ true) × (has_flag rec.flags aux_flag ≡ true) × (inst.aux ≢ rec.aux))
    ⊎ ((inst.has_eboot ≡ true) × (has_flag rec.flags eboot_flag ≡ true) × (inst.eboot ≢ rec.eboot))

abbrev pub VersionNewer : Db → Entry → Installed → Type 0
VersionNewer db rec inst =
    (catalogue : List ℕ) × (str db rec.version ≡ some catalogue)
    × (version_compare inst.version catalogue ≡ some newer)

-- An update is only claimed of a copy whose VPK hash is not the catalog's.
pub record UpdateReason (db : Db) (rec : Entry) (inst : Installed) (by_content trusted : Bool)
    : Type 0 where
  pub fixed_build : has_flag rec.flags rolling_flag ≡ false
  pub other_hash : inst.has_hash ≡ true → inst.hash ≢ rec.hash
  pub evidence :
      ((by_content ≡ true) × (trusted ≡ true) × ContentDiffers rec inst)
      ⊎ ((by_content ≡ false) × VersionNewer db rec inst)

by_version-update :
    (db : Db) (rec : Entry) (inst : Installed) (f : Found)
    → by_version db rec inst ≡ some f
    → f.state ≡ update
    → (f.by_content ≡ false) × VersionNewer db rec inst
unfolding by_version state_of_version
by_version-update db rec inst f e is = elim (Option-cases (str db rec.version)) [
  | inl out ↦ absurd (ground arith)
  | inr (catalogue, read) ↦ elim (Option-cases (version_compare inst.version catalogue)) [
    | inl out ↦ absurd (ground arith)
    | inr (newer, v) ↦ (ground arith, (catalogue, read, v))
    | inr (same, v) ↦ absurd (ground arith)
    | inr (older, v) ↦ absurd (ground arith)
    | inr (unknown, v) ↦ absurd (ground arith)
  ]
]

aux_same-differs :
    (rec : Entry) (inst : Installed)
    → inst.has_aux ≡ true
    → has_flag rec.flags aux_flag ≡ true
    → aux_same rec inst ≡ false
    → ContentDiffers rec inst
unfolding aux_same
aux_same-differs rec inst ha fa e = elim (Bool-cases (equal inst.aux rec.aux)) [
  | inr other ↦ inl (ha, fa, λ p. absurd (ground (arith, equal_iff inst.aux rec.aux)))
  | inl agree ↦
      inr (ground arith, ground arith, λ p. absurd (ground (arith, equal_iff inst.eboot rec.eboot)))
]

found_installed-update :
    (db : Db) (rec : Entry) (inst : Installed) (f : Found)
    → found_installed db rec inst ≡ some f
    → f.state ≡ update
    → UpdateReason db rec inst f.by_content f.trusted
unfolding found_installed by_bytes
found_installed-update db rec inst f e is = record {
  fixed_build = ground arith;
  other_hash = λ h p. absurd (ground (arith, equal_iff inst.hash rec.hash));
  evidence = elim (Bool-cases (inst.has_aux && has_flag rec.flags aux_flag)) [
    | inl aux ↦ inl (
      ground arith,
      ground arith,
      aux_same-differs rec inst (ground arith) (ground arith) (ground arith),
    )
    | inr no_aux ↦ elim (Bool-cases (inst.has_eboot && has_flag rec.flags eboot_flag)) [
      | inl eboot ↦ inl (
        ground arith,
        ground arith,
        inr (
          ground arith,
          ground arith,
          λ p. absurd (ground (arith, equal_iff inst.eboot rec.eboot)),
        ),
      )
      | inr no_eboot ↦ inr (by_version-update db rec inst f (ground arith) is)
    ]
  ];
}

found_installed-ne :
    (db : Db) (rec : Entry) (inst : Installed) (f : Found)
    → found_installed db rec inst ≡ some f
    → f.state ≢ not_installed
unfolding found_installed by_bytes by_version state_of_version
found_installed-ne db rec inst f e is = elim (Option-cases (str db rec.version)) [
  | inl out ↦ ground arith
  | inr (catalogue, read) ↦ ground arith
]

found_of-returns :
    (db : Db)
    → Sound db
    → (rec : Entry) (inst : Option Installed) → (f : Found) × (found_of db rec inst ≡ some f)
unfolding found_of found_installed by_version
found_of-returns db sound rec none = (absent, refl)
found_of-returns db sound rec (some inst) =
    let (catalogue, read, bounds) = str_bounded db sound rec.version in
    let (v, compared) = version_compare-some inst.version catalogue in
    elim (Option-cases (found_of db rec (some inst))) [
      | inl out ↦ absurd (ground arith)
      | inr found ↦ found
    ]

-- The status "update" is only given to an installed copy, of a build that is not rolling, whose
-- VPK hash is not the catalog's: because an engine file or the eboot differs, which counts as
-- trusted, or because the catalog's version text compares as newer.
pub status_of-update :
    (db : Db) (rec : Entry) (inst : Option Installed) (exists : Option (List ℕ → Bool)) (s : Status)
    → status_of db rec inst exists ≡ some s
    → s.state ≡ update
    → (copy : Installed) × (inst ≡ some copy)
      × (is_bare copy ≡ false)
      × UpdateReason db rec copy s.by_content s.trusted
unfolding found_of
status_of-update db rec none exists s e is =
    let (f, needs, ef, en, fields) = status_of-parts db rec none exists s e in absurd (ground arith)
status_of-update db rec (some inst) exists s e is =
    let (f, needs, ef, en, fields) = status_of-parts db rec (some inst) exists s e in
    elim (Bool-cases (is_bare inst)) [
      | inl bare ↦ absurd (ground arith)
      | inr known ↦
          let r = found_installed-update db rec inst f (ground arith) (ground arith) in
          (
            inst,
            refl,
            known,
            subst (λ t. UpdateReason db rec inst t.by_content t.trusted) (sym fields) r,
          )
    ]

-- The status "not installed" is given exactly to an entry with no installed copy, or one of which
-- neither a version nor a content hash is known.
status_of_not_installed :
    (db : Db) (rec : Entry) (inst : Option Installed) (exists : Option (List ℕ → Bool)) (s : Status)
    → status_of db rec inst exists ≡ some s
    → (s.state ≡ not_installed) ↔ ((copy : Installed) → inst ≡ some copy → is_bare copy ≡ true)
unfolding found_of
status_of_not_installed db rec none exists s e =
    let (f, needs, ef, en, fields) = status_of-parts db rec none exists s e in
    (λ is copy p. cc, λ all. ground arith)
status_of_not_installed db rec (some inst) exists s e =
    let (f, needs, ef, en, fields) = status_of-parts db rec (some inst) exists s e in
    elim (Bool-cases (is_bare inst)) [
      | inl bare ↦ (λ is copy p. ground arith, λ all. ground arith)
      | inr known ↦ (
        λ is copy p. absurd (found_installed-ne db rec inst f (ground arith) (ground arith)),
        λ all. absurd (ground (arith, all inst refl)),
      )
    ]

-- On a sound catalog `vhdb_status_of` returns and reads within the file, for every record,
-- installed copy and callback.
pub status_of-returns :
    (db : Db) (sound : Sound db) (rec : Entry) (inst : Option Installed)
    (exists : Option (List ℕ → Bool))
    → (s : Status) × (status_of db rec inst exists ≡ some s)
unfolding status_of
status_of-returns db sound rec inst exists =
    let (f, ef) = found_of-returns db sound rec inst in
    let (needs, en, bounds) = str_bounded db sound rec.needs in
    elim (Option-cases (status_of db rec inst exists)) [
      | inl out ↦ absurd (ground arith)
      | inr found ↦ found
    ]
