-- ===== src/Floppy/Geometry.antt =====
-- The floppy images that romemul/include/sidetnfs_floppy_emul.h accepts, against the disks they are.
use side_tnfs_firmware.Prelude.{
  ℕ, ◌*◌, ◌/◌, ◌%◌, ◌≤◌, ◌<◌, ◌≡◌, ◌↔◌, ◌⊎◌, inl, inr, refl, true, false, not, ◌||◌, Bool, ap, sym,
  ◌∙◌, ltb, ◌==◌, if◌then◌else◌, arith,
}
use side_tnfs_firmware.Floppy.{
  FloppyStatus, floppy_ok, filesize_invalid, bpb_invalid, geometry_unsupported, geometry_mismatch,
  FloppyGeometry, no_geometry, validate_geometry,
}
use native.Mathlib.Nat.{div-add-mod, mul-div_cancel_left, mul-mod_right}

-- A disk of 80 to 85 tracks on one or two sides, with 9 to 11 sectors of 512 bytes on a track, that
-- fills its file, and whose boot sector agrees.
pub record IsDisk (filesize bytes_per_sector total_sectors sectors_per_track sides tracks : ℕ)
    : Type 0 where
  pub one_or_two : (sides ≡ 1) ⊎ (sides ≡ 2)
  pub least_sectors : 9 ≤ sectors_per_track
  pub most_sectors : sectors_per_track ≤ 11
  pub least_tracks : 80 ≤ tracks
  pub most_tracks : tracks ≤ 85
  pub sector_size : bytes_per_sector ≡ 512
  pub sector_count : total_sectors ≡ sides * sectors_per_track * tracks
  pub file_size : filesize ≡ 512 * total_sectors

abbrev pub disk_geometry : ℕ → ℕ → ℕ → FloppyGeometry
disk_geometry sides sectors_per_track tracks = record {
  sides = sides;
  sectors_per_track = sectors_per_track;
  tracks = tracks;
  bytes_per_sector = 512;
  total_sectors = sides * sectors_per_track * tracks;
}

abbrev GeometryVerdict : Type 0
GeometryVerdict = FloppyStatus × FloppyGeometry

abbrev refused : FloppyStatus → GeometryVerdict
refused status = (status, no_geometry)

abbrev checked : Bool → Bool → Bool → Bool → Bool → Bool → GeometryVerdict → GeometryVerdict
checked c1 c2 c3 c4 c5 c6 x =
    if c1
    then refused filesize_invalid
    else if c2
    then refused bpb_invalid
    else if c3
    then refused geometry_unsupported
    else if c4
    then refused geometry_mismatch
    else if c5
    then refused geometry_unsupported
    else if c6
    then refused geometry_mismatch
    else x

abbrev Passed : Bool → Bool → Bool → Bool → Bool → Bool → Type 0
Passed c1 c2 c3 c4 c5 c6 =
    (c1 ≡ false) × (c2 ≡ false) × (c3 ≡ false) × (c4 ≡ false) × (c5 ≡ false) × (c6 ≡ false)

is_refusal : FloppyStatus → Bool
is_refusal floppy_ok = false
is_refusal _ = true

refusal :
    (status : FloppyStatus) (g : FloppyGeometry)
    → is_refusal status ≡ true
    → refused status ≡ (floppy_ok, g)
    → ⊥
unfolding is_refusal
refusal status g h e = ground (arith, h, ap (λ (z : GeometryVerdict). is_refusal z.0) e)

-- A verdict of `floppy_ok` passed every check.
checks-Passed :
    (c1 c2 c3 c4 c5 c6 : Bool) (x : GeometryVerdict) (g : FloppyGeometry)
    → checked c1 c2 c3 c4 c5 c6 x ≡ (floppy_ok, g)
    → Passed c1 c2 c3 c4 c5 c6 × (x ≡ (floppy_ok, g))
unfolding is_refusal
checks-Passed true c2 c3 c4 c5 c6 x g e = absurd (refusal filesize_invalid g refl e)
checks-Passed false true c3 c4 c5 c6 x g e = absurd (refusal bpb_invalid g refl e)
checks-Passed false false true c4 c5 c6 x g e = absurd (refusal geometry_unsupported g refl e)
checks-Passed false false false true c5 c6 x g e = absurd (refusal geometry_mismatch g refl e)
checks-Passed false false false false true c6 x g e = absurd (refusal geometry_unsupported g refl e)
checks-Passed false false false false false true x g e = absurd (refusal geometry_mismatch g refl e)
checks-Passed false false false false false false x g e = ((refl, refl, refl, refl, refl, refl), e)

exact_tracks : (n k : ℕ) → not (n % k == 0) ≡ false → n ≡ k * (n / k)
exact_tracks n k h = ground (arith, div-add-mod n k)

small_disk :
    (sides spt tracks : ℕ)
    → (sides ≡ 1) ⊎ (sides ≡ 2)
    → spt ≤ 11
    → tracks ≤ 85
    → (sides % 256 ≡ sides) × (spt % 256 ≡ spt) × (tracks % 256 ≡ tracks)
small_disk sides spt tracks h k l = (omega arith, omega arith, omega arith)

one_or_two_of : (sides : ℕ) → not ((sides == 1) || (sides == 2)) ≡ false → (sides ≡ 1) ⊎ (sides ≡ 2)
one_or_two_of sides h = ground arith

or_false : (a b : Bool) → (a || b) ≡ false → (a ≡ false) × (b ≡ false)
or_false false b h = (refl, h)
or_false true b h = absurd (ground (arith, h))

abbrev found_geometry : ℕ → ℕ → ℕ → FloppyGeometry
found_geometry filesize spt sides = record {
  sides = sides % 256;
  sectors_per_track = spt % 256;
  tracks = filesize / 512 / (sides * spt) % 256;
  bytes_per_sector = 512;
  total_sectors = filesize / 512;
}

-- The six refusals.
abbrev bad_size : ℕ → Bool
bad_size filesize = (filesize == 0) || not (filesize % 512 == 0)

abbrev bad_bps : ℕ → Bool
bad_bps bps = not (bps == 512)

abbrev bad_shape : ℕ → ℕ → Bool
bad_shape spt sides = not ((sides == 1) || (sides == 2)) || ltb spt 9 || ltb 11 spt

abbrev uneven : ℕ → ℕ → ℕ → Bool
uneven filesize spt sides = not (filesize / 512 % (sides * spt) == 0)

abbrev bad_tracks : ℕ → Bool
bad_tracks tracks = ltb tracks 80 || ltb 85 tracks

abbrev bad_total : ℕ → ℕ → Bool
bad_total filesize total = not (total == filesize / 512)

abbrev tracks_of : ℕ → ℕ → ℕ → ℕ
tracks_of filesize spt sides = filesize / 512 / (sides * spt)

validate_geometry-checked :
    (filesize bps total spt sides : ℕ)
    → validate_geometry filesize bps total spt sides
      ≡ checked
          (bad_size filesize)
          (bad_bps bps)
          (bad_shape spt sides)
          (uneven filesize spt sides)
          (bad_tracks (tracks_of filesize spt sides))
          (bad_total filesize total)
          (floppy_ok, found_geometry filesize spt sides)
unfolding validate_geometry
validate_geometry-checked filesize bps total spt sides = refl

IsDisk-of :
    (filesize bps total spt sides : ℕ)
    → Passed
        (bad_size filesize)
        (bad_bps bps)
        (bad_shape spt sides)
        (uneven filesize spt sides)
        (bad_tracks (tracks_of filesize spt sides))
        (bad_total filesize total)
    → IsDisk filesize bps total spt sides (tracks_of filesize spt sides)
IsDisk-of filesize bps total spt sides (c1, c2, c3, c4, c5, c6) =
    let (low_bad, _) = or_false (not ((sides == 1) || (sides == 2)) || ltb spt 9) (ltb 11 spt) c3 in
    let (sides_bad, _) = or_false (not ((sides == 1) || (sides == 2))) (ltb spt 9) low_bad in
    let whole = exact_tracks (filesize / 512) (sides * spt) c4 in
    record {
      one_or_two = one_or_two_of sides sides_bad;
      least_sectors = ground arith;
      most_sectors = ground arith;
      least_tracks = ground arith;
      most_tracks = ground arith;
      sector_size = ground arith;
      sector_count = ground (arith, whole);
      file_size = ground arith;
    }

geometry_of :
    (filesize bps total spt sides tracks : ℕ)
    → IsDisk filesize bps total spt sides tracks
    → tracks_of filesize spt sides ≡ tracks
    → found_geometry filesize spt sides ≡ disk_geometry sides spt tracks
geometry_of filesize bps total spt sides tracks d e =
    let (a, b, c) = small_disk sides spt tracks d.one_or_two d.most_sectors d.most_tracks in
    let t : filesize / 512 ≡ sides * spt * tracks = omega (arith, d.file_size, d.sector_count) in
    rw (e, a, b, c, t) refl

-- The parts of a disk's size.
tracks_of-disk :
    (filesize bps total spt sides tracks : ℕ)
    → IsDisk filesize bps total spt sides tracks
    → (tracks_of filesize spt sides ≡ tracks) × (filesize / 512 % (sides * spt) ≡ 0)
tracks_of-disk filesize bps total spt sides tracks d =
    let size : filesize / 512 ≡ sides * spt * tracks = omega (arith, d.file_size, d.sector_count) in
    let positive : 0 < sides * spt = elim d.one_or_two [
      | inl one ↦ rw one (omega (arith, d.least_sectors))
      | inr two ↦ rw two (omega (arith, d.least_sectors))
    ] in
    (rw size (mul-div_cancel_left tracks positive), rw size (mul-mod_right (sides * spt) tracks))

disk_passes :
    (filesize bps total spt sides tracks : ℕ)
    → IsDisk filesize bps total spt sides tracks
    → Passed
        (bad_size filesize)
        (bad_bps bps)
        (bad_shape spt sides)
        (uneven filesize spt sides)
        (bad_tracks (tracks_of filesize spt sides))
        (bad_total filesize total)
disk_passes filesize bps total spt sides tracks d =
    let (e, r) = tracks_of-disk filesize bps total spt sides tracks d in
    (ground (arith, e), ground arith, ground arith, ground arith, ground (arith, e), ground arith)

-- An image is accepted, with the geometry returned, exactly if it is a disk: 80 to 85 tracks on one
-- or two sides, 9 to 11 sectors of 512 bytes on a track, a file of that size, and a boot sector that
-- agrees. The tracks are found from the size.
pub validate_geometry_iff :
    (filesize bps total spt sides : ℕ) (g : FloppyGeometry)
    → (validate_geometry filesize bps total spt sides ≡ (floppy_ok, g)) ↔ (
        (tracks : ℕ) × IsDisk filesize bps total spt sides tracks
        × (g ≡ disk_geometry sides spt tracks))
validate_geometry_iff filesize bps total spt sides g = (
  λ h.
      let (ok, same) =
        checks-Passed (bad_size filesize) (bad_bps bps) (bad_shape spt sides)
          (uneven filesize spt sides) (bad_tracks (tracks_of filesize spt sides))
          (bad_total filesize total) (floppy_ok, found_geometry filesize spt sides) g
          (sym (validate_geometry-checked filesize bps total spt sides) ∙ h) in
      let disk = IsDisk-of filesize bps total spt sides ok in
      (
        tracks_of filesize spt sides,
        disk,
        sym (ap (λ (z : GeometryVerdict). z.1) same)
            ∙ geometry_of filesize bps total spt sides _ disk refl,
      ),
  λ (tracks, disk, same).
      let (c1, c2, c3, c4, c5, c6) = disk_passes filesize bps total spt sides tracks disk in
      let (e, _) = tracks_of-disk filesize bps total spt sides tracks disk in
      validate_geometry-checked filesize bps total spt sides
      ∙ rw (c1, c2, c3, c4, c5, c6)
          (ap (λ z. (floppy_ok, z))
            (geometry_of filesize bps total spt sides tracks disk e ∙ sym same)),
)
