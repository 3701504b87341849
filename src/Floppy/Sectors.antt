-- ===== src/Floppy/Sectors.antt =====
-- The sectors that romemul/sidetnfs_floppy_emul.c reads.
use side_tnfs_firmware.Prelude.{
  ◌≢◌, ◌∙◌, some, take, drop, length-take, length-drop, ◌≤◌, ◌<◌, ◌*◌, ◌⊎◌, ℕ, ◌+◌, ◌≡◌, refl, ap,
  inl, inr, Bool-cases, Option, none, Bool, true, false, List, leb, ◌==◌, if◌then◌else◌, length,
  arith, ◌%◌, ◌^◌,
}
use side_tnfs_firmware.Floppy.{FloppyStatus, floppy_ok, read_failed, FloppyGeometry, out_of_range}
use side_tnfs_firmware.Floppy.Volume.{
  FloppyBackend, no_backend, tnfs_backend, sd_backend, FloppyState, Media, read_sector_raw_from,
  read_sector, whole_sector, blank_sector,
}
use side_tnfs_firmware.Floppy.Settled.{IsLoaded, IsSettled}

-- The bytes of a sector in an image.
abbrev pub sector_of : List ℕ → ℕ → List ℕ
sector_of image lba = take 512 (drop (lba * 512) image)

-- A read that succeeds gives a prefix of what the file has behind the offset.
abbrev pub ReadsFrom : List ℕ → (ℕ → Option (List ℕ)) → Type 0
ReadsFrom image read =
    (offset : ℕ) (got : List ℕ)
    → read offset ≡ some got
    → got ≡ take (length got) (drop offset image)

-- The image is the file that the handle of this backend reads from.
abbrev pub Holds : List ℕ → Media → FloppyBackend → Type 0
Holds image m tnfs_backend = ReadsFrom image m.tnfs_read
Holds image m sd_backend = ReadsFrom image m.sd_read
Holds image m no_backend = Unit {0}

-- Wherever 512 bytes are left of the file, a seek succeeds and a read gives them.
abbrev pub IsAnswering : List ℕ → (ℕ → Bool) → (ℕ → Option (List ℕ)) → Type 0
IsAnswering image seek read =
    (offset : ℕ)
    → offset + 512 ≤ length image
    → (seek offset ≡ true) × (read offset ≡ some (take 512 (drop offset image)))

-- The image is a file of this backend that can be read.
abbrev pub Answers : List ℕ → Media → FloppyBackend → Type 0
Answers image m tnfs_backend = IsAnswering image m.tnfs_seek m.tnfs_read
Answers image m sd_backend = IsAnswering image m.sd_seek m.sd_read
Answers image m no_backend = ⊥

-- A read that succeeds, and one that does not.
abbrev pub Delivers : List ℕ → FloppyState → ℕ → FloppyStatus × List ℕ → Type 0
Delivers image st lba (status, bytes) =
    ((status ≡ floppy_ok)
      × (st.ready ≡ true)
      × (lba < st.geom.total_sectors)
      × (length bytes ≡ 512)
      × (bytes ≡ sector_of image lba))
    ⊎ ((status ≢ floppy_ok) × (bytes ≡ blank_sector))

-- What a backend reads: the sector, whole, or zeros.
abbrev IsSector : List ℕ → ℕ → FloppyStatus × List ℕ → Type 0
IsSector image lba (status, bytes) =
    ((status ≡ floppy_ok) × (length bytes ≡ 512) × (bytes ≡ sector_of image lba))
    ⊎ ((status ≢ floppy_ok) × (bytes ≡ blank_sector))

if-IsSector :
    (image : List ℕ) (lba : ℕ) (b : Bool) (r : FloppyStatus × List ℕ)
    → IsSector image lba r
    → IsSector image lba (if b then r else (read_failed, blank_sector))
if-IsSector image lba true r h = h
if-IsSector image lba false r h = inr (λ k. absurd (cc), refl)

whole_sector-IsSector :
    (image : List ℕ) (lba : ℕ) (o : Option (List ℕ))
    → ((got : List ℕ) → o ≡ some got → got ≡ take (length got) (drop (lba * 512) image))
    → IsSector image lba (whole_sector o)
unfolding whole_sector
whole_sector-IsSector image lba none h = inr (λ k. absurd (cc), refl)
whole_sector-IsSector image lba (some got) h = elim (Bool-cases (length got == 512)) [
  | inr e ↦ rw e (inr (λ k. absurd (cc), refl))
  | inl e ↦
      let whole : length got ≡ 512 = ground arith in
      let bytes = h got refl ∙ ap (λ n. take n (drop (lba * 512) image)) whole in
      rw e (inl (refl, whole, bytes))
]

read_sector_raw_from-IsSector :
    (image : List ℕ) (m : Media) (b : FloppyBackend) (lba : ℕ)
    → Holds image m b
    → lba * 512 < 2 ^ 32
    → IsSector image lba (read_sector_raw_from m b lba)
unfolding read_sector_raw_from
read_sector_raw_from-IsSector image m no_backend lba h low = inr (λ k. absurd (cc), refl)
read_sector_raw_from-IsSector image m sd_backend lba h low =
    if-IsSector image lba (m.sd_seek (lba * 512)) (whole_sector (m.sd_read (lba * 512)))
      (whole_sector-IsSector image lba (m.sd_read (lba * 512)) (h (lba * 512)))
read_sector_raw_from-IsSector image m tnfs_backend lba h low =
    let exact : lba * 512 % 2 ^ 32 ≡ lba * 512 = omega (arith, low) in
    rw exact (
      if-IsSector image lba (m.tnfs_seek (lba * 512)) (whole_sector (m.tnfs_read (lba * 512)))
        (whole_sector-IsSector image lba (m.tnfs_read (lba * 512)) (h (lba * 512))))

product-le : (a b c d : ℕ) → a ≤ c → b ≤ d → a * b ≤ c * d
product-le a b c d h k = grind arith

disk_sectors-le :
    (sides spt tracks : ℕ)
    → (sides ≡ 1) ⊎ (sides ≡ 2)
    → spt ≤ 11
    → tracks ≤ 85
    → sides * spt * tracks ≤ 1870
disk_sectors-le sides spt tracks s h k =
    let few : sides * spt ≤ 2 * 11 = product-le sides spt 2 11 (omega arith) h in
    product-le (sides * spt) tracks (2 * 11) 85 few k

loaded_bounds :
    (st : FloppyState) (l : IsLoaded st)
    → (st.geom.total_sectors ≤ 1870) × (l.filesize ≡ 512 * st.geom.total_sectors)
loaded_bounds st l =
    let total : st.geom.total_sectors ≡ l.sides * l.sectors_per_track * l.tracks =
      ap (λ (g : FloppyGeometry). g.total_sectors) l.shape in
    (
      omega (
        arith,
        total,
        disk_sectors-le l.sides l.sectors_per_track l.tracks l.disk.one_or_two l.disk.most_sectors
            l.disk.most_tracks,
      ),
      omega (arith, total, l.disk.sector_count, l.disk.file_size),
    )

loaded-Delivers :
    (image : List ℕ) (m : Media) (st : FloppyState) (lba : ℕ)
    → IsLoaded st
    → Holds image m st.backend
    → Delivers image st lba (read_sector m st lba)
unfolding read_sector
loaded-Delivers image m st lba l h =
    let (few, _) = loaded_bounds st l in
    elim (Bool-cases (leb st.geom.total_sectors lba)) [
      | inl out ↦ rw (l.is_ready, out) (inr (λ k. absurd (cc), refl))
      | inr within ↦
          let inside : lba < st.geom.total_sectors = ground arith in
          let low : lba * 512 < 2 ^ 32 = omega (arith, few, inside) in
          elim (read_sector_raw_from-IsSector image m st.backend lba h low) [
            | inl (ok, whole, bytes) ↦
                rw (l.is_ready, within) (inl (ok, refl, inside, whole, bytes))
            | inr failed ↦ rw (l.is_ready, within) (inr failed)
          ]
    ]

-- On a state that is a validated image or nothing, whose handle reads from the given file: a read
-- succeeds only on a ready image and at a sector of its geometry, and then the buffer has the 512 bytes
-- of the file at 512 times the sector; in every other case the buffer is all zeros.
pub read_sector-Delivers :
    (image : List ℕ) (m : Media) (st : FloppyState) (lba : ℕ)
    → IsSettled st
    → Holds image m st.backend
    → Delivers image st lba (read_sector m st lba)
unfolding read_sector
read_sector-Delivers image m st lba (inl l) h = loaded-Delivers image m st lba l h
read_sector-Delivers image m st lba (inr e) h = rw e (inr (λ k. absurd (cc), refl))

sector-length :
    (image : List ℕ) (lba : ℕ) → lba * 512 + 512 ≤ length image → length (sector_of image lba) ≡ 512
sector-length image lba h =
    omega (arith, h, length-take 512 (drop (lba * 512) image), length-drop (lba * 512) image)

answered :
    (image : List ℕ) (m : Media) (b : FloppyBackend) (lba : ℕ)
    → Answers image m b
    → lba * 512 + 512 ≤ length image
    → lba * 512 < 2 ^ 32
    → read_sector_raw_from m b lba ≡ (floppy_ok, sector_of image lba)
unfolding read_sector_raw_from whole_sector
answered image m no_backend lba a size low = absurd a
answered image m sd_backend lba a size low =
    let (sought, got) = a (lba * 512) size in
    let whole : (length (sector_of image lba) == 512) ≡ true =
      ground (arith, sector-length image lba size) in
    rw (sought, got, whole) refl
answered image m tnfs_backend lba a size low =
    let exact : lba * 512 % 2 ^ 32 ≡ lba * 512 = omega (arith, low) in
    let (sought, got) = a (lba * 512) size in
    let whole : (length (sector_of image lba) == 512) ≡ true =
      ground (arith, sector-length image lba size) in
    rw (exact, sought, got, whole) refl

-- On a validated image on either backend, whose file has the size that was validated and can be read
-- wherever 512 bytes are left: every sector of the geometry lies inside the file and is read, as its 512
-- bytes, and every other sector is refused as out of range, with zeros.
pub read_sector-inside :
    (image : List ℕ) (m : Media) (st : FloppyState) (lba : ℕ) (l : IsLoaded st)
    → length image ≡ l.filesize
    → Answers image m st.backend
    → (lba < st.geom.total_sectors
        → (lba * 512 + 512 ≤ length image)
          × (read_sector m st lba ≡ (floppy_ok, sector_of image lba)))
      × (st.geom.total_sectors ≤ lba → read_sector m st lba ≡ (out_of_range, blank_sector))
unfolding read_sector
read_sector-inside image m st lba l size a =
    let (few, bytes) = loaded_bounds st l in
    (
      λ inside.
          let within : leb st.geom.total_sectors lba ≡ false = ground arith in
          let fits : lba * 512 + 512 ≤ length image = omega (arith, inside, bytes, size) in
          let low : lba * 512 < 2 ^ 32 = omega (arith, inside, few) in
          (fits, rw (l.is_ready, within) (answered image m st.backend lba a fits low)),
      λ over.
          let out : leb st.geom.total_sectors lba ≡ true = ground arith in
          rw (l.is_ready, out) refl,
    )
