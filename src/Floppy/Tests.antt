-- ===== src/Floppy/Tests.antt =====
-- The emulated floppy at concrete images.
use side_tnfs_firmware.Prelude.{
  ◌∙◌, zero, suc, sym, ap, subst, inl, take, drop, length, length-append, length-replicate, ◌≤◌,
  ◌<◌, ◌*◌, ◌↔◌, ◌++◌, replicate, ℕ, ◌+◌, ◌≡◌, refl, inr, none, some, true, List, [], ◌∷◌, ◌==◌,
  if◌then◌else◌, arith,
}
use side_tnfs_firmware.Floppy.{floppy_ok, is_floppy_ok, validate_geometry, out_of_range}
use side_tnfs_firmware.Floppy.Volume.{
  tnfs_backend, FloppyState, FloppySource, tnfs_source, sd_source, Media, other_mount_error,
  tnfs_opened, no_file, handle_of, close_state, read_sector_raw_from, has_session, read_sector,
  whole_sector, blank_sector,
}
use side_tnfs_firmware.Floppy.Open.{
  validate_image, tnfs_file_opened, tnfs_sized, open_tnfs, open_source, open_into,
}
use side_tnfs_firmware.Floppy.Swap.{emul_open}
use side_tnfs_firmware.Floppy.Commands.{
  Command, open_command, candidate_command, commit_command, execute_all, power_on,
}
use side_tnfs_firmware.Floppy.Geometry.{IsDisk, disk_geometry, validate_geometry_iff}
use side_tnfs_firmware.Floppy.Handles.{IsBalanced}
use side_tnfs_firmware.Floppy.Balance.{execute_all-IsBalanced}
use side_tnfs_firmware.Floppy.Settled.{IsLoaded, AreSettled, execute_all-AreSettled}
use side_tnfs_firmware.Floppy.Sectors.{
  sector_of, Holds, Answers, Delivers, read_sector-Delivers, read_sector-inside,
}

-- A double-sided disk of 80 tracks with 9 sectors each.
abbrev boot_sector : List ℕ
boot_sector =
    replicate 11 0
    ++ (0 ∷ 2 ∷ [])
    ++ (replicate 6 0 ++ (160 ∷ 5 ∷ []))
    ++ (replicate 3 0 ++ (9 ∷ 0 ∷ 2 ∷ 0 ∷ []))
    ++ replicate 484 0

-- A server that has the image at any path, and a card that has no file.
abbrev server : Media
server = record {
  slot_context = none;
  mount = true;
  mount_error = λ _. other_mount_error;
  tnfs_open = λ _. tnfs_opened 5;
  tnfs_end = some 737280;
  tnfs_seek = λ _. true;
  tnfs_read = λ offset. if offset == 0 then some boot_sector else some (replicate 512 7);
  sd_ready = true;
  sd_open = λ _. no_file;
  sd_seek = λ _. true;
  sd_read = λ _. none;
}

abbrev source : FloppySource
source = record { source_backend = tnfs_source; port = 16384; host = b'h' ∷ [] }

abbrev card : FloppySource
card = record { source_backend = sd_source; port = 0; host = [] }

abbrev path : List ℕ
path = b'/' ∷ b'a' ∷ []

abbrev loaded : FloppyState
loaded = record {
  backend = tnfs_backend;
  handle_open = true;
  ready = true;
  tnfs_slot = 9;
  tnfs_handle = 5;
  sd_file = 0;
  geom = disk_geometry 2 9 80;
}

-- Opening the image loads it.
opens : (emul_open server source path true power_on).1.active ≡ loaded
unfolding emul_open open_into open_source open_tnfs has_session tnfs_file_opened tnfs_sized
    validate_image read_sector_raw_from whole_sector validate_geometry is_floppy_ok close_state
    handle_of
opens = refl

-- An image is opened, a missing one is tried as a candidate, and a good candidate is committed.
abbrev session : List Command
session =
    open_command server source path true
    ∷ candidate_command server card path true
    ∷ candidate_command server source path true
    ∷ commit_command
    ∷ []

power_on-IsBalanced : IsBalanced power_on
power_on-IsBalanced h = refl

execute_all-IsBalanced_example : IsBalanced (execute_all session power_on)
execute_all-IsBalanced_example = execute_all-IsBalanced session power_on power_on-IsBalanced

power_on-AreSettled : AreSettled power_on
power_on-AreSettled = record { active_settled = inr refl; candidate_settled = inr refl }

execute_all-AreSettled_example : AreSettled (execute_all session power_on)
execute_all-AreSettled_example = execute_all-AreSettled session power_on power_on-AreSettled

-- The image's size and boot sector are those of a disk.
validate_geometry_iff_example :
    (validate_geometry 737280 512 1440 9 2 ≡ (floppy_ok, disk_geometry 2 9 80)) ↔ (
      (tracks : ℕ) × IsDisk 737280 512 1440 9 2 tracks
      × (disk_geometry 2 9 80 ≡ disk_geometry 2 9 tracks))
validate_geometry_iff_example = validate_geometry_iff 737280 512 1440 9 2 (disk_geometry 2 9 80)

abbrev loaded-IsLoaded : IsLoaded loaded
loaded-IsLoaded = record {
  is_open = refl;
  is_ready = refl;
  filesize = 737280;
  sides = 2;
  sectors_per_track = 9;
  tracks = 80;
  disk = record {
    one_or_two = inr refl;
    least_sectors = omega arith;
    most_sectors = omega arith;
    least_tracks = omega arith;
    most_tracks = omega arith;
    sector_size = refl;
    sector_count = refl;
    file_size = refl;
  };
  shape = refl;
}

-- An image of the boot sector and of bytes that are all the same.
image_with : ℕ → List ℕ
image_with rest = boot_sector ++ replicate rest 7

length-image_with : (rest : ℕ) → length (image_with rest) ≡ 512 + rest
unfolding image_with
length-image_with rest =
    length-append boot_sector (replicate rest 7)
    ∙ ap (λ n. 512 + n) (length-replicate {A = ℕ} rest 7)

disk_image : List ℕ
disk_image = image_with 736768

disk_image-length : length disk_image ≡ 737280
unfolding disk_image
disk_image-length = length-image_with 736768

-- A server that gives what is asked for, as far as the image has it.
abbrev disk_server : Media
disk_server = record server { tnfs_read = λ offset. some (take 512 (drop offset disk_image)) }

shorter_take : (n : ℕ) (xs : List ℕ) → take (length (take n xs)) xs ≡ take n xs
shorter_take zero xs = refl
shorter_take (suc n) [] = refl
shorter_take (suc n) (x ∷ xs) = ap (λ l. x ∷ l) (shorter_take n xs)

some_inv : (x y : List ℕ) → some x ≡ some y → x ≡ y
some_inv x y h = cc

disk_server-Holds : Holds disk_image disk_server tnfs_backend
disk_server-Holds offset got h =
    let e = some_inv (take 512 (drop offset disk_image)) got h in
    subst (λ (l : List ℕ). l ≡ take (length l) (drop offset disk_image)) e
      (sym (shorter_take 512 (drop offset disk_image)))

disk_server-Answers : Answers disk_image disk_server tnfs_backend
disk_server-Answers offset h = (refl, refl)

read_sector-Delivers_example : Delivers disk_image loaded 1439 (read_sector disk_server loaded 1439)
read_sector-Delivers_example =
    read_sector-Delivers disk_image disk_server loaded 1439 (inl loaded-IsLoaded) disk_server-Holds

read_sector-inside_example :
    (1439 < 1440
      → (1439 * 512 + 512 ≤ length disk_image)
        × (read_sector disk_server loaded 1439 ≡ (floppy_ok, sector_of disk_image 1439)))
    × (1440 ≤ 1439 → read_sector disk_server loaded 1439 ≡ (out_of_range, blank_sector))
read_sector-inside_example =
    read_sector-inside disk_image disk_server loaded 1439 loaded-IsLoaded disk_image-length
      disk_server-Answers
