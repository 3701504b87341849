-- ===== src/Browse/Tests.antt =====
-- The pages of a folder at concrete inputs.
use side_tnfs_firmware.Prelude.{
  ◌≤◌, ◌<◌, ◌%◌, ◌^◌, replicate, ◌≡◌, refl, true, false, List, [], ◌∷◌, ◌++◌, drop, arith,
}
use side_tnfs_firmware.Drives.Flash.{codes}
use side_tnfs_firmware.Browse.{
  dir_ok, Slot, RawReply, end_of_directory, raw_entry, Answer, phase_skip, take_entry, same_kind,
  take_reply, read_round, open_round, take_round, take_rounds, fresh_walk, resuming, browse_ok,
  in_progress, page_result, Session, get_page,
}
use side_tnfs_firmware.Browse.Rounds.{Serves}
use side_tnfs_firmware.Browse.Listing.{in_order}
use side_tnfs_firmware.Browse.Resume.{skip_of, Shows, get_page-resumed, get_page-Serves}

abbrev image : Slot
image = (codes "a.st", false)

abbrev games : Slot
games = (codes "games", true)

abbrev folder : List Slot
folder = image ∷ games ∷ []

abbrev answer : RawReply → Answer
answer reply = record { opens = dir_ok; reply = reply }

abbrev first_call : List Answer
first_call = answer (raw_entry image) ∷ answer (raw_entry games) ∷ []

abbrev second_call : List Answer
second_call =
    answer end_of_directory
    ∷ answer (raw_entry image)
    ∷ answer (raw_entry games)
    ∷ answer end_of_directory
    ∷ []

abbrev session : Session
session = record {
  is_open = true;
  generation = 1;
  walk = record (fresh_walk 1 0) { active = false };
}

first_status : (get_page 1 0 first_call session).0.status ≡ in_progress
unfolding get_page take_rounds take_round open_round read_round take_reply take_entry phase_skip
    same_kind fresh_walk resuming page_result
first_status = refl

get_page-resumed_example :
    get_page 1 0 second_call (get_page 1 0 first_call session).1
    ≡ get_page 1 0 (first_call ++ second_call) session
get_page-resumed_example =
    get_page-resumed 1 0 first_call second_call session refl refl first_status

folder-Serves : Serves folder (skip_of 0) (first_call ++ second_call) [] (fresh_walk 1 0)
unfolding take_round open_round read_round take_reply take_entry phase_skip same_kind fresh_walk
folder-Serves =
    (refl, refl, (refl, refl, (refl, refl, (refl, refl, (refl, refl, (refl, refl, tt))))))

get_page-Serves_example :
    let page = get_page 1 0 (first_call ++ second_call) session in
    (0 < 2 ^ 32 → Shows (drop 0 (in_order folder)) page)
    × (2 ^ 32 ≤ 0 → Shows (drop (0 % 2 ^ 32) (in_order folder)) page)
get_page-Serves_example =
    get_page-Serves folder 1 0 (first_call ++ second_call) session refl refl refl (omega arith)
      (omega arith) folder-Serves

-- The page 286331154 of 15 images is not behind their end: it shows the last of them.
abbrev images : List Answer
images = replicate 15 (answer (raw_entry image))

far_page :
    let (r, s) =
      get_page 1 286331154
        (images ++ (answer end_of_directory ∷ []) ++ images ++ (answer end_of_directory ∷ []))
        session in
    (r.status ≡ browse_ok) × (s.walk.page ≡ image ∷ [])
unfolding get_page take_rounds take_round open_round read_round take_reply take_entry phase_skip
    same_kind fresh_walk resuming page_result
far_page = (refl, refl)
