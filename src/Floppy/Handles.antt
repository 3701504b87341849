-- ===== src/Floppy/Handles.antt =====
-- The handles of romemul/sidetnfs_floppy_emul.c: which are open, and who closes them.
use side_tnfs_firmware.Prelude.{
  ℕ, ◌+◌, ◌≡◌, refl, inl, inr, Bool-cases, Option, none, some, Bool, true, false, not, ◌&&◌, ◌||◌,
  List, [], ◌∷◌, ◌==◌, if◌then◌else◌, length, arith, drop, read_le16, ◌%◌, ◌^◌,
}
use side_tnfs_firmware.Floppy.{
  FloppyStatus, filesize_invalid, read_failed, backend_error, is_floppy_ok, validate_geometry,
}
use side_tnfs_firmware.Floppy.Volume.{
  tnfs_backend, sd_backend, FloppyState, FloppySource, SourceBackend, tnfs_source, sd_source,
  other_source, Media, TnfsOpen, tnfs_opened, tnfs_not_found, tnfs_open_error, SdOpen, sd_opened,
  no_file, no_path, denied, other_sd_error, Handle, tnfs_handle_of, sd_handle_of, Call,
  populate_slot, opened, closed, handle_of, close_calls, close_state, read_sector_raw_from,
  has_session, floppy_slot,
}
use side_tnfs_firmware.Floppy.Open.{
  Opening, fail_closed, validate_image, tnfs_file_opened, tnfs_sized, open_sd_path, open_tnfs,
  sd_file_opened, prefix_sd_drive, open_sd, open_source, open_into,
}
use side_tnfs_firmware.Floppy.Swap.{Floppy}

-- 1 for the same handle, 0 for another.
unfoldable pub same : Handle → Handle → ℕ
same (tnfs_handle_of slot handle) (tnfs_handle_of slot' handle') =
    if (slot == slot') && (handle == handle') then 1 else 0
same (sd_handle_of file) (sd_handle_of file') = if file == file' then 1 else 0
same _ _ = 0

-- How often a handle was opened and closed, and how often a state keeps it.
abbrev pub opened_count : Handle → List Call → ℕ
opened_count h [] = 0
opened_count h (opened k ∷ log) = same h k + opened_count h log
opened_count h (closed k ∷ log) = opened_count h log
opened_count h (populate_slot host port ∷ log) = opened_count h log

abbrev pub closed_count : Handle → List Call → ℕ
closed_count h [] = 0
closed_count h (opened k ∷ log) = closed_count h log
closed_count h (closed k ∷ log) = same h k + closed_count h log
closed_count h (populate_slot host port ∷ log) = closed_count h log

abbrev pub held : Handle → List Handle → ℕ
held h [] = 0
held h (k ∷ _) = same h k

abbrev pub kept : Handle → FloppyState → ℕ
kept h st =
    if st.handle_open
    then held h (handle_of st.backend st.tnfs_slot st.tnfs_handle st.sd_file)
    else 0

-- Every handle opened was closed since, or is kept by one of the two states.
abbrev pub IsBalanced : Floppy → Type 0
IsBalanced f =
    (h : Handle)
    → opened_count h f.log ≡ closed_count h f.log + kept h f.active + kept h f.candidate

module _ (h : Handle) where
  opened_count-close_calls :
      (hs : List Handle) (log : List Call)
      → opened_count h (close_calls hs log) ≡ opened_count h log
  unfolding close_calls
  opened_count-close_calls [] log = refl
  opened_count-close_calls (k ∷ hs) log = refl

  closed_count-close_calls :
      (hs : List Handle) (log : List Call)
      → closed_count h (close_calls hs log) ≡ closed_count h log + held h hs
  unfolding close_calls
  closed_count-close_calls [] log = omega arith
  closed_count-close_calls (k ∷ hs) log = omega arith

  pub opened_count-close_state :
      (st : FloppyState) (log : List Call)
      → opened_count h (close_state st log).1 ≡ opened_count h log
  unfolding close_state
  opened_count-close_state st log = elim (Bool-cases st.handle_open) [
    | inl e ↦ rw e (opened_count-close_calls _ log)
    | inr e ↦ rw e refl
  ]

  pub closed_count-close_state :
      (st : FloppyState) (log : List Call)
      → closed_count h (close_state st log).1 ≡ closed_count h log + kept h st
  unfolding close_state
  closed_count-close_state st log = elim (Bool-cases st.handle_open) [
    | inl e ↦ rw e (closed_count-close_calls _ log)
    | inr e ↦ rw e (omega arith)
  ]

  -- What was opened since a log is closed since, or kept.
  unfoldable pub Accounts : List Call → FloppyState → List Call → Type 0
  Accounts log st log' =
      opened_count h log' + closed_count h log
      ≡ opened_count h log + closed_count h log' + kept h st

  unfoldable pub AccountsFor : List Call → Opening → Type 0
  AccountsFor log o = Accounts log o.1 o.2

  fail_closed-Accounts :
      (log : List Call) (status : FloppyStatus) (st : FloppyState) (log' : List Call)
      → Accounts log st log'
      → AccountsFor log (fail_closed status st log')
  unfolding fail_closed Accounts AccountsFor close_state
  fail_closed-Accounts log status st log' a =
      omega (arith, opened_count-close_state st log', closed_count-close_state st log')

  validate_image-Accounts :
      (m : Media) (log : List Call) (st : FloppyState) (log' : List Call) (filesize : ℕ)
      → Accounts log st log'
      → AccountsFor log (validate_image m st log' filesize)
  unfolding validate_image Accounts AccountsFor
  validate_image-Accounts m log st log' filesize a =
      let read = read_sector_raw_from m st.backend 0 in
      let verdict =
        validate_geometry filesize (read_le16 (drop 11 read.1)) (read_le16 (drop 19 read.1))
          (read_le16 (drop 24 read.1)) (read_le16 (drop 26 read.1)) in
      elim (Bool-cases ((filesize == 0) || not (filesize % 512 == 0))) [
        | inl e ↦ rw e (fail_closed-Accounts log filesize_invalid st log' a)
        | inr e ↦ elim (Bool-cases (not (is_floppy_ok read.0))) [
          | inl k ↦ rw (e, k) (fail_closed-Accounts log read_failed st log' a)
          | inr k ↦ elim (Bool-cases (not (is_floppy_ok verdict.0))) [
            | inl l ↦
                rw (e, k, l)
                  (fail_closed-Accounts log verdict.0 (record st { geom = verdict.1 }) log' a)
            | inr l ↦ rw (e, k, l) a
          ]
        ]
      ]

  now_tnfs :
      (log : List Call) (st : FloppyState) (log' : List Call) (handle : ℕ)
      → kept h st ≡ 0
      → Accounts log st log'
      → Accounts log
          (record st {
            backend = tnfs_backend;
            tnfs_slot = floppy_slot;
            tnfs_handle = handle;
            handle_open = true;
          })
          (opened (tnfs_handle_of floppy_slot handle) ∷ log')
  unfolding Accounts handle_of
  now_tnfs log st log' handle z a = omega arith

  now_sd :
      (log : List Call) (st : FloppyState) (log' : List Call) (file : ℕ)
      → kept h st ≡ 0
      → Accounts log st log'
      → Accounts log
          (record st { backend = sd_backend; sd_file = file; handle_open = true })
          (opened (sd_handle_of file) ∷ log')
  unfolding Accounts handle_of
  now_sd log st log' file z a = omega arith

  tnfs_sized-Accounts :
      (m : Media) (log : List Call) (st : FloppyState) (log' : List Call) (end : Option ℕ)
      → Accounts log st log'
      → AccountsFor log (tnfs_sized m st log' end)
  unfolding tnfs_sized
  tnfs_sized-Accounts m log st log' none a = fail_closed-Accounts log backend_error st log' a
  tnfs_sized-Accounts m log st log' (some size) a = validate_image-Accounts m log st log' size a

  if-Accounts :
      (log : List Call) (b : Bool) (x y : Opening)
      → AccountsFor log x
      → AccountsFor log y
      → AccountsFor log (if b then x else y)
  if-Accounts log true x y ax ay = ax
  if-Accounts log false x y ax ay = ay

  tnfs_file_opened-Accounts :
      (m : Media) (log : List Call) (st : FloppyState) (log' : List Call) (o : TnfsOpen)
      → kept h st ≡ 0
      → Accounts log st log'
      → AccountsFor log (tnfs_file_opened m st log' o)
  unfolding tnfs_file_opened Accounts AccountsFor
  tnfs_file_opened-Accounts m log st log' tnfs_not_found z a = a
  tnfs_file_opened-Accounts m log st log' tnfs_open_error z a = a
  tnfs_file_opened-Accounts m log st log' (tnfs_opened handle) z a =
      let st' = record st {
        backend = tnfs_backend;
        tnfs_slot = floppy_slot;
        tnfs_handle = handle;
        handle_open = true;
      } in
      let log'' = opened (tnfs_handle_of floppy_slot handle) ∷ log' in
      let now : Accounts log st' log'' = now_tnfs log st log' handle z a in
      tnfs_sized-Accounts m log st' log'' m.tnfs_end now

  sd_file_opened-Accounts :
      (m : Media) (log : List Call) (st : FloppyState) (log' : List Call) (o : SdOpen)
      → kept h st ≡ 0
      → Accounts log st log'
      → AccountsFor log (sd_file_opened m st log' o)
  unfolding sd_file_opened Accounts AccountsFor
  sd_file_opened-Accounts m log st log' no_file z a = a
  sd_file_opened-Accounts m log st log' no_path z a = a
  sd_file_opened-Accounts m log st log' denied z a = a
  sd_file_opened-Accounts m log st log' other_sd_error z a = a
  sd_file_opened-Accounts m log st log' (sd_opened file filesize) z a =
      validate_image-Accounts m log
        (record st { backend = sd_backend; sd_file = file; handle_open = true })
        (opened (sd_handle_of file) ∷ log') (filesize % 2 ^ 32) (now_sd log st log' file z a)

  -- A state that keeps nothing and a log with no handle in between.
  idle-Accounts : (log : List Call) (st : FloppyState) → kept h st ≡ 0 → Accounts log st log
  unfolding Accounts
  idle-Accounts log st z = omega arith

  populated-Accounts :
      (log : List Call) (st : FloppyState) (host : List ℕ) (port : ℕ) (b : Bool)
      → kept h st ≡ 0
      → Accounts log st (if b then log else populate_slot host port ∷ log)
  unfolding Accounts
  populated-Accounts log st host port true z = omega arith
  populated-Accounts log st host port false z = omega arith

  open_tnfs-Accounts :
      (m : Media) (st : FloppyState) (source : FloppySource) (path : List ℕ) (net : Bool)
      (log : List Call)
      → kept h st ≡ 0
      → AccountsFor log (open_tnfs m st source path net log)
  unfolding open_tnfs Accounts AccountsFor
  open_tnfs-Accounts m st source path net log z =
      let log' =
        if has_session m.slot_context source
        then log
        else populate_slot source.host source.port ∷ log in
      let quiet : Accounts log st log' =
        populated-Accounts log st source.host source.port (has_session m.slot_context source) z in
      if-Accounts log (length source.host == 0) _ _ (idle-Accounts log st z) (
        if-Accounts log (not m.mount) _ _ quiet
          (tnfs_file_opened-Accounts m log st log' (m.tnfs_open path) z quiet))

  open_sd_path-Accounts :
      (m : Media) (st : FloppyState) (log : List Call) (full_path : Option (List ℕ))
      → kept h st ≡ 0
      → AccountsFor log (open_sd_path m st log full_path)
  unfolding open_sd_path AccountsFor
  open_sd_path-Accounts m st log none z = idle-Accounts log st z
  open_sd_path-Accounts m st log (some full_path) z =
      sd_file_opened-Accounts m log st log (m.sd_open full_path) z (idle-Accounts log st z)

  open_source-Accounts :
      (b : SourceBackend) (m : Media) (st : FloppyState) (source : FloppySource) (path : List ℕ)
      (net : Bool) (log : List Call)
      → kept h st ≡ 0
      → AccountsFor log (open_source b m st source path net log)
  unfolding open_source open_sd AccountsFor
  open_source-Accounts tnfs_source m st source path net log z =
      open_tnfs-Accounts m st source path net log z
  open_source-Accounts sd_source m st source path net log z =
      if-Accounts log (not m.sd_ready) _ _ (idle-Accounts log st z)
        (open_sd_path-Accounts m st log (prefix_sd_drive path) z)
  open_source-Accounts other_source m st source path net log z = idle-Accounts log st z

  pub open_into-Accounts :
      (m : Media) (st : FloppyState) (source : FloppySource) (path : List ℕ) (net : Bool)
      (log : List Call)
      → kept h st ≡ 0
      → AccountsFor log (open_into m st source path net log)
  unfolding open_into AccountsFor
  open_into-Accounts m st source path net log z =
      if-Accounts log (length path == 0) _ _ (idle-Accounts log st z)
        (open_source-Accounts source.source_backend m st source path net log z)
