-- ===== src/Names/Entry.antt =====
-- romemul/sidetnfs_probe.c: a directory entry of a TNFS server in the Atari's form, its date, and
-- the test of its attributes.
use Prim.Native.Nat.{bit_and}
use side_tnfs_firmware.Prelude.{
  ℕ, ◌+◌, ◌-◌, ◌*◌, ◌/◌, ◌%◌, ◌^◌, ◌≤◌, ◌<◌, ◌≡◌, ◌≢◌, inl, inr, refl, Bool, true, false, Option,
  none, some, List, [], ltb, ◌==◌, not, if◌then◌else◌, take, arith, Bool-cases, min,
}
use side_tnfs_firmware.Names.{is_supported_83_name}

-- `struct tm`, with the year written out.
pub record Tm : Type 0 where
  pub year : ℕ
  pub mon : ℕ
  pub mday : ℕ
  pub hour : ℕ
  pub minute : ℕ
  pub sec : ℕ

abbrev pub DosDatetime : Type 0
DosDatetime = ℕ × ℕ

-- 1980-01-01, 0:00.
abbrev pub no_date : DosDatetime
no_date = (33, 0)

-- The fields that `gmtime` fills do not overlap, so that they are added.
unfoldable pub pack_datetime : Option Tm → DosDatetime
pack_datetime none = no_date
pack_datetime (some utc) =
    let year = if ltb 127 (utc.year - 1980) then 127 else utc.year - 1980 in
    if ltb utc.year 1980 then no_date else (
      (year * 512 + (utc.mon + 1) * 32 + utc.mday) % 2 ^ 16,
      (utc.hour * 2048 + utc.minute * 32 + utc.sec / 2) % 2 ^ 16,
    )

-- `unix_epoch_to_dos_datetime`; `gmtime` is the C library's.
unfoldable pub unix_epoch_to_dos_datetime : (ℕ → Option Tm) → ℕ → DosDatetime
unfolding pack_datetime
unix_epoch_to_dos_datetime gmtime unix_time =
    pack_datetime (if unix_time == 0 then none else gmtime unix_time)

-- `SidetnfsAtariDirEntry`
pub record AtariDirEntry : Type 0 where
  pub name : List ℕ
  pub attr : ℕ
  pub size : ℕ
  pub date : ℕ
  pub time : ℕ
  pub valid : Bool
  pub skipped : Bool

abbrev pub skipped_entry : AtariDirEntry
skipped_entry = record {
  name = [];
  attr = 0;
  size = 0;
  date = 0;
  time = 0;
  valid = false;
  skipped = true;
}

-- A bit of the flags of READDIRX.
unfoldable pub has_flag : ℕ → ℕ → Bool
has_flag flags bit = not (bit_and flags bit == 0)

-- `FS_ST_FOLDER` and `FS_ST_HIDDEN`
unfoldable pub attr_of : Bool → Bool → ℕ
attr_of is_dir is_hidden = (if is_dir then 16 else 0) + (if is_hidden then 2 else 0)

-- `sidetnfs_normalize_dir_entry`
unfoldable pub normalize_dir_entry : (ℕ → Option Tm) → List ℕ → ℕ → ℕ → ℕ → Bool × AtariDirEntry
normalize_dir_entry gmtime tnfs_name tnfs_flags tnfs_size tnfs_mtime =
    let is_dir = has_flag tnfs_flags 1 in
    let (date, time) = unix_epoch_to_dos_datetime gmtime tnfs_mtime in
    if has_flag tnfs_flags 4
    then (false, skipped_entry)
    else if not (is_supported_83_name tnfs_name)
    then (false, skipped_entry)
    else (
      true,
      record {
        name = take 13 tnfs_name;
        attr = attr_of is_dir (has_flag tnfs_flags 2);
        size = if is_dir then 0 else tnfs_size;
        date = date;
        time = time;
        valid = true;
        skipped = false;
      },
    )

-- `sidetnfs_gemdos_attr_match`: a plain file counts as archived.
unfoldable pub gemdos_attr_match : ℕ → ℕ → Bool
gemdos_attr_match entry_attr search_attr =
    not (bit_and (if entry_attr == 0 then 32 else entry_attr) search_attr == 0)

-- What the C library promises of `gmtime`.
pub record IsTm (t : Tm) : Type 0 where
  pub month : t.mon ≤ 11
  pub first_day : 1 ≤ t.mday
  pub last_day : t.mday ≤ 31
  pub hours : t.hour ≤ 23
  pub minutes : t.minute ≤ 59
  pub seconds : t.sec ≤ 60

-- A packed date and time read back: the fields of `t`, its year held at 2107 and its seconds halved.
pub record Encodes (t : Tm) (d : DosDatetime) : Type 0 where
  pub year : d.0 / 512 ≡ min 127 (t.year - 1980)
  pub month : d.0 / 32 % 16 ≡ t.mon + 1
  pub day : d.0 % 32 ≡ t.mday
  pub hour : d.1 / 2048 ≡ t.hour
  pub minute : d.1 / 32 % 64 ≡ t.minute
  pub seconds : d.1 % 32 ≡ t.sec / 2

clamp-min : (y : ℕ) → (if ltb 127 y then 127 else y) ≡ min 127 y
clamp-min y = ground arith

packed : (t : Tm) → IsTm t → 1980 ≤ t.year → Encodes t (pack_datetime (some t))
unfolding pack_datetime
packed t h y =
    let late : ltb t.year 1980 ≡ false = ground arith in
    rw (late, clamp-min (t.year - 1980))
      (record {
        year = omega (arith, h.month, h.last_day);
        month = omega (arith, h.month, h.last_day);
        day = omega (arith, h.month, h.last_day);
        hour = omega (arith, h.hours, h.minutes, h.seconds);
        minute = omega (arith, h.hours, h.minutes, h.seconds);
        seconds = omega (arith, h.hours, h.minutes, h.seconds);
      })

-- A time of modification that `gmtime` breaks down into a date from 1980 on is packed so that every
-- field is read back, the year held at 2107 and the seconds halved. A time of 0, one that `gmtime`
-- refuses and one before 1980 become the first of January 1980.
pub unix_epoch_to_dos_datetime-Encodes :
    (gmtime : ℕ → Option Tm) (unix_time : ℕ)
    → ((t : Tm) → gmtime unix_time ≡ some t → IsTm t)
    → ((t : Tm)
        → unix_time ≢ 0
        → gmtime unix_time ≡ some t
        → 1980 ≤ t.year
        → Encodes t (unix_epoch_to_dos_datetime gmtime unix_time))
      × (unix_time ≡ 0 → unix_epoch_to_dos_datetime gmtime unix_time ≡ no_date)
      × (gmtime unix_time ≡ none → unix_epoch_to_dos_datetime gmtime unix_time ≡ no_date)
      × ((t : Tm)
          → gmtime unix_time ≡ some t
          → t.year < 1980
          → unix_epoch_to_dos_datetime gmtime unix_time ≡ no_date)
unfolding unix_epoch_to_dos_datetime
unix_epoch_to_dos_datetime-Encodes gmtime unix_time ranges = (
  λ t nz e y.
      let later : (unix_time == 0) ≡ false = ground arith in
      rw (later, e) (packed t (ranges t e) y),
  λ z. let now : (unix_time == 0) ≡ true = ground arith in rw now refl,
  λ e. elim (Bool-cases (unix_time == 0)) [ inl z ↦ rw z refl | inr z ↦ rw (z, e) refl ],
  λ t e y. elim (Bool-cases (unix_time == 0)) [
    | inl z ↦ rw z refl
    | inr z ↦
        let early : ltb t.year 1980 ≡ true = ground arith in rw (z, e, pack_datetime, early) refl
  ],
)
