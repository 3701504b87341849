-- ===== src/Lib.antt =====
-- SideTNFS: the firmware of a cartridge for the Atari ST that serves TNFS network drives and
-- floppy images. This library models parts of the firmware under romemul/ as functions on
-- explicit state, and proves what makes them correct.
--
-- The parts and how they meet. The Atari sends words through the ROM3 address lines; Protocol
-- turns them into commands. The commands change the drive list (Drives), which is kept in flash
-- behind a checksum (Crc32), or open floppy images (Floppy), which the user picks from pages of
-- a folder (Browse). The settings of Wi-Fi, network and clock (Settings) have a flash block of
-- their own, filled at first from the older store of entries (Entries). The TNFS client finds
-- the servers through Resolve. A GEMDOS call names a path, which Paths makes canonical; the
-- entries of the server's folders become FAT names in Names, and Searches keeps the searches
-- for them; the files that are open stand in the table of Files.
--
-- - Protocol (romemul/tprotocol.c, romemul/include/tprotocol.h): parse_protocol takes a word
--   and the time, and returns the parser's next state with the transmissions handed to the
--   callback. Protocol.Frame follows a whole frame, Protocol.Safety the payload block.
-- - Crc32: sidetnfs_crc32 of romemul/sidetnfs_config.c, eight shifts for each byte.
-- - Drives (romemul/sidetnfs_config.c, romemul/include/sidetnfs_config.h): DriveConfig and
--   DriveFlash are the structs; Drives.Commands has set_drive, set_drive_state, delete_drive
--   and set_config_drive_letter. Drives.Layout is the byte layout in flash, Drives.Flash boot,
--   saving and reset, with the flash driver as two parameters, erase and program.
--   Drives.Validate, Preserve, Accept, Boot, Save, Factory and Migrate hold the proofs.
-- - Resolve (romemul/sidetnfs_resolve.c, romemul/include/sidetnfs_resolve.h): parse_ipv4 and
--   the state of one lookup. Resolve.Literal has the grammar of addresses, Resolve.Lookup the
--   histories of a lookup.
-- - Floppy (romemul/sidetnfs_floppy_emul.c, romemul/include/sidetnfs_floppy_emul.h):
--   Floppy.Volume has the sector reads and close_state, Floppy.Open open_into, Floppy.Swap the
--   active image and the candidate; Floppy.Commands puts the operations in any order.
--   Floppy.Geometry, Handles, Balance, Settled and Sectors hold the proofs.
-- - Files (romemul/gemdrvemul.c, romemul/include/gemdrvemul.h): the linked table of open files
--   and Fclose, gemdrive_backend_fclose. The loop of delete_file_by_fdesc takes a number of
--   rounds, since it need not end. Files.Free is about new descriptors, Files.Close about
--   Fclose and emptying the table.
-- - Names (romemul/sidetnfs_probe.c, romemul/include/sidetnfs_probe.h): wildcard_match_upper,
--   sidetnfs_is_supported_83_name, and sidetnfs_normalize_dir_entry in Names.Entry, with gmtime
--   as a parameter. Names.Wildcard has the specification of patterns, Names.Patterns that of a
--   search with the end of its pattern cut off, Names.Eight3 that of FAT names.
-- - Paths (romemul/gemdrvemul.c): normalize_gemdos_path and tnfs_ddelete_parent_path.
--   Paths.Canonical says what a canonical path is; Components, Join, Last, Normalize and Parent
--   hold the proofs.
-- - Searches (romemul/sidetnfs_probe.c, romemul/include/sidetnfs_probe.h): lookupTnfsDTA,
--   alloc_tnfs_dta_slot, insertTnfsDTA and releaseTnfsDTA on the table of eight searches;
--   Searches.Rounds has the READDIRX rounds of tnfs_dta_find_next_match, with the answers of
--   the server as a parameter, and Searches.Commands sidetnfs_tnfs_dta_start, next and the
--   releases. Find, Lookup, Handles, Balance, Unique, Distinct and Served hold the proofs.
-- - Settings (romemul/sidetnfs_system_config.c, sidetnfs_netconfig.c and sidetnfs_rtcconfig.c
--   with their headers): SystemSettings is the block of settings, Settings.Layout its bytes,
--   Settings.Legacy the migration from the older store, Settings.Flash boot and saving.
--   Settings.Network and Settings.Clock read, validate, stage and save a half each;
--   Settings.Device puts their calls and reboots in any order, and Settings.Spec says what two
--   registers keep. Fields, Offset, Stored, Checked, Boot, NetworkHalf, ClockHalf, Saving and
--   Refinement hold the proofs. The flash driver and lwIP's ipaddr_aton are parameters; the
--   older store is a record of what the migration reads, so that the theorems hold for any
--   store, that of Entries among them.
-- - Entries (romemul/config.c, romemul/include/config.h): find_entry, add_entry and the three
--   puts; add_entry is none when it writes outside the array. Entries.Flash has
--   load_all_entries, write_all_entries and reset_config_default. Entries.Update, Written,
--   Puts, Sequence, Keys, Loaded, Distinct and Stored hold the proofs.
-- - Browse (romemul/sidetnfs_floppy_browse.c, romemul/include/sidetnfs_floppy_browse.h):
--   sidetnfs_floppy_browse_get_page on a TNFS server; a round of its loop is take_round, and a
--   call has as many rounds as answers, which stands for its budget of 2000 rounds and 80 ms.
--   What sidetnfs_tnfs_raw_opendir and sidetnfs_tnfs_raw_readdir return is an argument.
--   Browse.Rounds, Pages, Listing, Kept and Resume hold the proofs.
--
-- C strings that are read up to the NUL are lists without it; fields of a fixed size are lists
-- of bytes of that size. Machine words are natural numbers with their wrap-around written out.
-- Two loops run on rounds: wildcard_match_upper is given (length s + 2) * (length s + length p
-- + 1) of them, which is enough since each round moves the name, the pattern or the last star
-- on; delete_file_by_fdesc takes any number. The text of an integer in Entries has ten rounds,
-- enough for the ten digits of a 32-bit number. The READDIRX rounds count down from the
-- source's limit of 512. Every other loop is a recursion on its input or on a count. NULL
-- pointer arguments are not represented.
--
-- Not modelled: the GEMDOS command handlers but Fclose, the TNFS session and file operations,
-- the Wi-Fi connection, the PIO and DMA set-up, the paths and the SD card of the floppy
-- browser, USB, the virtual configuration drive's files, the SELECT button and the LED, and the
-- printing of diagnostics.
pub mod Prelude
pub mod Protocol
pub mod Crc32
pub mod Drives
pub mod Resolve
pub mod Floppy
pub mod Browse
pub mod Files
pub mod Names
pub mod Paths
pub mod Searches
pub mod Settings
pub mod Entries
