-- ===== src/Lib.antt =====
-- VHDB, a homebrew store for the PS Vita: the platform-independent core of the client, modelled
-- from core/ and include/, and the parts of the two clients (pc/, vita/) that decide what is kept,
-- fetched and installed.
--
-- A client loads a catalog file (core/vhdb.c), reads what is installed from param.sfo files
-- (core/sfo.c; the scans are vita/scan.c on the console and pc/scan.c over FTP), keeps a list of
-- installed copies and its file (core/installed.c), hashes files (core/md5.c) and decides from all
-- of these what the screens say of an entry (core/status.c). An installation downloads a package,
-- compares its digest with the catalog's, and on the console unpacks (core/zip.c) and promotes it
-- (vita/install.c), or sends it there from the computer (pc/install.c, with pc/net.c and the
-- settings of pc/config.c). The commands of the computer are in pc/main.c. core/sha1.c serves the
-- fake package header of an installation.
--
-- Which file models which part:
--   Base           Boolean tests, lists over the native numbers, the laws of exclusive or (Bits),
--                  reads from a byte buffer (Memory), texts and strcmp (Text), int values (Int),
--                  what fgets, strchr, strcspn and snprintf do with lines (Lines), numbers as
--                  printf, atoi and strtoul write and read them (Decimal), and
--                  the sublist of what has a property (Filtered)
--   Crc            vhdb_crc32; Crc.Laws has its theorems
--   Catalog        the structs of include/vhdb.h; Load is vhdb_check_layout and vhdb_load, with
--                  Sound, Reject, Returns and Wrapped on its outcomes; Access is vhdb_at,
--                  vhdb_by_name, vhdb_by_date, vhdb_str, vhdb_titleid and vhdb_find_titleid, with
--                  Laws, Find and Title; Names is vhdb_error, vhdb_type_name, vhdb_aux_name and
--                  vhdb_aux_path
--   Sfo            core/sfo.c; Copy is about copy_string, Keys about the keys, Laws about
--                  vhdb_sfo_parse
--   Version        vhdb_version_compare of core/status.c; Total, Order and Padding
--   Needs          vhdb_needs_count, vhdb_needs_get and vhdb_needs_check; Count and Fields
--   Status         vhdb_status_of; Laws; Labels is vhdb_install_kind to vhdb_list_label
--   Installed      the list of core/installed.c; Lookup and Unique; Hash on its printed hashes;
--                  Text is vhdb_installed_load and vhdb_installed_save, with Writable and RoundTrip
--   Blocks         what the two hashes share: whole blocks and a buffer
--   Md5, Sha1      core/md5.c and core/sha1.c; Stream and Final
--   Zip            core/zip.c: what its readers share; Entry is extract_one, Extract is
--                  vhdb_zip_extract, TopLevel is vhdb_zip_top_level; Confined and Safe are about
--                  where files are made, Stored about the bytes of a stored entry, and
--                  TopLevel.Distinct about the names
--   Config         pc/config.c; Trim and RoundTrip
--   Pc             the client on the computer: Net is pc/net.c, with Sink on transfers into memory
--                  and Download on files; Scan is pc/scan.c, with Counts; Install is pc/install.c,
--                  with Names (url_basename and escape_path), Copying, Arrived and Recorded; Sync,
--                  Listing and Commands are the commands of pc/main.c, with Verified, Wanted (what
--                  a list is meant to pick), Picked and Counts
--   Vita           the client on the console: Scan is vita/scan.c, with Prune and Keeps; Net is
--                  vita/net.c, with Fetched; Install is vita/install.c, with Protocol and Order
--   Examples       the theorems at concrete inputs, and tests
--
-- How the state corresponds: a struct is a record with its fields; a pointer into the catalog file
-- is an offset into its bytes; a char array is the list of its bytes where the code's bounds
-- matter (the arrays of param.sfo and of vhdb_titleid) and the text before its NUL elsewhere; a
-- function that changes a struct returns the new one. uint32_t sums of the catalog header and of
-- param.sfo are written with their remainder by 2 ^ 32. A result of Option whose comment speaks
-- of a fault is none where C would read outside a buffer, so that a theorem of safety says that
-- the result is not none. A struct laid over the file is read in little-endian order, as on the
-- consoles and computers that the program runs on.
--
-- What the C library does enters as arguments: fopen, fseek, ftell, malloc and fread as a Host,
-- realloc as a test of sizes, zlib as a record of its calls, the callback of the needed files as a
-- function that may be missing, libcurl as the blocks and the answer of each request (Curl), the
-- files of the computer as a function of paths (FileSystem) with the answers of fopen, fwrite and
-- rename (Disk, Machine), those of the console as a record (Files). A file that is there opens for
-- reading; folders are no part of the file system. The largest unsigned long is the argument max of
-- what reads a number. In Vita.Install the other modules answer from the events so far (Device).
--
-- Fuel: the loop of vhdb_version_compare has one more than the length of the first text, since
-- each round that goes on moves its cursor; the loop over whole blocks has the number of bytes;
-- the zero padding of SHA-1 has 64, since at most 63 zeros are added;
-- the two loops of extract_one that read an entry have one more than its compressed size, since a
-- round that goes on reads a byte. The inner loop of inflate calls has fuel as an argument, since
-- its end rests on zlib;
-- the loop of vhdb_prune_installed has one more than the number of copies, since each round goes on
-- or takes a copy out; the loop over the blocks of a file has the number of its bytes.
--
-- Not modelled: what the clients print; the user interface of the console (vita/main.c), whose work
-- is mostly drawing; the commands setup, show, config and installed of pc/main.c; the start and stop
-- of the console's network; the package header and the promoter (vita/promote.c), whose answers
-- Vita.Install takes as parameters; and the icon pack (vita/icons.c).
pub mod Base
pub mod Crc
pub mod Catalog
pub mod Sfo
pub mod Version
pub mod Zip
pub mod Config
pub mod Vita
pub mod Pc
pub mod Needs
pub mod Status
pub mod Installed
pub mod Blocks
pub mod Md5
pub mod Sha1
pub mod Examples
