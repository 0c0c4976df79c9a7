-- ===== src/Lib.antt =====
-- The nvram program, which lists, reads, sets and deletes variables in non-volatile memory.
--
-- A command line (main.c) names operations on two sections, the system's and the user's. The program
-- chooses an interface to a device (nvram_interface.c) and a storage format (nvram_format.c) by name,
-- checks the operations, takes a lock, lets the format fill a list of entries for each section that
-- the mode reads or writes, runs the operations on the lists in order, and has the format commit the
-- list of the written section if anything was written.
--
-- Files, and what of the repository they model:
--   Base                  results of C functions, calls on a state, byte buffers, C strings
--   Entry                 `struct libnvram_entry`, the lists of libnvram and malloc, as parameters
--   Device, Format        nvram_interface.h and nvram_format.h: records of calls; `Storage` is the
--                         contract of a device in good order
--   Legacy                nvram_format_legacy.c: `find`, `find_entry`, `populate_list`, `legacy_init`,
--                         `legacy_commit`, `legacy_close`
--   Legacy/Scan, Text, Accept, Lookup      the scanner, and the grammar of the text with the reader
--   Legacy/Commit, RoundTrip, Storage      the writer, and the writer with the reader
--   Operation             main.c: `validate_operations` and the operations `list`, `set`, `get`, `del`
--   Operation/Print       main.c: `print_entry`, `print_list`, `print_list_entry`
--   Operation/Validate, Frame, Store, Unperformed, Failures      what validation and a run guarantee
--   Platform              nvram_format_platform.c: `parse_header`, `serialize_header`
--   Platform/RoundTrip    the parser on what the serializer writes
--   Platform/Fields       nvram_format_platform.c: `value_to_list`, `value_to_header`, `list_to_header`
--   Platform/Fields/Find, Restore      a header and the entries that stand for it
--   Platform/Calls        nvram_format_platform.c: `platform_init`, `platform_commit`
--   Registry              nvram_interface.c and nvram_format.c: the tables and their lookups
--   Lock                  main.c: `acquire_lockfile`, `release_lockfile`
--   Lock/Held, Waiting    what the lock's owner holds, and how long it waits
--   Program               main.c: `execute_operations` and `main`
--   Program/Args          main.c: the argument loop of `main`
--   Program/Saved         what status 0 of a run says
--   V2                    nvram_format_v2.c: `v2_init`, `v2_commit`, `v2_close`
--   V2/Laws               what is relied on of libnvram and of a device that is read
--   V2/Restart, Slots, Recovery      what a restart reads, over one section or two
--   V2/PowerFail, Outage  commits during which the power fails
--   V2/Release, Balance   which sections are open, over a device that can tell
--   V2/Tracked, Released  any device with a count of its open sections
--   V2/Agreement, Untracked         the calls with the count beside those without it
--   Posix                 the calls of the operating system, and whole reads and writes
--   Posix/Whole, Descriptors      what they give, and the number of open descriptors
--   Interface/File        nvram_interface_file.c
--   Interface/Efi         nvram_interface_efi.c
--   Interface/Mtd         nvram_interface_mtd.c
--   Interface/*/Restore   a write of the interface and the reads behind it
--   Interface/File/Restart, Efi/Restart      the legacy format over the interface
--   Interface/*/Descriptors      which calls leave a file open
--   Interface/Mtd/Lookup, Find      the search for a partition by its label
--   Interface/Mtd/Protect the write-protect pin around a write
--   Interface/Files, Mtd/Flash      what is relied on of files and of partitions
--   Samples, Legacy/Sample, Interface/Machine, V2/Sample, */Tests      concrete parameters and runs
--
-- Conventions. A return of 0 with an output is `ok`, a return of `-e` is `err e`. A function that
-- calls out takes a state `World` and gives the state that it leaves, after an error too. An allocation
-- that may fail is a call of `malloc`; freeing memory is not modelled. Lists are values: a call that
-- changes a list returns the new one. Numbers are natural numbers: no sum here comes near 2 ^ 64 with
-- buffers that fit in memory, and the tests against INT_MAX are kept. The header of
-- libnvram that gives the types of the lengths in the v2 format is not here; they are natural numbers
-- too, and do not wrap.
--
-- The writer of the legacy format prints with "%s": keys and values that are given to it are taken to
-- be null-terminated, as the code takes them, and one that is not ends at the end of its buffer. The
-- platform format tests `errno` for ERANGE behind `strtoul` without resetting it: it is taken not to
-- be ERANGE before.
--
-- No fuel is used. The loops of the reader and of the argument vector run over the list itself, with a
-- count of the elements that the index has still to pass; the loop of the lock runs over the retries,
-- 10 as in the code.
--
-- Parameters: the heap and the list calls of libnvram (`Runtime`, with the promises `ListLaws`), the
-- device (`Device`, `Storage`), the system calls on the lock file (`LockCalls`), the crc32 of zlib,
-- `snprintf` and `strtoul` (`Numerals`, `NumeralLaws`), and what is chosen when the program is built
-- (`Build`, `Settings`, `Platform`).
--
-- Further parameters: the calls of the operating system (`Posix`, with `Files`, `Flash`, `Pin` and
-- `Counted`),
-- libmtd (`Libmtd`), the transactions and the serialization of libnvram (`Libnvram`, with
-- `LibnvramLaws`), and how a write may be interrupted (`Tearing`).
--
-- Not modelled: messages on stderr, usage and debug output (log.c, `print_usage`); the code of libnvram,
-- a submodule, and of libmtd. A commit through a NULL `struct nvram`, which no mode of the command line
-- leads to, and a write of the v2 format with no section, are given the status EFAULT.
pub mod Base
pub mod Entry
pub mod Device
pub mod Format
pub mod Legacy
pub mod Operation
pub mod Platform
pub mod V2
pub mod Registry
pub mod Lock
pub mod Posix
pub mod Interface
pub mod Program
mod Samples
