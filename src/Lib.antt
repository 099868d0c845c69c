-- ===== src/Lib.antt =====
-- Programs of PunchcardOS.
-- programs/ holds one C file for each program of the system; each is compiled alone, and they share
-- no code but small functions copied from one to the next. This library models the programs whose
-- logic is their own, one component for each, with theorems on their input and output.
--
-- What all components stand on:
--   Prelude   numbers, Boolean tests, lists, C strings as lists of bytes
--   Sys       system calls: a read or a write is answered from a script of events, so that short
--             writes, interruptions and errors are values; Outcome says how a run ends
--             Sys/Memory does the same for allocations.
--   Numbers   sizes with a unit: parse_size of programs/truncate.c, getNum of programs/dd.c
--
-- The components, each in the module of its name with its parts below it:
--   Timeconst   programs/bc4linux.c. Gcd, Fixed (fmul, fmuls, fadj on unsigned long long with
--               wrap-around), Decimal (itoa, atoi), Emit (timeconst and main as a monad over the
--               output; whether the caller of read finds its count is a parameter). Bounds, Adjust,
--               Ratio, Decimal/Print, Decimal/Scan and Emit/Whole hold the proofs.
--   Cut         programs/cut.c. Line (readline), Send (safe_write), Ranges (parse_range), Select
--               (cut_bytes, cut_fields, cut), Args (main).
--   Grep        programs/grep.c. Grep (match, matchhere, matchstar, matchplus, match_char), Search
--               (grep), Args and Patterns (main, readline). A pointer into the text is the memory
--               from it on, with the NUL in its place, since the matcher can step over the NUL.
--   Dd          programs/dd.c. Dd (the parameters and main), Copy (the loops).
--   Cmp         programs/cmp.c. Cmp (cmp), Args (main). Descriptors share a store, since cmp can
--               read both sides from one.
--   Tr          programs/tr.c. The table, the loop and main.
--   Wc          programs/wc.c. wc and main.
--   Truncate    programs/truncate.c. Truncate (do_truncate, with errno as state), Args (main).
--   Sort        programs/sort.c and programs/uniq.c. Array, Compare and Quick (swap, partition,
--               quick_sort), Lines (lines_init, lines_resize, lines_append), Input (readline,
--               read_lines), Main (print_all, print_unique and the main functions of both).
--   Otp         programs/otp.c. Otp (main and its loop); Xor, Loop and Whole hold the proofs.
--   Hexdump     programs/hexdump.c. Hexdump (print_hexdump_line, hexdump), Args (main). Back reads
--               a line back.
--   Head        programs/head.c. Head (read_lines, read_bytes), Args (main).
--   Ext2        programs/e2.c. Layout (the structures as bytes), Ext2 (write_padding, write_bitmap,
--               format_ext, main); Fields tells what a reader finds in the
--               image; Bitmap, Places and Image hold the proofs.
--   Xargs       programs/xargs.c. Input (readline), Xargs (resolve_executable_path, append_arg, launch,
--               xargs, main); Search, Lines and Runs hold the proofs.
--   Ar          programs/ar.c. Ar (ar_replace and what it calls), Listing (ar_list, ar_arch_list,
--               ar_thin_list), Main. A number is printed by itoa of Timeconst/Decimal, which gives
--               the decimal digits as the itoa of programs/ar.c does. Archive, Headers,
--               Names and Trip hold the proofs.
-- The Samples of a component run its theorems on concrete input.
--
-- Bounds and fuel. Numbers are natural numbers; unsigned long long wraps at 2^64 where the code
-- can reach it, and signed overflow is the outcome `undefined` (or none). fmuls has 64 rounds,
-- because a shift of 64 is undefined in C. readline of cut has as many rounds as there are bytes
-- to read and one more, since each round but the last reads a byte. safe_write and the block loop
-- of dd have more rounds than there are events, since each call uses an event up or writes all
-- that is left. cmp has one round for each byte of the first file and one more. The loop over the
-- lines of grep has as many rounds as the buffer has bytes, and one more. quick_sort has one round
-- more than the part to sort has entries, since both parts of a partition are shorter. read_lines
-- of sort has two rounds more than there are reads and allocations: each round but these uses one
-- up. The loop of xargs has as many rounds as there are bytes of input and one more, since each
-- round but the last reads a newline. The loops of a list of ar have as many rounds as there are
-- bytes behind the magic and one more, since each round reads a byte at least. The loop of
-- write_bitmap in e2 has as many rounds as there are bits to set. The outcome `out_of_fuel` marks
-- a loop that goes on beyond these rounds. All other loops are structural recursions.
--
-- Not modelled: messages and usage texts, perror, failing allocations (but for sort, xargs and
-- e2), and the builds without a C library except for programs/bc4linux.c. A script of reads is one
-- that the reads can give: no more bytes at a time than were asked for. The other files of
-- programs/ are thin wrappers of system calls, copies of other projects, or not yet done.
pub mod Prelude
pub mod Sys
pub mod Timeconst
pub mod Cut
pub mod Wc
pub mod Tr
pub mod Cmp
pub mod Truncate
pub mod Numbers
pub mod Grep
pub mod Dd
pub mod Sort
pub mod Otp
pub mod Hexdump
pub mod Head
pub mod Ext2
pub mod Xargs
pub mod Ar
