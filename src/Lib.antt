-- ===== src/Lib.antt =====
-- A model of the hivex library, which reads and changes Windows Registry hives, and theorems about
-- it. All paths are from the root of the repository.
--
-- A handle, `hive_h`, holds the image of a file, a bitmap of the offsets at which used blocks begin,
-- and a few numbers of the header. `hivex_open` fills it after a walk over all pages and blocks.
-- Every other operation takes offsets of blocks, tests them against the bitmap, and follows the
-- offsets stored in the records: nodes (nk) point to their subkeys through lf, lh and ri records, and
-- to their values (vk) through a value list. The operations that write allocate new blocks behind
-- the last page, mark old ones as free, and patch the records that point to them. `hivex_commit`
-- writes the image to a file. `hivex_visit` walks over a tree of nodes and calls functions of its
-- caller for each node and value; `hivex_node_delete_child` runs over such a walk.
--
-- Two programs use the library. The shell, hivexsh, reads commands, each of which calls an operation
-- or a few of them for the current node. hivexml opens a hive and prints it as an XML document, by a
-- walk whose callbacks call libxml2.
--
-- How the files correspond to the code:
--   Hive        struct hive_h and the bitmap macros of lib/hivex-internal.h, memory accesses
--   Layout      the structures of a hive file in lib/hivex.c, and the limits (HIVEX_MAX_*)
--   HiveType    enum hive_type of lib/hivex.h
--   Block       block_len, BLOCK_ID_EQ, IS_VALID_BLOCK
--   Header      header_checksum
--   Open        hivex_open
--   Node        hivex_root, hivex_node_name, _struct_length, _timestamp, _parent
--   OffsetList  struct offset_list and its functions
--   Children    get_children, hivex_node_children, hivex_node_get_child
--   Values      get_values, hivex_node_values, hivex_node_get_value
--   Value       hivex_value_key, _key_len, _struct_length, _type, _value, _dword, _qword
--   Strings     windows_utf16_to_utf8, hivex_value_string, hivex_value_multiple_strings
--   CString     the functions on byte strings of the C library that these use; CString.Order: the
--               order of a dictionary, defined without them
--   Alloc       allocate_page, allocate_block, mark_block_unused
--   Commit      hivex_commit
--   Records     calc_hash, new_lh_record, insert_lf_record
--   AddChild    compare_name_with_nk_name, hivex_node_add_child
--   Delete      delete_values, delete_sk
--   SetValues   hivex_node_set_values, hivex_node_set_value
--   Visit       hivex_visit, hivex_visit_node, hivex__visit_node; Visit.Rule: what a walk keeps
--   DeleteChild delete_node, hivex_node_delete_child
--   Kept        what the operations that write keep, and sequences of them; Kept.Refused: requests
--               to a handle that is not to be written
--   Shell       sh/hivexsh.c: its variables; Lines: rl_gets; Text: strings; Names: the names of the
--               commands; Parse: the values that setval reads; Print: what lsval prints; Cd: cmd_cd,
--               print_node_path; Command, Main: the other commands, dispatch, main
--   Shell.Hex, Shell.Setval  texts of values, and what setval makes of them
--   Shell.Rule  what is true after a command; Shell.Order: shells in order
--   Xml         xml/hivexml.c: the calls of libxml2; Callbacks: the visitor; Main: main
--   Xml.Document  a specification of documents as sequences of calls, independent of the code
--   Sample      a hive of two pages, with which Tests runs the model
-- A definition has the name of its function without the prefix `hivex_`, where that leaves it clear.
-- The child modules (Laws, Sound and so on) hold lemmas and theorems.
--
-- State. `Hive` is the record of the fields of `hive_h`; the image and the bitmap are functions from
-- offsets to bytes. An operation that only reads is a function from the handle to a result, which is
-- a value, an error with its errno, or a trap: a memory access outside the image, a failed assert,
-- or the use of memory that has been freed. An operation that writes returns the handle too, also
-- when it fails, with what it has changed by then. A step of a walk takes the handle and the
-- caller's data; a callback can also end the program. A command of the shell takes and returns the
-- variables of the shell, the bytes that are still to be read and what has been printed; it can also
-- end the shell. A callback of hivexml takes and returns the list of the calls of libxml2.
--
-- Assumptions. `size_t` has 64 bits, and the host is little-endian. The negation of INT_MIN wraps. The
-- allocator's answer depends on the size of the request only (the field `grants`). Strings are
-- compared as in the C locale. `iconv` and the file operations are parameters. Messages for
-- debugging are not modelled. For the shell, the functions of gnulib (`xstrtol`, `c_isspace` and so
-- on), `qsort`, the translated text of `help` and the files are parameters (`World`), small
-- allocations are granted, and lines are read by `fgets`, into its buffer of 8192 bytes, as without
-- readline. For hivexml, libxml2 and what `gmtime` and `strftime` make of a time are
-- parameters (`Writer`); any call of libxml2 may fail.
--
-- Fuel. The two loops of `hivex_open` run on one round more than the file has bytes, and every round
-- moves forward by a byte at least. The loop over the conversion's buffer has 66 rounds, as the size
-- doubles and its overflow ends the loop. The loop over multiple strings has one round more than
-- there are bytes. A walk may go one level deeper than its bitmap has bits; the main loop of the shell
-- one more than there are bytes to read; `cd` one for each character of the path. The path of a
-- node is printed for as many nodes as the image has bytes, since the code would not end on a cycle
-- of parents. Running out of fuel is a trap of its own, `stuck`.
--
-- Not modelled: `hivex_close` and the memory that it frees; the replacement of `mmap` for Windows;
-- of the shell, readline, the options on the command line and the messages for errors; of hivexml,
-- the options; the bindings for other languages and their generator; the programs in Perl and OCaml;
-- gnulib, a copy of another project.
pub mod Base
pub mod Hive
pub mod Layout
pub mod Block
pub mod Header
pub mod Open
pub mod CString
pub mod Node
pub mod OffsetList
pub mod Children
pub mod Values
pub mod HiveType
pub mod Value
pub mod Strings
pub mod Alloc
pub mod Commit
pub mod Records
pub mod AddChild
pub mod Delete
pub mod SetValues
pub mod Visit
pub mod DeleteChild
pub mod Shell
pub mod Xml
pub mod Kept
pub mod Sample
pub mod Tests
