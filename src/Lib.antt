-- ===== src/Lib.antt =====
-- dlopen-rs loads ELF libraries at run time and replaces the dynamic loader. This library models its
-- own logic and leaves the mapping, linking and relocation of ELF files to the parameters that stand
-- for the `elf_loader` crate.
--
-- The parts, and the files that model them:
--
--   Flags            src/lib.rs: OpenFlags as a word, with the tests of its bits.
--   Names            src/core_impl/loader.rs, register.rs: short names, normalised flags, aliases of libc.
--   Registry         src/core_impl/register.rs, types.rs: the global table of libraries, `Manager`.
--     Types, State   the entries and the tables.
--     LinkContext    `LinkContext` of elf_loader as an interface: a record of its operations, and the
--                    record `LinkContextLaws` of the behaviour that register.rs counts on.
--     Lookup         the reads of `Manager`; Update and Loading: the writes, and the registration of
--                    loaded, reserved and merged libraries; Unload: `Drop for ElfLibrary`.
--     Symbols        src/core_impl/loader.rs, src/api/dlsym.rs: symbols and addresses.
--     Destructors    `__cxa_atexit`, `__cxa_finalize` and `finalize`.
--     Consistent     the invariant `IsConsistent` and, in its children, what each operation does to it.
--   Debugger         src/utils/debug.rs, src/abi.rs: the list of link maps that debuggers read, on an explicit
--                    heap; Host: the part of src/host_init.rs that takes over the system's list; Chain and
--                    Refine: linked chains, and what the operations do to the abstract list.
--   HostInit         src/host_init.rs: finding the debug structure, the recovery of a dynamic table, and what
--                    `from_raw` makes of a library of the process; memory is a record of functions.
--   Queries          src/api/dladdr.rs, dl_find_object.rs and dl_iterate_phdr.rs.
--   Dlopen           src/api/dlopen.rs: waiting for other threads, the rollback of an operation.
--     Paths          search paths and run paths; Platform: the file system, the environment and the paths
--                    that come from them.
--     Operation      `OpenContext` and its steps; Alone: what they keep while no other thread acts.
--     Resolver       `LinkResolver`, from a name to a library or a file; Order, Existing, Safe: theorems.
--     Link           `link_root` and `dlopen_impl`; the linker is a tree of questions to its callbacks.
--   LinkerScript     src/utils/linker_script.rs: tokenizer and parser of GNU linker scripts.
--   LdCache          src/utils/ld_cache.rs: the bytes of ld.so.cache and, in Search, the binary search.
--   Memory           rtld/impl/src/memory.rs: memcpy, memmove, memset, memcmp, strlen.
--   StaticTls        src/rtld.rs, `mod tls`: the placement of static TLS blocks.
--   Bootstrap        rtld/impl/src/bootstrap.rs: auxiliary vector, dynamic table, the program's stack.
--   Cli              rtld/impl/src/cli.rs: the options of the replacement loader.
--   Common           shared names, keyed tables, panicking results, searches, bits.
--   Tests            a link context that satisfies the laws, and the theorems at concrete inputs.
--
-- State is passed explicitly: an operation of `Manager` takes the manager last and returns it in an
-- `Outcome`, which is `panic` where the code calls `expect` on nothing, calls `panic!` or fails a
-- `debug_assert!`; the argument `debug` says whether debug assertions are compiled in. Each operation of
-- the registry is one step under its lock; where dlopen gives the lock up, what other threads do to the
-- registry meanwhile is the next element of a list. The tables are
-- association lists with each key once, in the order of the code's ordered maps. Addresses and words
-- are natural numbers; where the code wraps around, `% 2 ^ 64` is written out.
--
-- Fuel: the tokenizer and the parser of linker scripts take the length of their input, which every
-- round shortens; the binary search takes the number of entries, and halves its range in each
-- round; `checked_next_power_of_two` takes 64 rounds, one for each bit; the searches for a
-- terminator on the stack and in a string take any fuel above the terminator's index; walks along
-- link maps and dynamic sections take more fuel than these are long. The fuel of the resolver is
-- the depth to which linker scripts may lead to one another: a script that names itself has no
-- depth that is enough, in the code either, and the theorems on the resolver hold for every fuel.
--
-- Not modelled: the ELF loader, file input and output, the printing of messages, the layouts of C
-- structures, glibc's globals, assembly, most C entry points, static TLS in the answers of
-- dl_iterate_phdr, and what the initialisation of the host process does beyond the debug structure
-- and the data of `from_raw`. Opening a root that is already mapped, which only builds without the
-- standard library do, is left out. The copying of TLS images and RELR relocations are left out of
-- the parts that are modelled.
pub mod Common
pub mod Flags
pub mod Names
pub mod Registry
pub mod Memory
pub mod StaticTls
pub mod LinkerScript
pub mod Cli
pub mod Bootstrap
pub mod LdCache
pub mod Debugger
pub mod HostInit
pub mod Queries
pub mod Dlopen
pub mod Tests
