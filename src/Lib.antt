-- ===== src/Lib.antt =====
-- Models and proofs of parts of libdtrace, the library behind dtrace(1).
--
-- The parts are data structures and routines on which the compiler and the consumer rest:
--   Regset  libdtrace/dt_regset.c: dt_regset_alloc, _xalloc, _free, _xalloc_args, _free_args. The
--           code generator takes BPF registers from a set and spills those that it takes twice.
--   Wide    libdtrace/dt_consume.c, dt_gt_128 to dt_stddev: the 128-bit arithmetic with which the
--           consumer prints the stddev() aggregation.
--   Text    libdtrace/dt_string.c: hashing, escape sequences, tests and searches on names.
--   Buf     libdtrace/dt_buf.c: buffers that grow as DOF is written to them.
--   Htab    libdtrace/dt_htab.c, with the link functions of libdtrace/dt_htab.h: the hash table in
--           which providers, probes, modules and speculations are looked up and listed; Htab.Next is
--           its iterator, Htab.Visit the loop of a caller.
--   Epid    libdtrace/dt_map.c: dt_epid_add, _lookup, _destroy, dt_datadesc_hold, _release: from an
--           enabled probe id to its data and probe descriptions.
--   Rec     libdtrace/dt_map.c: dt_rec_add and dt_datadesc_finalize, the layout of recorded data.
--   Agg     libdtrace/dt_map.c: dt_aggid_add, _lookup, _destroy: aggregation ids.
--   Spec    bpf/speculation.c: speculations, as steps on the BPF map of them.
--   Bins    bpf/agg_qbin.c and bpf/agg_lqbin.c: the bins of quantize() and lquantize().
--   Dlist   libdtrace/dt_list.c: doubly-linked lists, in a heap of cells. Dlist.Links says which list
--           a heap holds.
--   As      libdtrace/dt_as.c: the list of instructions that the code generator builds, and the
--           passes of dt_as: labels, branches and relocation tables.
--   Cg      libdtrace/dt_cg.c: dt_cg_node for expressions on integers, with the registers of Regset
--           and the list of instructions of As. Cg.Stddev is dt_cg_agg_stddev up to
--           DT_CG_AGG_IMPL, and dt_cg_agg_stddev_impl; Cg.Update is the update of avg(), count(),
--           max(), min() and sum().
--   Bpf     include/bpf_asm.h: the instructions that the code generator emits. Bpf.Machine describes
--           what a BPF machine does with them.
--   Strtab  libdtrace/dt_strtab.c: dt_strtab_create, dt_strtab_grow, dt_strtab_copyin and the loop of
--           dt_strtab_write, not the hash table of the strings. A buffer is the list of the bytes
--           written to it.
--   Snap    libdtrace/dt_aggregate.c: dtrace_aggregate_snap and the functions that it calls, on the
--           ids of Agg.
--   Symtab  libdtrace/dt_symtab.c: the ranges by which the symbol of an address is found.
--   Strl    libport/strlcpy.c and libport/strlcat.c: bounded copies.
-- Common holds what the modules share: list, bit and power lemmas, and the library's names.
-- The file of a part holds its state and operations, named as in the C code without their prefix
-- (`xalloc_args` is dt_regset_xalloc_args, `insert` is dt_htab_insert); its children hold lemmas
-- and theorems, named for what they prove, and Tests holds runs on concrete inputs.
--
-- State that the C code mutates is passed along. An allocation is an argument that says whether
-- it succeeds, a failed assertion is the result `abort` or `none`, and memory is only modelled as
-- the contents that the operations read. Numbers are natural numbers with the wrap-around of the
-- C types written out where it can occur; sizes of buffers and tables, which are bounded by
-- memory, are taken not to overflow.
--
-- Loops without a counter run on fuel, `none` when it does not suffice: dt_nbits_128 (128), the
-- logarithm (65) and the long division (129) of dt_divide_128, the retries of dt_htab_insert, the
-- doubling of dt_buf_write (one round for each byte needed), stresc2chr (a round for each byte),
-- the growth of the table in dt_aggid_add (the id plus two), dt_list_length (the elements),
-- dt_strtab_copyin (the bytes of the string) and dt_symtab_form_ranges (the symbols and the
-- addresses up to the last end). The results below show that these bounds are enough. strrstr also
-- takes fuel.
--
-- What the link functions do to the pointers of entries is modelled as lists of entries, and the
-- chains of buckets are lists too. Not modelled are printing, dumps and destructors; the parser
-- and the rest of the code generator (strings, loads and stores, casts, subroutines, signed
-- division, and the quantize functions); the variable table of the assembler; packed symbol
-- tables; linking and loading of BPF programs; probe providers; process control; and the libraries
-- that libdtrace calls, such as libctf and libbpf. strtoull, strstr, strcmp, qsort and bsearch are parameters,
-- and so is the string table of the assembler.
pub mod Common
pub mod Agg
pub mod As
pub mod Bins
pub mod Bpf
pub mod Buf
pub mod Cg
pub mod Dlist
pub mod Epid
pub mod Htab
pub mod Rec
pub mod Regset
pub mod Snap
pub mod Spec
pub mod Strl
pub mod Strtab
pub mod Symtab
pub mod Text
pub mod Wide
