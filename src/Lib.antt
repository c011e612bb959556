-- ===== src/Lib.antt =====
-- Pktgen-DPDK is a traffic generator on top of DPDK, with a command line library of its own
-- (lib/cli). These modules hold models of its code, translated function by function from the C
-- sources, and proofs about them.
--
-- The program's parts. app/pktgen.c keeps one port_info_t for each port and, on a transmit core,
-- builds packets from templates (pkt_seq_t) and sends them in bursts. In range mode
-- pktgen_range_ctor of app/pktgen-range.c steps the fields of the template from packet to packet.
-- lib/common holds addresses, strings and checksums. app/pktgen-random.c puts random bits into the
-- packets of a burst. lib/hmap is the table of the program's named values. The user types commands: lib/cli/cli_input.c
-- reads bytes, lib/cli/cli_vt100.c recognises escape sequences and runs the keys, which edit a gap
-- buffer (lib/cli/cli_gapbuf.h) and walk through a history (lib/cli/cli_history.c), and
-- lib/cli/cli.c executes the line, with the variables of lib/cli/cli_env.c in it; many commands take a
-- list of ports (lib/utils/portlist.c).
--
-- Which module models which part:
--   Base      what all modules share: the library's names, Boolean tests on numbers, lists measured
--             by native numbers, and the unsigned integer types.
--   Inet      lib/common/pg_inet.h: MAC addresses as numbers (inet_mtoh64, inet_h64tom) and the
--             addition of IPv6 addresses (inet6AddrAdd).
--   Range     app/pktgen-range.c and .h, app/pktgen-seq.h. Range.State has range_info_t and
--             pkt_seq_t. Each field's step in pktgen_range_ctor is a function, step_sport4 and so on,
--             in Range.Tcp, Range.Ipv4 and Range.Ipv6; Range.Ctor runs them in the order of the code.
--             The static variables min_vlan_set and so on are a record that the constructor takes and
--             returns. Range.Setup has pktgen_range_setup.
--   GapBuf    lib/cli/cli_gapbuf.h and .c. The pointers of struct gapbuf are offsets from its buffer,
--             the bytes a function of the offset. GapBuf.View reads off the text before and after the
--             point, which the theorems are about.
--   Vt100     lib/cli/cli_vt100.c and lib/cli/cli_input.c. Vt100.Line has the keys that edit the line,
--             Vt100.Parse the escape parser with its eight bytes and the loop of cli_input. The kill
--             buffer is NULL, a text, or freed. Vt100.Session compares sequences of keys with an
--             editor of two lists; Vt100.Recall has the cursor keys up and down, on the gap buffer and
--             the history together.
--   History   lib/cli/cli_history.c. The queues hd_hist and free_hist are lists, the addresses of the
--             entries numbers. An access to an entry that is not on the queue gives no result.
--   Cksum     lib/common/cksum.c, on a little-endian host. Memory is a function of the offset.
--   TxBuff    app/pktgen-txbuff.h. The driver behind rte_eth_tx_burst is a parameter.
--   Hmap      lib/hmap: the hash map from a prefix and a key to a value. Hmap.Ops has the operations of
--             hmap.c, Hmap.Typed and Hmap.Arrays the typed helpers of hmap_helper.h, Hmap.Getters their
--             lookups. Values and texts are numbers and lists of bytes; the functions of a map
--             (hash, compare, free) are fields of its record. Hmap.Valid says when a table is well
--             formed, Hmap.Refine and Hmap.Add that the operations are those of a finite map, and
--             Hmap.Counts what becomes of the element counts of arrays. Hmap.Null has the functions
--             that take a pointer to a value for a NULL pointer.
--   Random    app/pktgen-random.c and .h, lib/common/xorshift64star.h. The specifications of a port are a
--             record of the active ones' bits and a list; packets are lists of bytes.
--   Env       lib/cli/cli_env.c and .h. The queue of nodes is a list. A variable's function is a field of
--             its node. Env.Substitute compares the substitution in a line with a relation that says
--             what its text stands for.
--   Ports     lib/utils/portlist.c, and the functions of lib/common/pg_strings.c and .h on texts.
--             Ports.Numbers and Ports.Listing say what a list of ports means that is written with digits,
--             Ports.Tokens how it is split.
--   Heap      lib/utils/heap.c: its free list with the address of each entry, and the entry that the
--             tail pointer of the list is in, which need not be on it. Heap.Alloc and Heap.Free count
--             how often a byte is on the list, Heap.Lost follows the tail pointer.
--   Latency   latency_ring_t of app/pktgen-port-cfg.h and latency_ring_insert of app/pktgen.c.
--   Streams   pktgen_find_matching_ipsrc and pktgen_find_matching_ipdst of app/pktgen.c, and
--             size_to_mask of lib/common/pg_inet.h.
--
-- Bounds and fuel. Unsigned integers wrap where the code's do (u8, u16, u32, u64 of Base.Words);
-- Base.Ints has the signed values and their words, Base.Bits the bits of a number. The loop of
-- tx_buffer_flush runs on fuel: it ends only if the driver takes packets, so the theorems name a bound
-- on how often it takes none in a row, and `size * (limit + 1) + limit` steps are enough. The loop of
-- hmap_list takes one step more than there are slots. The other loops are recursion on a list or a
-- number. A text of the command line stays below 2^32 bytes.
--
-- What is relied on of code that is not here: rte_eth_tx_burst takes no more packets than it is given
-- (TxBuff.Flush.IsFair). The generator of random words is an argument, and the hash function of a map
-- an arbitrary function. RTE_MAX_ETHPORTS, RTE_ALIGN_CEIL and ntohl are parameters;
-- RTE_PTR_ADD adds to an address. calloc may fail where the code tests it in
-- gb_init_buf and cli_set_history; other allocations are taken to succeed, as is realloc, whose
-- failure ends the program in the code. strtok_r and strtoul are the C library's, in the C locale.
--
-- What is not modelled: output to the screen and the flags that ask for a redraw; the threads of the
-- transmit and receive cores; set-up of ports and devices; the bindings to Lua; the command tree of
-- lib/cli/cli.c but for its calls on the history; the headers that the protocol files write; the list
-- of all maps of lib/hmap and its locks; port masks and lists of cores. They are code around devices,
-- screens and threads, or are left for lack of a state to prove anything about, but for the packet
-- constructors, the command tree and the text functions, which can be added to these modules.
pub mod Base
pub mod Inet
pub mod Range
pub mod GapBuf
pub mod Vt100
pub mod History
pub mod Hmap
pub mod Env
pub mod Random
pub mod Ports
pub mod TxBuff
pub mod Cksum
pub mod Heap
pub mod Latency
pub mod Streams
