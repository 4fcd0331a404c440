-- ===== src/Lib.antt =====
-- NSD, an authoritative DNS server: verification of how it reads packets, limits rates, reads
-- numbers and keeps ordered trees.
--
-- A packet is a `buffer_type` (buffer.h, buffer.c) with three marks, position, limit and capacity. The
-- parts that handle packets read and write them through it, so they stand on its model: the octets are a
-- list, and a read or write outside the marks is an outcome of its own. packet.c walks over the names
-- and records of a packet, edns.c reads the OPT record of a query, and dname.c decodes names that may be
-- compressed, and compares names. options.c checks the source of a query and its key, by the name
-- comparison of dname.c, against access control lists, and rrl.c keeps the rates of the sources. tsig.c
-- reads the signature of a packet, with the names of key and algorithm that dname.c makes, checks it and
-- signs the answer. util.c compares serial numbers and reads numbers from text. query.c runs a query
-- through these parts, from the header to the function that answers; xfrd.c, which is not modelled,
-- calls some of them too. rbtree.c keeps the ordered trees of the name database, of the options and of the
-- transfer daemon; it stands alone.
--
-- Base: what the modules share. Base.Outcomes has the type of the results. `fault` is a failed
--   assertion or a read outside the octets, `stuck` is exhausted fuel, and `Returns Q m` says that `m`
--   is neither and that its value satisfies `Q`. A C function that changes its packet takes the buffer
--   and returns it. Base.Order has the three-way comparison.
-- Buffer (buffer.h, buffer.c, and the readers and writers of numbers in util.h): `buffer_type` is the
--   record Buffer, and `buffer_read_u16` is `read_u16`, and so on. Assertions are kept, as in a
--   build without NDEBUG. `size_t` sums that the code lets wrap are written `% 2 ^ 64`; the memory
--   that `realloc` adds is an argument. Valid is about the marks and growing, Access about reads,
--   RoundTrip about what is written.
-- Packet (packet.c, packet.h, dns.h): `packet_skip_dname`, `packet_skip_rr`,
--   `packet_read_query_section` and `packet_find_notify_serial`. Pointers into the packet are offsets.
--   Skip, Query and Serial prove about these.
-- Edns (edns.c, edns.h): all of edns.c, with `nsid_len` for the server struct. Options, Parse and Accept
--   are about the record that is read, Kept about one that is not taken.
-- Dname (dname.c, dname.h, set_bit and get_bit of util.c): `dname_make_wire_from_packet`. The array of
--   visited offsets is a list of Booleans. Steps is about one round, Decode about the loop. Dname.Name
--   has `struct dname` as the record Name with its two arrays, and `label_compare`, `dname_compare`,
--   `dname_is_subdomain` and `dname_label_match_count`. Labels says which names stand for which lists of
--   labels, Order and Common compare these. Dname.Make has `dname_make` and `dname_make_from_packet`,
--   with the octets behind a pointer as a list; Wire has the wire format of a list of labels, Reverse is
--   about the offsets, Named and Packet about the two functions. Onward is about the position that a
--   name leaves.
-- Util (util.c): `compare_serial`, `strtoserial` and `strtottl`, on lists of character codes, with
--   32-bit sums written `% 2 ^ 32`, and in Util.Hex `hex_ntop` and `hex_pton`.
-- Rrl (rrl.c): the bucket of a source, its aging, and the decision to drop a query. The table is a
--   function of the slot. Source, flags, hash and limit of a query, which `examine_query` computes, are
--   arguments, and so is the time.
-- Tsig (tsig.c, tsig.h, and QR of packet.h): `struct tsig_record` is the record Tsig, and the functions
--   from `tsig_find_rr` to `tsig_verify` take it and return it. The HMAC of an algorithm is a function of
--   the key and the octets given to it since `hmac_init_context`, a parameter; so are the lookup of a
--   key, the table of algorithms, the largest digest size and the time. The MAC of an earlier message is
--   one list, without the memory behind it. Parse, Onward, Typed, Find and Send.Space are about
--   packets, Auth.Mac and Auth.Window about what is accepted, Names about the names of algorithms, and Table has the table of them.
-- Query (query.c, with the flags of packet.h): `struct query` and `struct nsd` are the records QueryType
--   and Nsd with the fields that are used; Host holds keys, algorithms and the time. Query has
--   `query_error`, `query_formerr`, `process_query_section`, `process_edns`, `process_tsig` and
--   `query_prepare_response`, Process has `query_process`, which ends in the name of the function that it
--   calls to answer. The build is one with INET6, where IPV6_MTU is defined, and without
--   STRICT_MESSAGE_PARSE; logging and counters are left out. Error and Formerr are about error answers,
--   Copied and Question about the question, Signature, Checked, Gathered and Counted about the signature and the
--   additional section, Sections about the counts and the authority section, Prepared, Authenticated, Additional
--   and Decided about the whole.
-- Acl (options.c): `acl_check_incoming` with the address and key tests
--   under it. A list of `struct acl_options` is a list, -1 is `none`, and an address is its 32-bit words
--   as the host reads them, which on a little-endian host is not their order as octets. Range, Key and
--   Check are about address ranges, keys and the whole list.
--
-- Rbtree (rbtree.c, rbtree.h): the nodes are at addresses, their fields functions of the address, and the
--   address 0 is RBTREE_NULL with the node behind it. Left and right are one field with a side, so that
--   `rotate` is `rbtree_rotate_left` or `rbtree_rotate_right`, `rbtree_step` is `rbtree_next` or
--   `rbtree_previous`, and the two halves of `rbtree_insert_fixup` are one. The comparison of keys is an
--   argument, and agrees with a rank of the keys. Shape says which store holds which tree at the end of
--   which path; Rotate and Turn are about rotations, Balance about colours, Step, Round, Fixup and Loop
--   about the repair, Ordered, Descent, Link and Insert about insertion, Find about search, Next and
--   Walk about the walk.
--
-- Fuel. The name loops of packet.c take as many rounds as there are octets up to the limit and one,
-- since a round passes an octet. The option loop of edns.c takes as many as rdata has octets and one.
-- The loops of `dname_make` take as many as there are octets and one. The loop of
-- `dname_make_wire_from_packet` takes limit and one, since a round marks an offset that was
-- not marked, and that of `dname_label_match_count` the number of labels. That `Returns` holds is that
-- the fuel was enough. The loops of
-- rbtree.c take the count of the nodes and one, since each goes up or down one level at least; that of
-- `rbtree_next`, which does not know the count, takes an argument. The other loops are structural, over
-- counts or lists.
--
-- Not modelled: the answers of query.c and answer.c, the options but for access control, NSEC3, the name
-- database with its radix tree, transfers and their files, the transfer daemon, the zone compiler, sockets,
-- processes, logging, configuration and the tools, which are mostly input and output around calls or
-- large parts of their own. In the parts above these are left out: `buffer_printf` and the string writers
-- of buffer.h, the encoding of records in packet.c, parsing and printing of names in dname.c, the
-- table of keys and `tsig_error_reply` in tsig.c, the rest of util.c, `rbtree_delete`, and
-- classification, slipping and shared memory in rrl.c.
pub mod Base
pub mod Buffer
pub mod Packet
pub mod Edns
pub mod Dname
pub mod Tsig
pub mod Query
pub mod Acl
pub mod Util
pub mod Rbtree
pub mod Rrl
