-- ===== src/Lib.antt =====
-- Volans is a signer of DNS zones. It keeps a zone as records (one for each owner name), held in
-- views; each view applies the changes that the others commit, in their order, from a shared log
-- of change tables. A zone is saved to a file and restored from it.
--
-- The files correspond to the repository as follows; all paths are from its root.
--
-- - Commitlog: commitlog.c. The state is the array of view cursors, the first and last change log,
--   and the field `next` of every table. A table is known by its address, a number, and the mutex
--   is not modelled: every function of commitlog.c that changes the chain runs wholly under it, so
--   an interleaving of the views is a sequence of calls. Its child modules relate the chain to the
--   queue of change logs that each view has yet to see.
-- - Record: dictionary.h and the record operations of dictionary.c, from names_recordcreate to
--   names_recordallvalues, and names_recordaddsignature. A pointer with its count is an `Array`.
-- - Marshalling: marshalling.c in its modes READ and WRITE, and how dictionary.c (marshall,
--   names_recordmarshall) and views.c (names_viewpersist, names_viewrestore) lay out records with
--   it.
-- - Record.Keys and Record.Ordering: getset, the acceptance functions and
--   names_recordindexfunction of dictionary.c.
-- - Table: table.c, a change table over the red-black tree of ldns, which is a parameter.
-- - Views: views.c. Views.Changes has what a view notes of a change to one record. Views.Store and
--   Views.Apply have the whole view: a heap of records, the indices and the change table;
--   names_own, names_amend, names_place, names_take and names_remove; resetting, and what
--   updateview does with each change of the others and of its own. There, in names_viewcommit and
--   names_viewreset, the list `pending` stands for the change logs that names_commitlogpoppush
--   hands out and `submitted` for those that it takes. Views.Loop is updateview over the commit
--   log itself, with the same view and the same insertions; the changes of the table at an address
--   are a parameter.
-- - Zoneinput: readzone of zoneinput.c, on the lines that ldns reads. The key of a record that a
--   plain file repeats comes from composestring2, which leaves it uninitialised, so that such a
--   reading fails.
-- - Zoneoutput: zoneoutput.c, the text of a zone's file. A walk over the types of a record stores
--   a pointer of eight bytes into the four of its caller's variable (names_recordalltypes of
--   dictionary.c with names_iterate), so writezone, signrecord and readzone fail where they come
--   to a record with a set.
-- - Zonesign: zonesign.c, with neighbors, noexpiry and expiring of views.c; Zonesign.Digests and
--   Zonesign.Keydata are signrecordpartial and keytag of zonesignrecord.c as far as they make
--   bytes.
-- - Rpc and Httpd: rpc.c and httpd.c, from the pieces of a request to the changes of the zone and
--   the answer; Httpd.Listener has the addresses of the server.
-- - Client: the options and commands of volans.c, and the handlers of cmdhandler.c for sign, cycle
--   and output.
-- - Index: index.c. The red-black tree of ldns is a parameter, with what ldns documents of it as
--   hypotheses; records are known by their addresses, and a heap gives what is at an address when
--   the index is used. Index.Range is names_indexrange.
-- - Iterator: iteratorgeneric.c, with iterator.c as it is used on it.
-- - Duration: duration.c, its conversions to and from seconds and text; Duration.Parse is
--   duration_create_from_string, with a pointer into the text as what stands from there on.
-- - Text: strcmp, the scanning of numbers, %d and %u of the C library, on texts as their bytes
--   without the NUL.
-- - Ldns: the operations of the ldns library that the program calls, as a record of parameters,
--   and the documented laws on which results rest. The JSON of jansson, inet_pton, the query
--   parameters of libevent, the hash of a denial and the parsing of resource records are
--   parameters too. Samples has instances, and the modules Tests try the results on it.
-- - Prelude: shared names, list functions over the native numbers, and integers.
--
-- An access through NULL, beyond an array or a variable, to freed memory or of memory that was
-- never written, and a failed assertion, is the result `none`. Memory is never exhausted. An int
-- is an integer, and a file holds it as four bytes, the lowest first.
--
-- Bounds and fuel: following a chain of change logs takes fuel, and the results state that one
-- unit for each change log is enough. Reading a file of records takes one unit for each record and
-- one for the end marker, updating a view one for each change log that it has yet to see and one
-- more, and a walk over an iterator or a change table one for each item and one more. The digits
-- of a number take ten rounds, enough for 32 bits.
--
-- Not modelled: a record without a name in an index, whose comparison functions
-- (names_recordindexfunction of dictionary.c) go through its NULL name as soon as it meets another
-- one; the order of the model takes the name as an empty text, and so says nothing of such an
-- index. names_viewcreate and the iterator over an index (a walk over it is the list of its
-- records), the cycle of names.c, and functions.c, which is not compiled; and the threads and
-- locks, the daemon, logging, the start of the server and the control socket, the databases, and
-- the PKCS #11 sessions, which are calls of the operating system and of libraries.
pub mod Client
pub mod Commitlog
pub mod Duration
pub mod Httpd
pub mod Index
pub mod Iterator
pub mod Ldns
pub mod Marshalling
pub mod Prelude
pub mod Record
pub mod Rpc
pub mod Samples
pub mod Table
pub mod Text
pub mod Views
pub mod Zoneinput
pub mod Zoneoutput
pub mod Zonesign
