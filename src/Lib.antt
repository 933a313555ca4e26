-- ===== src/Lib.antt =====
-- A verification library for mini_db, a small database: what its storage layers do to bytes, and why
-- the layers above may rely on it.
--
-- The program is a stack. internal/util reads and writes runs of bits. internal/storage/page lays
-- out 8192-byte pages over it: a header, packed slot entries, and tuples behind a slot directory.
-- internal/storage/disk moves whole pages between a file and a buffer. internal/storage/buffer
-- caches pages in frames, and its replacer chooses the frame to evict. internal/record turns typed
-- rows into the bytes of tuples and back. internal/catalog keeps which tables and indexes exist, in
-- one JSON document. internal/access stores tuples and indexes over the buffer pool: heap piles
-- tuples up in slotted pages, nbtree is a B+ tree with a node per page.
--
-- Files:
--   Base           lists, options, byte strings, big-endian numbers, words, fields of a number,
--                  association maps, outcomes (result, error or panic) and state with outcomes
--   Util.Bits      internal/util/bits.go: ReadBits is read_bits, WriteBits is write_bits
--   Page           internal/storage/page/page.go, and below it
--   Page.Header    page_header.go: PdLower is pd_lower, SetPdLower is set_pd_lower, and so on
--   Page.SlotEntry slot_entry.go: Length is entry_length, SetLength is set_entry_length
--   Page.Tuple     tuple.go: the 12-byte tuple header
--   Page.Slotted   slotted_page.go: Init, InsertTuple, Slots, SlotEntryAt, LocateTupleByEntry
--   Disk           internal/storage/disk/disk.go: Open, ReadPage, WritePage, AllocatePage
--   Buffer.Lru     internal/storage/buffer/lru_replacer.go: Unpin, Pin and Victim
--   Buffer.Pool    internal/storage/buffer/buffer_pool.go: fetch, unpin, flushPage, acquireFrame and
--                  so on; newPage is allocate_page_in, numPages is pages_in
--   Buffer.Backing the disk manager behind the pool's disk interface
--   Buffer.Content the pages of a file that the pool shows, in a frame or on the disk
--   Record         internal/record/record.go: Encode is encode, Decode is decode
--   Catalog        internal/catalog/catalog.go: CreateTable, CreateIndex, openWith and so on, over a
--                  store and a JSON codec; Catalog.FileStore is store.go
--   Access.Pager   the interface of the buffer pool that internal/access/heap/heap.go and
--                  internal/access/nbtree/nbtree.go declare, and what they rely on
--   Access.Pooled  Buffer.Pool over Disk behind that interface, for one registered file, and the
--                  proof that they keep what the access methods rely on (Access.Pooled.Interface);
--                  beside the pool its state lists the pages as their holders declared them with
--                  UnpinPage, which no operation of the pool reads; Access.Memory is a small pool
--                  in memory for tests
--   Access.Heap    internal/access/heap/heap.go: Insert, Get and Scan are insert, get and scan
--   Access.Nbtree.Node  internal/access/nbtree/node.go: search, childIndex, insertLeafAt, splitLeaf
--                  and so on, under the same names
--   Access.Nbtree.Tree  internal/access/nbtree/nbtree.go: NewBTree, Search, Scan and Insert are
--                  new_btree, search_tree, scan_tree and insert_tree
--   Access.Nbtree.Insert  insertInto, splitLeafNode, splitInternalNode and the new root of nbtree.go,
--                  against the entries that the tree holds
-- A component's file holds its definitions; its child modules hold the proofs, and Tests applies them
-- to concrete inputs.
--
-- Conventions. A byte slice is the list of its bytes. A view that aliases a page (PageHeader,
-- SlotEntry, TupleHeader) is that list, and what writes through it returns the new list. An
-- operation that writes a state in place is a function from the state to the new state and an
-- outcome, so that what was written before a failure stays. Arithmetic on uint8, uint16 and uint32
-- wraps as the source's does, and slice expressions out of range panic. Errors are values without
-- their texts. Loops are structural, over the list or over a count known before the loop. Two run on
-- fuel. The binary search of a node has its key count, and the interval shrinks in each round. A
-- descent of the tree, or a walk along its leaves, has one round more than there are pages; a
-- well-formed tree is less high than that, and its leaves are distinct pages. A key of the index, an
-- int64, is its 64-bit pattern.
--
-- The os.File is its bytes and the list of the operating system's answers to the reads and writes to
-- come; each answer carries the call out or fails it after some bytes. Opening, closing and syncing a
-- file change no modelled state. Mutexes are not modelled: a method runs as one step.
-- encoding/json is a parameter of the catalog. The access methods take the buffer pool as a parameter
-- whose promises are hypotheses, which Access.Pooled proves of the pool and the disk manager: a page
-- stays what its holders see, and what was not called dirty may be lost. The invariant of the index
-- says nothing of the next_leaf links between leaves, which only Scan of the index reads. A callback of a scan has a state of its own. The server's entry point only prints a line and
-- is not modelled.
pub mod Base
pub mod Util
pub mod Page
pub mod Disk
pub mod Buffer
pub mod Record
pub mod Catalog
pub mod Access
