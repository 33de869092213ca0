-- ===== src/Lib.antt =====
-- The storage layer and the scanner of Dawn, a relational database: the buffer pool's clock replacer,
-- the slotted table pages, the disk manager's page ids and the pool itself, the hash index and the tables
-- over the pool, the values, columns and schemas of the tuples, the latch and the work pool of its
-- threads, and the tokens of its SQL.
--
-- How the parts interact. The buffer pool keeps pages of 4096 bytes in frames. When it needs a
-- frame it asks the replacer for a victim; it gets page ids and page bytes from the disk manager.
-- A frame's bytes are read and written as a table page, which stores tuples in slots; a RID, a page
-- id and a slot number, names a tuple. A table's tuples are in lists of table pages; two levels of pages
-- of the hash index lead from a key to its list. The index, the table and its iterator are calls of the
-- pool in a row.
--
-- Which file models what:
--   Replacer       ClockReplacer of src/buffer/clock_replacer.cpp. `flags`, `clock_pointer_` and
--                  `exit_num` are fields of a record; pin, unpin, victim and size are functions.
--   Memory, Page   the bytes of a page, its header, RIDs and the bytes of a tuple:
--                  src/include/storage/page/page.h, src/include/table/rid.h and tuple.h.
--   Page.TablePage TablePage of src/storage/page/table_page.cpp and
--                  src/include/storage/page/table_page.h, byte for byte, one function per method.
--                  Layout, View and Grow have the invariant, the abstract slots and what a write does
--                  to them; Insert, Marks, Update, Start, Walk and Compact have the operations.
--   Disk           DiskManager of src/storage/disk/disk_manager.cpp: the sets of free and of
--                  allocated ids, alloc_page, free_page, write_page and read_page. The stream of the
--                  .db file is a parameter, `Stream`. Start has the .mtd file, write_meta_data and
--                  from_mtd, and the scan of the .db file.
--   Pool           BufferPoolManager of src/buffer/buffer_pool_manager.cpp over the replacer, the pages
--                  and the disk manager. A returned page is its frame's number; a call that does not
--                  return is `none`.
--   Calls          those calls as a monad over the pool, with reads and writes of the pages in its frames.
--   LinkHash       the index of src/index/link_hash.cpp, one function per operation and loop: the lookup
--                  here, and the operations that change something in Changes. Slots has the pages of its
--                  two levels, src/include/storage/page/link_hash_page.h.
--   Table          Table of src/table/table.cpp, and in Iterator the iterator of
--                  src/table/lk_ha_tb_iter.cpp; `operator++` is `next_tuple`.
--   Data           TypeId, Value and the types of src/include/data/types.h, values.h, integer.h, boolean.h,
--                  decimal.h and char.h: construction, storage, comparison and arithmetic.
--   Schema         Column and Schema of src/include/table/column.h and schema.h, create_table_schema of
--                  src/table/schema.cpp, and the values in a tuple, src/table/tuple.cpp.
--   TableMetaData  the meta data page of a table, src/meta/table_meta_data.cpp: what one constructor writes
--                  of the schema and the other reads. Object has the object of a table.
--   Catalog        CatalogTable of src/meta/catalog_table.cpp and src/include/meta/catalog_table.h, and
--                  Catalog of src/include/meta/catalog.h. Records has the bytes of its page, Maps its
--                  maps, and Changes the operations on the tables that are there.
--   Executors      the expressions of src/include/sql/expressions, and the selection and the sequential scan
--                  of src/executors. An executor is a function of its state and of the caller's tuple.
--   Lex            Lex of src/sql/lex.cpp, and the loop of sql_execute over the tokens.
--   Latch          ReaderWriterLatch of src/include/util/rwlatch.h, as steps of any number of threads.
--   WorkPool       WorkPool of src/util/work_pool.cpp, as steps of its workers and its callers.
--   Base           names of the library, tests on numbers and lemmas on lists that the parts share.
--
-- Numbers. An int32_t in a page is its bit pattern below 2 ^ 32; sums, differences and products wrap,
-- and the comparison is the signed one. The length of a memmove is a size_t of 64 bits. The clock
-- replacer's counters are plain numbers, which the pool size bounds. A page id handed to the disk
-- manager is a bit pattern as well.
--
-- Loops. The second loop of `victim` has fuel 2 * pool_size: two turns of the clock, which find a
-- frame whenever one is in the replacer. The loop of the buffer pool that waits for a frame takes a
-- frame out of the replacer at each turn, so its fuel is their number and one. The
-- loops over the pages of a list have one round for each page id below the disk manager's limit, and one
-- more: a list that is not a cycle has each page once. The
-- loops of a table page run on the slots that are left. The scanner's loops run on the characters that
-- are left; the loop over the tokens has fuel, one more than the characters, which is enough for a text
-- that ends in `;`.
--
-- Threads. A call of the latch or the work pool is one step for each of its critical sections, in any
-- order with those of other threads. A wait on a condition variable may end at any time, and its test
-- is made again, so nothing is said of notifications.
--
-- Where the code leaves a value as it was, or undefined, the model has a fixed one: the RID of an insertion
-- that fails is the invalid one, the fixed length of a char column is -1, and the integer of a char value
-- is read from its bytes. The length of the memmove in apply_delete is exact for the offsets below 2 ^ 31,
-- which are those of a valid page.
--
-- Not modelled: the opening and closing of the disk manager's files; the parser, which is generated,
-- and its syntax trees; the projection and the union of src/executors; the server; TableIterator,
-- which only hands on to the table; copies of values, and the texts that to_string makes. Doubles,
-- `atof` and the hash function are not of the repository: a decimal is a bit pattern, whose arithmetic
-- is a parameter. Every call on a page, the pool or the disk stands for itself: the mutex of the
-- replacer and the callers' latches on pages make calls atomic, and the two latches of the disk
-- manager are taken to do so.
pub mod Base
pub mod Replacer
pub mod Memory
pub mod Page
pub mod Disk
pub mod Pool
pub mod Data
pub mod Schema
pub mod Calls
pub mod Catalog
pub mod LinkHash
pub mod Table
pub mod Executors
pub mod Latch
pub mod WorkPool
pub mod TableMetaData
pub mod Lex
