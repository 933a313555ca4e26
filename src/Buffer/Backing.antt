-- ===== src/Buffer/Backing.antt =====
-- The disk manager as the pool's disk interface: internal/storage/disk/disk.go behind
-- internal/storage/buffer/buffer_pool.go.
use mini_db.Base.{arith}
use mini_db.Disk.{DiskManager, DiskError, read_at, write_at, read_page, write_page, allocate_page}
use mini_db.Buffer.Pool.{DiskFile}
use mini_db.Buffer.Pool.Acquire.{Returns}

instance abbrev pub disk_file : DiskFile DiskManager DiskError
disk_file = record {
  read = read_page;
  write = write_page;
  allocate = allocate_page;
  page_count = λ d. d.num_pages;
}

-- ReadPage, WritePage and AllocatePage of the disk manager return, a result or an error, on every
-- argument and in every state.
pub disk_file-Returns : Returns disk_file
disk_file-Returns = record {
  reads = λ pid d bytes. unfold read_page read_at in ground arith;
  writes = λ pid bytes d. unfold write_page write_at in ground arith;
  allocates = λ d. unfold allocate_page write_at in ground arith;
}
