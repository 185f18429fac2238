-- ===== src/Ownerfs.antt =====
-- The interfaces that claudy-p2p/internal/ownerfs wraps: webdav.FileSystem, webdav.File, fs.FileInfo.
pub mod Filter
pub mod Normalize
pub mod Client
pub mod Cache
pub mod ShareDelete
pub mod Stack
use some_go_foolery.Base.{ℕ, ◌⊎◌, Bool, true, false, ◌||◌, Option, none, some, List}
use some_go_foolery.Base.Bytes.{Bytes}

-- A code stands for any other error.
pub data Error : Type 0 where
  not_exist eof : Error
  failure : ℕ → Error

pub record FileInfo : Type 0 where
  pub name : Bytes
  pub size : ℕ
  pub mode : ℕ
  pub mod_time : ℕ
  pub is_dir : Bool

-- The bits of an open flag that the code looks at.
pub record Flags : Type 0 where
  pub wronly : Bool
  pub rdwr : Bool
  pub creat : Bool
  pub trunc : Bool
  pub append : Bool

abbrev pub writes : Flags → Bool
writes f = f.wronly || f.rdwr

-- `World` is all that the operations read and change, the clock included, in nanoseconds. A file is a
-- handle. The methods that take `p []byte` get its length or its bytes. A count of 0 stands for every
-- count that is not positive.
pub record FileSystem : Type 1 where
  pub World : Type 0
  pub File : Type 0
  pub now : World → ℕ
  pub mkdir : Bytes → ℕ → World → Option Error × World
  pub open_file : Bytes → Flags → ℕ → World → (Error ⊎ File) × World
  pub remove_all : Bytes → World → Option Error × World
  pub rename : Bytes → Bytes → World → Option Error × World
  pub stat : Bytes → World → (Error ⊎ FileInfo) × World
  pub file_read : ℕ → File → World → (Bytes × Option Error) × World
  pub file_write : Bytes → File → World → (ℕ × Option Error) × World
  pub file_seek : ℕ → ℕ → File → World → (ℕ × Option Error) × World
  pub file_stat : File → World → (Error ⊎ FileInfo) × World
  pub file_readdir : ℕ → File → World → (List FileInfo × Option Error) × World
  pub file_close : File → World → Option Error × World
