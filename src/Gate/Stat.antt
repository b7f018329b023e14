-- ===== src/Gate/Stat.antt =====
-- `linux_to_darwin_stat` of src/syscall/syscall_gate.c; a time is its seconds and nanoseconds.
use machgate.Base.{ℕ, ◌%◌, ◌^◌, u32}

abbrev pub TimeSpec : Type 0
TimeSpec = ℕ × ℕ

-- The fields of Linux's `struct stat` that are read.
pub record Stat : Type 0 where
  pub dev : ℕ
  pub mode : ℕ
  pub nlink : ℕ
  pub ino : ℕ
  pub uid : ℕ
  pub gid : ℕ
  pub rdev : ℕ
  pub atim : TimeSpec
  pub mtim : TimeSpec
  pub ctim : TimeSpec
  pub size : ℕ
  pub blocks : ℕ
  pub blksize : ℕ

pub record DarwinStat : Type 0 where
  pub dev : ℕ
  pub mode : ℕ
  pub nlink : ℕ
  pub ino : ℕ
  pub uid : ℕ
  pub gid : ℕ
  pub rdev : ℕ
  pub pad0 : ℕ
  pub atimespec : TimeSpec
  pub mtimespec : TimeSpec
  pub ctimespec : TimeSpec
  pub birthtimespec : TimeSpec
  pub size : ℕ
  pub blocks : ℕ
  pub blksize : ℕ
  pub flags : ℕ
  pub gen : ℕ
  pub lspare : ℕ
  pub qspare : ℕ × ℕ

abbrev u16 : ℕ → ℕ
u16 n = n % 2 ^ 16

unfoldable pub linux_to_darwin_stat : Stat → DarwinStat
linux_to_darwin_stat s = record {
  dev = u32 s.dev;
  mode = u16 s.mode;
  nlink = u16 s.nlink;
  ino = s.ino;
  uid = s.uid;
  gid = s.gid;
  rdev = u32 s.rdev;
  pad0 = 0;
  atimespec = s.atim;
  mtimespec = s.mtim;
  ctimespec = s.ctim;
  birthtimespec = s.ctim;
  size = s.size;
  blocks = s.blocks;
  blksize = u32 s.blksize;
  flags = 0;
  gen = 0;
  lspare = 0;
  qspare = (0, 0);
}
