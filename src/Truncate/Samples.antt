-- ===== src/Truncate/Samples.antt =====
-- Runs of programs/truncate.c on concrete files.
use punchcardos.Prelude.{false, some, none, if◌then◌else◌, codes, str_eq}
use punchcardos.Truncate.{Host, Disk}

abbrev host : Host
host = record {
  stat_denied = λ name. false;
  open_denied = λ name. false;
  truncate_denied = λ name. false;
  block_size = λ name. 4_096;
}

abbrev disk : Disk
disk = record {
  file = λ name. if str_eq name (codes "old") then some (codes "data") else none;
  enoent = false;
}
