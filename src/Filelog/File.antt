-- ===== src/Filelog/File.antt =====
-- filelog/filelog.go, FileLog: the file of blocks. Its first 8 bytes hold the number of the next block
-- to read and that of the next to write, and the blocks follow. Each call on the file says how it
-- ends: a write may stop early with an error, a read or a truncation may fail.
pub mod Bytes
pub mod Layout
pub mod Appending
pub mod Getting
pub mod Fifo
pub mod Reopen
use ws_cluster.Common.{
  ℕ, zero, suc, ◌+◌, ◌*◌, ◌%◌, ◌^◌, Bool, true, false, List, [], ◌∷◌, ◌++◌, length, take, drop,
  replicate, ltb, ◌==◌, if◌then◌else◌,
}
use ws_cluster.Wire.Io.{le_bytes, le_value}

abbrev pub block_size : ℕ
block_size = 4096

-- How a write ends: `short n` has written `n` bytes and fails.
pub data Outcome : Type 0 where
  complete : Outcome
  short : ℕ → Outcome

abbrev pub is_complete : Outcome → Bool
is_complete complete = true
is_complete (short n) = false

-- The bytes from `i` on are replaced; what lies between the end of the file and `i` becomes zero.
unfoldable pub overwrite : ℕ → List ℕ → List ℕ → List ℕ
overwrite zero src file = src ++ drop (length src) file
overwrite (suc i) src [] = 0 ∷ overwrite i src []
overwrite (suc i) src (x ∷ file) = x ∷ overwrite i src file

-- `file.WriteAt(src, i)`: where there is nothing to write the file stays as it is.
unfoldable pub write_at : ℕ → List ℕ → List ℕ → List ℕ
unfolding overwrite
write_at i [] file = file
write_at i (b ∷ src) file = overwrite i (b ∷ src) file

-- What is left of the bytes to write.
abbrev pub written : Outcome → List ℕ → List ℕ
written complete src = src
written (short n) src = take n src

-- `file.Truncate(n)`
unfoldable pub truncate : ℕ → List ℕ → List ℕ
truncate zero file = []
truncate (suc n) [] = 0 ∷ truncate n []
truncate (suc n) (x ∷ file) = x ∷ truncate n file

-- writeUint32
unfoldable pub put_uint32 : Outcome → ℕ → ℕ → List ℕ → List ℕ
put_uint32 o val offset file = write_at offset (written o (le_bytes 4 (val % 2 ^ 32))) file

-- readUint32: 0 where the file is too short.
unfoldable pub get_uint32 : ℕ → List ℕ → ℕ
get_uint32 offset file =
    let bytes = take 4 (drop offset file) in if length bytes == 4 then le_value bytes else 0

pub record FileLog : Type 0 where
  pub writeblock : ℕ
  pub readblock : ℕ
  pub file : List ℕ
  pub locked : Bool

-- NewFileLog, over a file that could be opened.
unfoldable pub new_file_log : List ℕ → FileLog
new_file_log file = record {
  writeblock = get_uint32 4 file;
  readblock = get_uint32 0 file;
  file = file;
  locked = false;
}

-- What a call returns. `waiting` never returns: the lock is not released.
pub data Reply : Type 0 where
  appended write_failed number_failed : Reply
  got : List ℕ → Reply
  no_more_block read_failed : Reply
  waiting : Reply

-- appendBlock: the outcomes of its two writes.
unfoldable pub append_block : Outcome → Outcome → List ℕ → FileLog → Reply × FileLog
append_block o o' b flog =
    let file = write_at (flog.writeblock * block_size + 8) (written o b) flog.file in
    let next = flog.writeblock + 1 in
    if flog.locked
    then (waiting, flog)
    else if is_complete o
    then (
      if is_complete o' then appended else number_failed,
      record flog { writeblock = next; file = put_uint32 o' next 4 file },
    )
    else (write_failed, record flog { file = file })

-- The outcomes of the calls of getBlock on the file: its read, the writes of the two numbers, and the
-- truncation.
pub record Calls : Type 0 where
  pub reads : Bool
  pub resets : Outcome
  pub truncates : Bool
  pub counts : Outcome

-- The end of getBlock. Where all blocks have been read, the file starts over.
unfoldable pub count_read : Calls → FileLog → FileLog
count_read calls flog =
    let next = flog.readblock + 1 in
    let reset = put_uint32 calls.resets 0 4 flog.file in
    if next == flog.writeblock
    then record flog {
      readblock = 0;
      writeblock = 0;
      file = put_uint32 calls.counts 0 0 (if calls.truncates then truncate 8 reset else reset);
    }
    else record flog { readblock = next; file = put_uint32 calls.counts next 0 flog.file }

-- getBlock: where the read fails, it returns with the lock held.
unfoldable pub get_block : Calls → FileLog → Reply × FileLog
unfolding count_read
get_block calls flog =
    let buf = take block_size (drop (flog.readblock * block_size + 8) flog.file) in
    if flog.locked
    then (waiting, flog)
    else if flog.readblock == flog.writeblock
    then (no_more_block, flog)
    else if calls.reads
    then (if length buf == block_size
        then (got buf, count_read calls flog)
        else (read_failed, record flog { locked = true }))
    else (read_failed, record flog { locked = true })

-- nextBlock
unfoldable pub next_block : FileLog → Bool
next_block flog = if flog.readblock == flog.writeblock then false else true
