-- ===== src/Persister.antt =====
-- raftCore/Persister.h and Persister.cc: the two files that hold a node's state and its snapshot.
-- An `std::ofstream` keeps what is written in a buffer until it is closed, and opening it empties
-- the file: `std::ios::out`, which is also the default mode, truncates. The files can
-- be opened, and the buffer has room for what is written between an opening and the next closing.
pub mod Words
pub mod Save
use kvstorage_base_raft_cpp.Base.{
  ℕ, ◌+◌, Bool, true, false, List, [], ◌∷◌, ◌++◌, ◌||◌, ◌&&◌, Bytes, length, leb, ◌==◌,
  if◌then◌else◌,
}

-- An output stream and the file under it.
pub record OutStream : Type 0 where
  pub is_open : Bool
  pub buffer : Bytes
  pub file : Bytes

pub record Persister : Type 0 where
  pub raft_state_out_stream : OutStream
  pub snapshot_out_stream : OutStream
  pub raft_state_size : ℕ

-- `close` writes the buffer out.
pub close : OutStream → OutStream
close s = record { is_open = false; buffer = []; file = s.file ++ s.buffer }

pub close_if_open : OutStream → OutStream
unfolding close
close_if_open s = if s.is_open then close s else s

-- `open` of a stream that is closed; it empties the file.
pub open_stream : OutStream → OutStream
open_stream s = record { is_open = true; buffer = []; file = [] }

-- `stream << text`.
pub write : Bytes → OutStream → OutStream
write text s = record s { buffer = s.buffer ++ text }

pub clear_raft_state : Persister → Persister
unfolding open_stream close_if_open
clear_raft_state p = record p {
  raft_state_size = 0;
  raft_state_out_stream = open_stream (close_if_open p.raft_state_out_stream);
}

pub clear_snapshot : Persister → Persister
unfolding open_stream close_if_open
clear_snapshot p = record p {
  snapshot_out_stream = open_stream (close_if_open p.snapshot_out_stream);
}

pub clear_raft_state_and_snapshot : Persister → Persister
unfolding clear_raft_state clear_snapshot
clear_raft_state_and_snapshot p = clear_snapshot (clear_raft_state p)

-- `Persister::Save`.
unfoldable pub save : Bytes → Bytes → Persister → Persister
unfolding clear_raft_state_and_snapshot write
save raftstate snapshot p =
    let q = clear_raft_state_and_snapshot p in
    record q {
      raft_state_out_stream = write raftstate q.raft_state_out_stream;
      snapshot_out_stream = write snapshot q.snapshot_out_stream;
    }

-- `Persister::SaveRaftState`.
unfoldable pub save_raft_state : Bytes → Persister → Persister
unfolding clear_raft_state write
save_raft_state text p =
    let q = clear_raft_state p in
    record q {
      raft_state_out_stream = write text q.raft_state_out_stream;
      raft_state_size = q.raft_state_size + length text;
    }

-- `isspace` of the C locale.
abbrev pub is_space : ℕ → Bool
is_space c = c == 32 || leb 9 c && leb c 13

pub skip_space : Bytes → Bytes
skip_space [] = []
skip_space (c ∷ cs) = if is_space c then skip_space cs else c ∷ cs

pub take_word : Bytes → Bytes
take_word [] = []
take_word (c ∷ cs) = if is_space c then [] else c ∷ take_word cs

-- `stream >> word`: leading white space is skipped, and the word ends before the next.
pub read_word : Bytes → Bytes
unfolding skip_space take_word
read_word text = take_word (skip_space text)

-- `Persister::ReadSnapshot`: the stream is closed, and opened again when the function returns.
unfoldable pub read_snapshot : Persister → Bytes × Persister
unfolding close_if_open open_stream read_word
read_snapshot p =
    let s = close_if_open p.snapshot_out_stream in
    (read_word s.file, record p { snapshot_out_stream = open_stream s })

-- `Persister::ReadRaftState`: it reads the file and leaves the stream open.
unfoldable pub read_raft_state : Persister → Bytes
unfolding read_word
read_raft_state p = read_word p.raft_state_out_stream.file

-- `Persister::Persister`, over the files that an earlier run has left: both are emptied.
unfoldable pub create : Bytes → Bytes → Persister
unfolding open_stream
create raftstate snapshot = record {
  raft_state_out_stream = open_stream (record { is_open = false; buffer = []; file = raftstate });
  snapshot_out_stream = open_stream (record { is_open = false; buffer = []; file = snapshot });
  raft_state_size = 0;
}

-- `Persister::~Persister`.
pub destroy : Persister → Persister
unfolding close_if_open
destroy p = record p {
  raft_state_out_stream = close_if_open p.raft_state_out_stream;
  snapshot_out_stream = close_if_open p.snapshot_out_stream;
}
