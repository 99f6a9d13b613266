-- ===== src/Examples/Archives.antt =====
-- An archive: a text is its length and its characters, a list is its length and its texts.
use kvstorage_base_raft_cpp.Base.{
  ℕ, zero, suc, ◌≡◌, refl, Option, none, some, List, [], ◌∷◌, ◌++◌, Bytes, length, take, drop,
  take-append_length, drop-append_length,
}
use kvstorage_base_raft_cpp.Message.{LogEntry, Op, BoostPersistRaftNode}
use kvstorage_base_raft_cpp.Archive.{Archive, IsArchive}

abbrev put_text : Bytes → Bytes → Bytes
put_text t rest = length t ∷ (t ++ rest)

abbrev get_text : Bytes → Bytes × Bytes
get_text [] = ([], [])
get_text (n ∷ bs) = (take n bs, drop n bs)

get_text-put_text : (t rest : Bytes) → get_text (put_text t rest) ≡ (t, rest)
get_text-put_text t rest = rw (take-append_length t rest, drop-append_length t rest) refl

abbrev put_texts : List Bytes → Bytes
put_texts [] = []
put_texts (t ∷ ts) = put_text t (put_texts ts)

abbrev get_texts : ℕ → Bytes → List Bytes
get_texts zero bs = []
get_texts (suc n) bs = (get_text bs).0 ∷ get_texts n (get_text bs).1

get_texts-put_texts : (ts : List Bytes) → get_texts (length ts) (put_texts ts) ≡ ts
get_texts-put_texts [] = refl
get_texts-put_texts (t ∷ ts) =
    rw
      (
        take-append_length t (put_texts ts),
        drop-append_length t (put_texts ts),
        get_texts-put_texts ts,
      )
      refl

abbrev put_option : Option ℕ → ℕ
put_option none = 0
put_option (some n) = suc n

abbrev get_option : ℕ → Option ℕ
get_option zero = none
get_option (suc n) = some n

get_option-put_option : (o : Option ℕ) → get_option (put_option o) ≡ o
get_option-put_option none = refl
get_option-put_option (some n) = refl

abbrev get_entry : Bytes → LogEntry
get_entry (t ∷ i ∷ c) = record { command = c; log_term = t; log_index = i }
get_entry bs = record { command = []; log_term = 0; log_index = 0 }

abbrev get_node : Bytes → BoostPersistRaftNode
get_node (t ∷ v ∷ i ∷ j ∷ n ∷ bs) = record {
  current_term = t;
  voted_for = get_option v;
  last_snapshot_include_index = i;
  last_snapshot_include_term = j;
  logs = get_texts n bs;
}
get_node bs = record {
  current_term = 0;
  voted_for = none;
  last_snapshot_include_index = 0;
  last_snapshot_include_term = 0;
  logs = [];
}

abbrev read_op : Bytes → Op
read_op [] = record { operation = []; key = []; value = []; client_id = []; request_id = 0 }
read_op (i ∷ bs) =
    let (operation, bs1) = get_text bs in
    let (key, bs2) = get_text bs1 in
    let (value, client) = get_text bs2 in
    record { operation = operation; key = key; value = value; client_id = client; request_id = i }

abbrev get_server : Bytes → Option (Bytes × Option ℕ)
get_server [] = none
get_server (i ∷ text) = some (text, get_option i)

instance abbrev pub archive : Archive
archive = record {
  serialize_entry = λ e. e.log_term ∷ e.log_index ∷ e.command;
  parse_entry = get_entry;
  save_node = λ n.
      n.current_term
      ∷ put_option n.voted_for
      ∷ n.last_snapshot_include_index
      ∷ n.last_snapshot_include_term
      ∷ length n.logs
      ∷ put_texts n.logs;
  load_node = get_node;
  save_op =
      λ o. o.request_id ∷ put_text o.operation (put_text o.key (put_text o.value o.client_id));
  load_op = read_op;
  save_server = λ text i. put_option i ∷ text;
  load_server = get_server;
}

get_op_lem :
    (operation key value client : Bytes) (i : ℕ)
    → read_op (i ∷ put_text operation (put_text key (put_text value client))) ≡ record {
      operation = operation;
      key = key;
      value = value;
      client_id = client;
      request_id = i;
    }
get_op_lem operation key value client i =
    rw
      (
        take-append_length operation (put_text key (put_text value client)),
        drop-append_length operation (put_text key (put_text value client)),
        take-append_length key (put_text value client),
        drop-append_length key (put_text value client),
        take-append_length value client,
        drop-append_length value client,
      )
      refl

pub archive-IsArchive : IsArchive archive
archive-IsArchive = record {
  parse-serialize = λ e. refl;
  load-save_node = λ n. rw (get_option-put_option n.voted_for, get_texts-put_texts n.logs) refl;
  load-save_server = λ text i. rw (get_option-put_option i) refl;
  load-save_op = λ o. get_op_lem o.operation o.key o.value o.client_id o.request_id;
}
