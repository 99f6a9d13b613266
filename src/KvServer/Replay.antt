-- ===== src/KvServer/Replay.antt =====
-- The commands of the log, one after the other: what a server holds when it has carried them out.
use kvstorage_base_raft_cpp.Base.{
  ℕ, ◌≡◌, refl, ap, ◌∙◌, Bool, false, ◌&&◌, not, Option, none, some, List, [], ◌∷◌, leb,
  if◌then◌else◌, Bytes, bytes_eq, bytes_eq_instance, find,
}
use kvstorage_base_raft_cpp.Message.{Op, ApplyMsg}
use kvstorage_base_raft_cpp.Archive.{Archive}
use kvstorage_base_raft_cpp.Raft.Log.{Inv}
use kvstorage_base_raft_cpp.KvServer.{
  SkipList, IsSkipList, KvServer, at_most, if_request_duplicate, execute_once,
  get_command_from_raft,
}
use kvstorage_base_raft_cpp.KvServer.Apply.{is_write, execute_once-search, execute_once-last}
use kvstorage_base_raft_cpp.KvServer.Command.{Carried, get_command_from_raft-Carried}

-- What a server holds, whatever its skip list looks like: the value of each key and the last request
-- of each client.
abbrev pub View : Type 0
View = (Bytes → Option Bytes) × (Bytes → Option ℕ)

-- Whether the command writes and is newer than the last request of its client.
abbrev is_new_write : Op → (Bytes → Option ℕ) → Bool
is_new_write op last =
    not (elim (last op.client_id) [ none ↦ false | some n ↦ leb op.request_id n ]) && is_write op

-- A command on a view: a write that is new sets the value of its key.
abbrev pub apply_op : Op → View → View
apply_op op (value, last) = (
  λ key. if is_new_write op last && bytes_eq op.key key then some op.value else value key,
  λ client.
      if is_new_write op last && bytes_eq op.client_id client
      then some op.request_id
      else last client,
)

abbrev pub replay : List Op → View → View
replay [] v = v
replay (op ∷ ops) v = replay ops (apply_op op v)

module _ {S : Type 0} ⦃l : SkipList S⦄ where
  abbrev pub view : KvServer S → View
  view s =
      (λ key. l.search_element key s.skip_list, λ client. find client s.last_request_client_and_id)

  module _ ⦃a : Archive⦄ where
    -- The server takes messages with these commands, each of an index behind its snapshot.
    pub data CarriesOut : KvServer S → List Op → KvServer S → Type 0 where
      done : {s : KvServer S} → CarriesOut s [] s
      next :
          {s t : KvServer S} {ops : List Op} (message : ApplyMsg) (i : ℕ) (q : KvServer S)
          → message.command_index ≡ some i
          → at_most (some i) s.last_snap_shot_raft_log_index ≡ false
          → get_command_from_raft message s ≡ some q
          → CarriesOut q ops t
          → CarriesOut s (a.load_op message.command ∷ ops) t

    view-execute_once :
        IsSkipList l → (op : Op) (s : KvServer S) → view (execute_once op s) ≡ apply_op op (view s)
    unfolding if_request_duplicate
    view-execute_once h op s i =
        (λ key. execute_once-search h op s key i, λ client. execute_once-last op s client i)

    view-Carried :
        {op : Op} {i : ℕ} {s q : KvServer S} → Carried op i s q → view q ≡ view (execute_once op s)
    view-Carried carried k =
        (λ key. l.search_element key (carried.store k), λ client. find client (carried.requests k))

    -- What a server holds after any run of commands is what the commands make, one after the other,
    -- of what it held before: each write that is new for its client sets its key, and nothing else
    -- changes. The skip list finds what was inserted, and the Raft node begins in order.
    pub view-replay :
        {s t : KvServer S} {ops : List Op}
        → IsSkipList l
        → Inv s.raft_node
        → CarriesOut s ops t
        → view t ≡ replay ops (view s)
    view-replay h inv done = refl
    view-replay {s} h inv (next {ops = ops} message i q at new e run) =
        let (q', e', carried) = get_command_from_raft-Carried message i s inv at new in
        let same : q' ≡ q = cc in
        let carried' : Carried (a.load_op message.command) i s q = rw same at carried in
        view-replay h carried'.inv_kept run
        ∙ ap (replay ops)
            (view-Carried carried' ∙ view-execute_once h (a.load_op message.command) s)
