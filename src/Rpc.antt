-- ===== src/Rpc.antt =====
-- raftCore/raftRpcUtil.h and .cc, raftClerk/raftServerRpcUtil.h and .cc, and the service methods of
-- `Raft` and `KvServer`: remote calls over the stubs that gRPC generates, which are parameters.
use kvstorage_base_raft_cpp.Base.{ℕ, ◌≡◌, refl, Bool, true, false, Option, some, ◌>>=◌, Bytes}
use kvstorage_base_raft_cpp.Message.{
  AppendEntriesArgs, AppendEntriesReply, RequestVoteArgs, RequestVoteReply, InstallSnapshotRequest,
  InstallSnapshotResponse,
}
use kvstorage_base_raft_cpp.Archive.{Archive}
use kvstorage_base_raft_cpp.Raft.{Raft}
use kvstorage_base_raft_cpp.Raft.Election.{request_vote, receive_vote}
use kvstorage_base_raft_cpp.Raft.Replication.{append_entries, receive_append}
use kvstorage_base_raft_cpp.Raft.Snapshot.{install_snapshot, snapshot_request, receive_snapshot}
use kvstorage_base_raft_cpp.KvServer.{Err, GetReply}
use kvstorage_base_raft_cpp.Clerk.{GetArgs, PutAppendArgs}

-- `grpc::Status`: `OK`, or an error with its message.
pub data GrpcStatus : Type 0 where
  grpc_ok : GrpcStatus
  grpc_error : Bytes → GrpcStatus

abbrev pub is_ok : GrpcStatus → Bool
is_ok grpc_ok = true
is_ok (grpc_error message) = false

-- `raftRpc::Stub`: a call's status, and the response as it is afterwards.
pub record RaftStub : Type 0 where
  pub append_entries_stub : AppendEntriesArgs → AppendEntriesReply → GrpcStatus × AppendEntriesReply
  pub install_snapshot_stub :
      InstallSnapshotRequest → InstallSnapshotResponse → GrpcStatus × InstallSnapshotResponse
  pub request_vote_stub : RequestVoteArgs → RequestVoteReply → GrpcStatus × RequestVoteReply

-- `kvServerRpc::Stub`.
pub record ServerStub : Type 0 where
  pub get_stub : GetArgs → GetReply → GrpcStatus × GetReply
  pub put_append_stub : PutAppendArgs → Err → GrpcStatus × Err

-- `RaftRpcUtil::AppendEntries`; the message of an error is printed.
abbrev pub append_entries_call :
    RaftStub → AppendEntriesArgs → AppendEntriesReply → Bool × AppendEntriesReply
append_entries_call stub args response =
    let (status, reply) = stub.append_entries_stub args response in (is_ok status, reply)

-- `RaftRpcUtil::InstallSnapshot`.
abbrev pub install_snapshot_call :
    RaftStub → InstallSnapshotRequest → InstallSnapshotResponse → Bool × InstallSnapshotResponse
install_snapshot_call stub args response =
    let (status, reply) = stub.install_snapshot_stub args response in (is_ok status, reply)

-- `RaftRpcUtil::RequestVote`.
abbrev pub request_vote_call :
    RaftStub → RequestVoteArgs → RequestVoteReply → Bool × RequestVoteReply
request_vote_call stub args response =
    let (status, reply) = stub.request_vote_stub args response in (is_ok status, reply)

-- `raftServerRpcUtil::Get`.
abbrev pub get_call : ServerStub → GetArgs → GetReply → Bool × GetReply
get_call stub args response =
    let (status, reply) = stub.get_stub args response in (is_ok status, reply)

-- `raftServerRpcUtil::PutAppend`.
abbrev pub put_append_call : ServerStub → PutAppendArgs → Err → Bool × Err
put_append_call stub args response =
    let (status, reply) = stub.put_append_stub args response in (is_ok status, reply)

module _ ⦃a : Archive⦄ where
  -- The service method `Raft::AppendEntries`.
  abbrev pub serve_append_entries :
      ℕ → AppendEntriesArgs → Raft → Option (GrpcStatus × AppendEntriesReply × Raft)
  serve_append_entries now request r =
      append_entries now request r >>= λ (response, q). some (grpc_ok, response, q)

  -- The service method `Raft::InstallSnapshot`.
  abbrev pub serve_install_snapshot :
      ℕ → InstallSnapshotRequest → Raft → Option (GrpcStatus × InstallSnapshotResponse × Raft)
  serve_install_snapshot now request r =
      install_snapshot now request r >>= λ (response, q). some (grpc_ok, response, q)

  -- The service method `Raft::RequestVote`.
  abbrev pub serve_request_vote : ℕ → RequestVoteArgs → Raft → GrpcStatus × RequestVoteReply × Raft
  serve_request_vote now request r =
      let (response, q) = request_vote now request r in (grpc_ok, response, q)

  -- `Raft::sendAppendEntries`, when nothing else runs on the node during the call.
  abbrev pub send_append_entries_over :
      RaftStub → ℕ → AppendEntriesArgs → AppendEntriesReply → ℕ → Raft → Raft
  send_append_entries_over stub server args reply c r =
      let (ok, reply') = append_entries_call stub args reply in
      receive_append server args c ok reply' r

  -- `Raft::sendRequestVote`, likewise, at time `now`.
  abbrev pub send_request_vote_over :
      RaftStub → ℕ → RequestVoteArgs → RequestVoteReply → ℕ → Raft → Raft
  send_request_vote_over stub now args reply c r =
      let (ok, reply') = request_vote_call stub args reply in receive_vote now c ok reply' r

  -- `Raft::leaderSendSnapShot`, likewise.
  abbrev pub leader_send_snapshot_over : RaftStub → ℕ → ℕ → Raft → Raft
  leader_send_snapshot_over stub now server r =
      let (args, q) = snapshot_request r in
      let (ok, reply) = install_snapshot_call stub args (record { term = 0 }) in
      receive_snapshot now server args ok reply q

  -- A call that fails leaves the node as it is; only the stored snapshot was read.
  failed_calls :
      (stub : RaftStub) (now server c : ℕ) (args : AppendEntriesArgs) (reply : AppendEntriesReply)
      (vote : RequestVoteArgs) (answer : RequestVoteReply) (r : Raft)
      → is_ok (stub.append_entries_stub args reply).0 ≡ false
      → is_ok (stub.request_vote_stub vote answer).0 ≡ false
      → is_ok (stub.install_snapshot_stub (snapshot_request r).0 (record { term = 0 })).0 ≡ false
      → (send_append_entries_over stub server args reply c r ≡ r)
        × (send_request_vote_over stub now vote answer c r ≡ r)
        × (leader_send_snapshot_over stub now server r ≡ (snapshot_request r).1)
  unfolding receive_append receive_vote receive_snapshot
  failed_calls stub now server c args reply vote answer r e e' e'' =
      (rw e refl, rw e' refl, rw e'' refl)
