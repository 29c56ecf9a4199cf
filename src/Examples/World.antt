-- ===== src/Examples/World.antt =====
-- A small world for the tests: the stores in memory, a clock that counts, and a network that keeps what is
-- sent; and a follower of three voters in it.
use xraft.Prelude.{ℕ, ◌+◌, Option, none, List, [], ◌∷◌, ◌++◌, map, max, true, false}
use xraft.Prelude.Exec.{ok, err}
use xraft.Config.{with_node_id}
use xraft.Types.{NodeId, Term, Bytes, NodeState, Role, VoterInfo, Snapshot, new_unattached}
use xraft.Types.Rpc.{RpcEnvelope, VoteRequest}
use xraft.Node.Traits.{Traits, Clock, Transport, Application, Io, ErrorKind}
use xraft.Node.State.{RaftNode}
use xraft.Storage.MemoryLog.{memory_log_store, empty}
use xraft.Storage.Quorum.{memory_quorum_state_store}

abbrev pub counting_clock : Clock
counting_clock = record {
  Time = ℕ;
  now = λ t. (t, t);
  sleep_until = max;
  random_election_timeout = λ t. (150, t + 1);
}

abbrev next_message : List RpcEnvelope → Io RpcEnvelope × List RpcEnvelope
next_message [] = (err ErrorKind.timed_out, [])
next_message (e ∷ es) = (ok e, es)

abbrev mailbox : Transport
mailbox = record {
  Outbox = List (NodeId × RpcEnvelope);
  send = λ to e out. (ok tt, out ++ ((to, e) ∷ []));
  Inbox = List RpcEnvelope;
  recv = next_message;
}

abbrev application : Application
application = record {
  Snapshots = Option Snapshot;
  load_latest = λ s. ok s;
  Machine = Bytes;
  restore = λ b m. (ok tt, b);
  Ear = List (NodeId × Term);
  handle_leader_change = λ id term heard. heard ++ ((id, term) ∷ []);
  serialize = λ r. ok (map (λ v. v.node_id) r.voters);
  deserialize = λ b. none;
}

abbrev pub world : Traits
world = record {
  logs = memory_log_store;
  quorums = memory_quorum_state_store;
  clocks = counting_clock;
  net = mailbox;
  app = application;
}

abbrev pub voter : NodeId → VoterInfo
voter id = record { node_id = id; endpoint = "localhost" }

abbrev pub three_voters : List VoterInfo
three_voters = voter 1 ∷ voter 2 ∷ voter 3 ∷ []

abbrev pub new_node : RaftNode world
new_node = record {
  state = new_unattached 1 0;
  config = with_node_id 1;
  log_store = empty;
  quorum_state_store = none;
  snapshot_io = none;
  outbox = [];
  inbox = [];
  clock = 0;
  state_machine = [];
  listener = [];
  bootstrapped = false;
}

abbrev pub follower_state : List VoterInfo → NodeState
follower_state voters = record (new_unattached 1 0) {
  cluster_id = 7;
  role = Role.follower;
  voter_set = voters;
}

abbrev pub follower_of : List VoterInfo → RaftNode world
follower_of voters = record new_node { state = follower_state voters; bootstrapped = true }

abbrev pub candidate_2 : VoteRequest
candidate_2 = record {
  term = 1;
  candidate_id = 2;
  last_log_offset = 0;
  last_log_term = 0;
  is_pre_vote = false;
}
