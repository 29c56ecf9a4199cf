-- ===== src/Replication/Refused.antt =====
-- Fetch responses that are refused (xraft-core/src/replication.rs), and what they leave behind.
use xraft.Prelude.{◌<◌, ◌≡◌, true, arith, none, some, []}
use xraft.Types.{Role}
use xraft.Prelude.Exec.{err}
use xraft.Types.Rpc.{FetchResponse}
use xraft.Replication.Parts.{Parts, Follower, InvalidResponse, invalid_response}
use xraft.Replication.Fetch.{has_conflict, validate_and_update_term, handle_fetch_response}

module _ {P : Parts} where
  -- A response of a higher epoch that names both a snapshot and a divergence is refused with an error,
  -- which carries no action to persist anything; but the node has already moved to the response's epoch,
  -- follows its leader and has forgotten its vote and the votes it got, and its log, its high watermark,
  -- its voters and all that it applied, told and completed are as they were.
  pub conflicting_response_moves_term :
      (r : FetchResponse) (f : Follower P)
      → f.state.current_term < r.leader_epoch
      → has_conflict r ≡ true
      → let g = (handle_fetch_response r f).1 in
        ((handle_fetch_response r f).0 ≡ err (invalid_response InvalidResponse.conflicting_fields))
        × (g.state.current_term ≡ r.leader_epoch)
        × (g.state.voted_for ≡ none)
        × (g.state.leader_id ≡ some r.leader_id)
        × (g.state.role ≡ Role.follower)
        × (g.state.votes_received ≡ [])
        × (g.state.high_watermark ≡ f.state.high_watermark)
        × (g.state.voter_set ≡ f.state.voter_set)
        × (g.log ≡ f.log)
        × (g.state_machine ≡ f.state_machine)
        × (g.listener ≡ f.listener)
        × (g.completion_queue ≡ f.completion_queue)
  unfolding handle_fetch_response validate_and_update_term
  conflicting_response_moves_term r f lt c = ground arith
