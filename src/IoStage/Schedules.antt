-- ===== src/IoStage/Schedules.antt =====
-- The order in which the stage of xraft-core/src/io_action.rs carries out its actions.
use xraft.Prelude.{◌≡◌, refl, ap, inl, inr, true, some, List, [], ◌∷◌, arith, last?}
use xraft.Prelude.Exec.{Result-cases, ok, err}
use xraft.Types.{NodeId}
use xraft.Types.Rpc.{RpcEnvelope, VoteRequest, VoteResponse, vote_response}
use xraft.Node.Traits.{Io}
use xraft.Replication.Parts.{
  QuorumState, IoAction, persist_quorum_state, send_rpc, append_log, truncate_suffix,
  truncate_prefix, save_snapshot,
}
use xraft.Election.{Methods, ElectionState, handle_vote_request}
use xraft.Election.Votes.{granted_batch}
use xraft.IoStage.Turns.{
  Interleaved, storage_left_after, network_left_after, try_join-ok, take_turns-ok,
}
use xraft.IoStage.{
  Stores, Disk, Turn, store, transmit, then_rest, in_order, try_join, execute, storage_actions,
  network_actions, take_turn, take_turns, Progress, IoStage,
}

module _ {S : Stores} where
  -- one action of a batch on the whole stage
  abbrev pub carry_out : IoAction → IoStage S → Io (Unit {0}) × IoStage S
  carry_out (send_rpc id env) st =
      let (r, o) = S.send id env st.transport in (r, record st { transport = o })
  carry_out a st = let (r, d) = store S a st.disk in (r, record st { disk = d })

  -- a batch, one action after the other
  unfoldable pub one_by_one : List IoAction → IoStage S → Io (Unit {0}) × IoStage S
  one_by_one [] st = (ok tt, st)
  one_by_one (a ∷ rest) st = then_rest (carry_out a st) (one_by_one rest)

  Split : List IoAction → IoStage S → IoStage S → Type 0
  Split batch st st' =
      (in_order (store S) (storage_actions batch) st.disk ≡ (ok tt, st'.disk))
      × (in_order (transmit S) (network_actions batch) st.transport ≡ (ok tt, st'.transport))

  stored_first :
      (r : Io (Unit {0}) × Disk S) (rest : List IoAction) (st st' : IoStage S)
      → then_rest {A = IoStage S} (r.0, record st { disk = r.1 }) (one_by_one rest) ≡ (ok tt, st')
      → (d : Disk S) × (r ≡ (ok tt, d)) × (one_by_one rest (record st { disk = d }) ≡ (ok tt, st'))
  stored_first (ok tt, d) rest st st' h = (d, refl, h)
  stored_first (err e, d) rest st st' h = absurd (ground arith)

  sent_first :
      (r : Io (Unit {0}) × S.Outbox) (rest : List IoAction) (st st' : IoStage S)
      → then_rest {A = IoStage S} (r.0, record st { transport = r.1 }) (one_by_one rest)
        ≡ (ok tt, st')
      → (o : S.Outbox) × (r ≡ (ok tt, o))
        × (one_by_one rest (record st { transport = o }) ≡ (ok tt, st'))
  sent_first (ok tt, o) rest st st' h = (o, refl, h)
  sent_first (err e, o) rest st st' h = absurd (ground arith)

  one_by_one-Split :
      (batch : List IoAction) (st st' : IoStage S)
      → one_by_one batch st ≡ (ok tt, st')
      → Split batch st st'
  unfolding one_by_one Split storage_actions network_actions in_order transmit
  one_by_one-Split [] st st' h = (
    ap (λ (p : Io (Unit {0}) × IoStage S). (p.0, p.1.disk)) h,
    ap (λ (p : Io (Unit {0}) × IoStage S). (p.0, p.1.transport)) h,
  )
  one_by_one-Split (send_rpc id env ∷ rest) st st' h =
      let (o, e, more) = sent_first (S.send id env st.transport) rest st st' h in
      let (x, y) = one_by_one-Split rest (record st { transport = o }) st' more in (x, rw e y)
  one_by_one-Split (persist_quorum_state qs ∷ rest) st st' h =
      let (d, e, more) = stored_first (store S (persist_quorum_state qs) st.disk) rest st st' h in
      let (x, y) = one_by_one-Split rest (record st { disk = d }) st' more in (rw e x, y)
  one_by_one-Split (append_log es ∷ rest) st st' h =
      let (d, e, more) = stored_first (store S (append_log es) st.disk) rest st st' h in
      let (x, y) = one_by_one-Split rest (record st { disk = d }) st' more in (rw e x, y)
  one_by_one-Split (truncate_suffix o ∷ rest) st st' h =
      let (d, e, more) = stored_first (store S (truncate_suffix o) st.disk) rest st st' h in
      let (x, y) = one_by_one-Split rest (record st { disk = d }) st' more in (rw e x, y)
  one_by_one-Split (truncate_prefix o ∷ rest) st st' h =
      let (d, e, more) = stored_first (store S (truncate_prefix o) st.disk) rest st st' h in
      let (x, y) = one_by_one-Split rest (record st { disk = d }) st' more in (rw e x, y)
  one_by_one-Split (save_snapshot sn ∷ rest) st st' h =
      let (d, e, more) = stored_first (store S (save_snapshot sn) st.disk) rest st st' h in
      let (x, y) = one_by_one-Split rest (record st { disk = d }) st' more in (rw e x, y)

  -- the two groups before the first turn
  abbrev pub at_start : List IoAction → IoStage S → Progress S
  at_start batch st = record {
    storage_left = storage_actions batch;
    network_left = network_actions batch;
    stage = st;
  }

  -- If a batch succeeds where its actions are carried out one after the other in the order of the batch,
  -- then, whatever turns its storage actions and its sends take, these turns succeed and leave of each
  -- group one action less for each turn that it had, and the stage that takes them and then does the rest
  -- succeeds and leaves the same stores and the same transport as that order.
  pub execute_any_order :
      (turns : List Turn) (batch : List IoAction) (st st' : IoStage S)
      → one_by_one batch st ≡ (ok tt, st')
      → ((p : Progress S) × (take_turns turns (at_start batch st) ≡ (ok tt, p))
          × (p.storage_left ≡ storage_left_after turns (storage_actions batch))
          × (p.network_left ≡ network_left_after turns (network_actions batch)))
        × (execute turns batch st ≡ (ok tt, st'))
  unfolding execute Split Interleaved
  execute_any_order turns batch st st' h =
      let (x, y) = one_by_one-Split batch st st' h in
      let (p, e, (a, b, _, _)) =
        take_turns-ok turns (storage_actions batch) (network_actions batch) st.disk st'.disk
          st.transport st'.transport x y in
      (
        (p, e, a, b),
        try_join-ok turns (storage_actions batch) (network_actions batch) st.disk st'.disk
            st.transport st'.transport x y,
      )

  sent_before_saved :
      (qs : QuorumState) (id : NodeId) (env : RpcEnvelope) (d : Disk S) (o o' : S.Outbox)
      → S.send id env o ≡ (ok tt, o')
      → take_turns (Turn.network ∷ []) (
          at_start
            (persist_quorum_state qs ∷ send_rpc id env ∷ [])
            (record { disk = d; transport = o }))
        ≡ (
          ok tt,
          record {
            storage_left = persist_quorum_state qs ∷ [];
            network_left = [];
            stage = record { disk = d; transport = o' };
          },
        )
  unfolding take_turns take_turn transmit storage_actions network_actions
  sent_before_saved qs id env d o o' sent = rw sent refl

  send_first :
      (qs : QuorumState) (id : NodeId) (env : RpcEnvelope) (d : Disk S) (o o' : S.Outbox)
      → S.send id env o ≡ (ok tt, o')
      → execute
          (Turn.network ∷ [])
          (persist_quorum_state qs ∷ send_rpc id env ∷ [])
          (record { disk = d; transport = o })
        ≡ (
          (S.save qs d.quorum_store).0,
          record {
            disk = record d { quorum_store = (S.save qs d.quorum_store).1 };
            transport = o';
          },
        )
  unfolding execute try_join store in_order
  send_first qs id env d o o' sent =
      rw (sent_before_saved qs id env d o o' sent)
        (elim (Result-cases (S.save qs d.quorum_store).0) [
          | inl (tt, h) ↦ rw h refl
          | inr (e, h) ↦ rw h refl
        ])

  -- The order of a batch does not hold between the groups. Where a real vote request is granted, as the
  -- reply, the last action of its batch, tells, there is for every stage whose transport sends that
  -- reply an order of turns after which the reply is sent, nothing is stored, and the saving of the vote
  -- is still to be done; the stage then saves it and ends with the result of the save, so the reply is
  -- out also where the save fails.
  pub reply_sent_before_vote_saved :
      (M : Methods) (req : VoteRequest) (s : ElectionState) (c : M.clocks.Time) (env : RpcEnvelope)
      (resp : VoteResponse) (d : Disk S) (o o' : S.Outbox)
      → last? (handle_vote_request M req s c []).2 ≡ some (send_rpc req.candidate_id env)
      → env.payload ≡ vote_response resp
      → resp.vote_granted ≡ true
      → S.send req.candidate_id env o ≡ (ok tt, o')
      → (turns : List Turn) × (qs : QuorumState) × (qs.voted_for ≡ some req.candidate_id)
        × (take_turns turns
              (at_start (handle_vote_request M req s c []).2 (record { disk = d; transport = o }))
            ≡ (
              ok tt,
              record {
                storage_left = persist_quorum_state qs ∷ [];
                network_left = [];
                stage = record { disk = d; transport = o' };
              },
            ))
        × (execute turns (handle_vote_request M req s c []).2 (record { disk = d; transport = o })
            ≡ (
              (S.save qs d.quorum_store).0,
              record {
                disk = record d { quorum_store = (S.save qs d.quorum_store).1 };
                transport = o';
              },
            ))
  reply_sent_before_vote_saved M req s c env resp d o o' h p g sent =
      let (qs, b, v, _, _, _) = granted_batch M req s c [] env resp h p g in
      (
        Turn.network ∷ [],
        qs,
        v,
        rw b (sent_before_saved qs req.candidate_id env d o o' sent),
        rw b (send_first qs req.candidate_id env d o o' sent),
      )
