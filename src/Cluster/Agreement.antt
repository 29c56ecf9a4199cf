-- ===== src/Cluster/Agreement.antt =====
-- Every node of a cluster agrees with one history of votes, in every state that the cluster reaches.
use xraft.Prelude.{
  ◌≡◌, refl, sym, ◌∙◌, ap, false, none, some, List, [], arith, Bool-cases, inl, inr, ◌==◌,
}
use xraft.Types.{NodeId, VoterInfo, ClusterId, Instant, NodeState, QuorumState}
use xraft.Types.Rpc.{RpcEnvelope}
use xraft.Node.Traits.{Traits}
use xraft.Node.State.{RaftNode}
use xraft.Node.Startup.{bootstrap, new}
use xraft.Node.Stored.{IsStored, Run-IsStored}
use xraft.Node.Rejoin.{Finds, new-Finds}
use xraft.Node.Recovery.{new-quiet, new-IsStored, restart-same}
use xraft.Prelude.Exec.{ok}
use xraft.Node.Bootstrap.{validate_bootstrap_config-ok_iff}
use xraft.Node.Formation.{bootstrap-cases}
use xraft.Node.Runs.{here, next}
use xraft.Node.VoteOnce.{IsFresh}
use xraft.Node.Terms.{Run-Keeps}
use xraft.Node.Majority.{IsElected, Run-IsElected}
use xraft.Cluster.{
  Network, Event, rpc, ticked, polled, received, formed, Event-Step, Cluster, Delivered, update,
  Step, acts, restarts, Knows, IsNew, Reach, start, later,
}
use xraft.Cluster.Calm.{bootstrap-outbox}
use xraft.Cluster.Honest.{History, IsHonest, Good, Own}
use xraft.Cluster.Handlers.{rpc-Good, tick-Good, poll-Good, receive-Good}
use xraft.Cluster.History.{
  cast, Remembers, Extends, cast-Own, cast-other, Keeps-Remembers, cast-Extends, cast-Remembers,
  Says-Extends,
}
use xraft.Cluster.Votes.{All-map}

module _ {T : Traits} {W : Network T.net} where
  Good-Extends :
      (H H' : History) (i : NodeId) (ws : List VoterInfo) (n : RaftNode T)
      → Extends H H'
      → Good W H i ws n
      → Good W H' i ws n
  Good-Extends H H' i ws n x g = record {
    self = g.self;
    voters = g.voters;
    supported =
        All-map (λ v. H v n.state.current_term ≡ some i) (λ v. H' v n.state.current_term ≡ some i)
          n.state.votes_received (λ v h. x v n.state.current_term i h) g.supported;
    honest = λ to e s. Says-Extends H H' to e.source e.payload x (g.honest to e s);
  }

  bootstrap-Good :
      (H : History) (V ws : List VoterInfo) (i : NodeId) (c : ClusterId) (n : RaftNode T)
      → Good W H i ws n
      → Knows V i ws
      → (ws' : List VoterInfo) × Good W H i ws' (bootstrap c V n).1 × Knows V i ws'
  bootstrap-Good H V ws i c n g k = elim (bootstrap-cases c V n) [
    | inl (same, _) ↦ (ws, rw same g, k)
    | inr (d, e, _, _, _, _, _, valid) ↦
        let (_, _, member) = (validate_bootstrap_config-ok_iff n.state.node_id c V).0 valid in
        (
          V,
          record {
            self = rw e g.self;
            voters = rw e refl;
            supported = rw e tt;
            honest = rw (bootstrap-outbox c V n) g.honest;
          },
          inr (refl, rw (← g.self) member),
        )
  ]

  Event-Good :
      (H : History) (V ws : List VoterInfo) (i : NodeId) (Arrives : RpcEnvelope → Type 0)
      → {n m : RaftNode T} → Event V Arrives n m
      → ((e : RpcEnvelope) → Arrives e → IsHonest H i e)
      → Own H i m
      → Good W H i ws n
      → Knows V i ws
      → (ws' : List VoterInfo) × Good W H i ws' m × Knows V i ws'
  Event-Good H V ws i Arrives {n} (rpc e a) h own g k = (ws, rpc-Good e n (h e a) g own, k)
  Event-Good H V ws i Arrives {n} (ticked room) h own g k = (ws, tick-Good n g own, k)
  Event-Good H V ws i Arrives {n} (polled room) h own g k = (ws, poll-Good n g own, k)
  Event-Good H V ws i Arrives {n} (received a) h own g k =
      (ws, receive-Good n (λ e q. h e (a e q)) g own, k)
  Event-Good H V ws i Arrives {n} (formed c) h own g k = bootstrap-Good H V ws i c n g k

-- Every save is done: a load then returns what was saved.
abbrev pub Saves : Traits → Type 0
Saves T =
    (qs : QuorumState) (q : T.quorums.Quorum)
    → T.quorums.load (T.quorums.save qs q).1 ≡ ok (some qs)

-- One node against the history: its votes are in it, and what it counts and what it sent is true to it.
pub record Agrees {T : Traits} (W : Network T.net) (H : History) (V : List VoterInfo) (i : NodeId)
    (n : RaftNode T) : Type 0 where
  pub fresh : IsFresh n.state
  pub elected : IsElected n.state
  pub known : (ws : List VoterInfo) × Good W H i ws n × Knows V i ws
  pub remembers : Remembers H i n.state
  pub stored : IsStored n

module _ {T : Traits} {W : Network T.net} where
  new-Agrees :
      (V : List VoterInfo) (s : Cluster T)
      → IsNew W s
      → (i : NodeId) → Agrees W (λ _ _. none) V i (s i)
  new-Agrees V s fresh i =
      let ((d, e), empty, quiet) = fresh i in
      record {
        fresh = rw e (λ _. (refl, refl, refl));
        elected = rw e (record { majority = λ l. cc; distinct = tt; votes_count = tt });
        known = (
          [],
          record {
            self = rw e refl;
            voters = rw e refl;
            supported = rw e tt;
            honest = λ to f h. absurd (quiet to f h);
          },
          inl refl,
        );
        remembers = λ u c h. cc;
        stored = (λ qs h. absurd (cc (empty, h)), rw e (λ h. (refl, refl)));
      }

  -- a node that acts
  Event-Agrees :
      Saves T
      → (H : History) (V : List VoterInfo) (i : NodeId) (Arrives : RpcEnvelope → Type 0)
      → {n m : RaftNode T} → Event V Arrives n m
      → ((e : RpcEnvelope) → Arrives e → IsHonest H i e)
      → Agrees W H V i n
      → Extends H (cast i m.state H) × Agrees W (cast i m.state H) V i m
  Event-Agrees law H V i Arrives {n} {m} ev honest a =
      let (ws, good, knows) = a.known in
      let (kept, fresh) = Run-Keeps (next here (Event-Step ev)) a.fresh in
      let H' = cast i m.state H in
      let stands = Keeps-Remembers i n.state m.state H a.remembers kept in
      let x = cast-Extends i m.state H stands in
      (
        x,
        record {
          fresh = fresh;
          elected = Run-IsElected (next here (Event-Step ev)) a.elected;
          known =
              Event-Good H' V ws i Arrives ev
                (λ e arrives. Says-Extends H H' i e.source e.payload x (honest e arrives))
                (cast-Own i m.state H) (Good-Extends H H' i ws n x good) knows;
          remembers = cast-Remembers i m.state H stands;
          stored = Run-IsStored law n m (next here (Event-Step ev)) a.fresh a.stored;
        },
      )

  -- a node that stands by while another one votes
  other-Agrees :
      (H : History) (V : List VoterInfo) (i j : NodeId) (s : NodeState) (n : RaftNode T)
      → (i == j) ≡ false
      → Extends H (cast i s H)
      → Agrees W H V j n
      → Agrees W (cast i s H) V j n
  other-Agrees H V i j s n e x a =
      let (ws, good, knows) = a.known in
      record {
        fresh = a.fresh;
        elected = a.elected;
        known = (ws, Good-Extends H (cast i s H) j ws n x good, knows);
        remembers = λ u c h. a.remembers u c (sym (cast-other i j s H u e) ∙ h);
        stored = a.stored;
      }

  -- a node that comes back
  restart-Agrees :
      (H : History) (V : List VoterInfo) (i : NodeId) (now : Instant) (n parts m : RaftNode T)
      → parts.config.node_id ≡ i
      → parts.quorum_state_store ≡ n.quorum_state_store
      → parts.outbox ≡ n.outbox
      → new now parts ≡ ok m
      → Finds V i parts
      → Agrees W H V i n
      → Agrees W H V i m
  restart-Agrees H V i now n parts m id store sent made finds a =
      let up = new-Finds V i now parts m finds made in
      let (self, votes, out, _) = new-quiet now parts m made in
      let (term, vote) = restart-same now n parts m a.stored store made in
      let (ws, good, _) = a.known in
      record {
        fresh = elim up [
          | inl e ↦ rw e (λ _. (refl, refl, refl))
          | inr (r, _) ↦ λ u. absurd (cc (u, r))
        ];
        elected = record {
          majority = λ l. absurd (elim up [
            | inl e ↦ cc (ap (λ (s : NodeState). s.role) e, l)
            | inr (r, _) ↦ cc (r, l)
          ]);
          distinct = rw votes tt;
          votes_count = rw votes tt;
        };
        known = (
          m.state.voter_set,
          record {
            self = self ∙ id;
            voters = refl;
            supported = rw votes tt;
            honest = rw (out ∙ sent) good.honest;
          },
          elim up [ inl e ↦ inl (ap (λ (s : NodeState). s.voter_set) e) | inr (_, k) ↦ k ],
        );
        remembers = λ u c h. rw (term, vote) (a.remembers u c h);
        stored = new-IsStored now parts m made;
      }

  -- one node changed, with the history or without it
  update-Agrees :
      (H' : History) (V : List VoterInfo) (i : NodeId) (s : Cluster T) (m : RaftNode T)
      → Agrees W H' V i m
      → ((j : NodeId) → (i == j) ≡ false → Agrees W H' V j (s j))
      → (j : NodeId) → Agrees W H' V j (update s i m j)
  update-Agrees H' V i s m now others j = elim (Bool-cases (i == j)) [
    | inl e ↦ let same : i ≡ j = ground arith in rw e (rw (← same) now)
    | inr e ↦ rw e (others j e)
  ]

  Step-Agrees :
      Saves T
      → (H : History) (V : List VoterInfo) {s t : Cluster T} → Step W V s t
      → ((i : NodeId) → Agrees W H V i (s i))
      → (H' : History) × ((i : NodeId) → Agrees W H' V i (t i))
  Step-Agrees law H V {s} (acts i {m} ev) all =
      let honest : (e : RpcEnvelope) → Delivered W s i e → IsHonest H i e = λ e d.
        let (from, sent) = d in let (ws, good, _) = (all from).known in good.honest i e sent in
      let (x, now) = Event-Agrees law H V i (Delivered W s i) ev honest (all i) in
      (
        cast i m.state H,
        update-Agrees (cast i m.state H) V i s m now
            (λ j e. other-Agrees H V i j m.state (s j) e x (all j)),
      )
  Step-Agrees law H V {s} (restarts i now parts {m} id store sent made up) all = (
    H,
    update-Agrees H V i s m (restart-Agrees H V i now (s i) parts m id store sent made up (all i))
        (λ j _. all j),
  )

  pub Reach-Agrees :
      Saves T
      → (V : List VoterInfo) {s : Cluster T} → Reach W V s
      → (H : History) × ((i : NodeId) → Agrees W H V i (s i))
  Reach-Agrees law V (start s fresh) = (λ _ _. none, new-Agrees V s fresh)
  Reach-Agrees law V (later r st) =
      let (H, all) = Reach-Agrees law V r in Step-Agrees law H V st all
