-- ===== src/Iroh/Steps.antt =====
-- crates/kamiroh-adapter-iroh/src/lib.rs: the interleavings of a net's handles and tasks.
use kamiroh.Iroh.Shared.{Shared, Serving, started}
use kamiroh.Iroh.Net.{
  add_peer, add_peer_by_id, close_connection, shutdown, bind, next, drop_inbox, death_watch,
}
use kamiroh.Iroh.Sending.{send, open_many, accepted}
use kamiroh.Common.{some, ◌≡◌, List, Option, ◌++◌, ◌∷◌, ℕ}
use kamiroh.Iroh.External.{External}
use kamiroh.Domain.Address.{EndpointId, Address, ActorName}
use kamiroh.Domain.Vocabulary.{Message, Request}
use kamiroh.Iroh.Reading.{read_one}
use kamiroh.Iroh.Deaths.{connection_closed, next_death}

module _ (E : External) where
  -- One step: a call of a handle, a task that has something to do, or the network.
  pub data Step : Shared E → Shared E → Type 0 where
    peer_added : (s : Shared E) (addr : E.NodeAddr) → Step s (add_peer E s addr).0
    peer_added_by_id : (s : Shared E) (e : EndpointId) → Step s (add_peer_by_id E s e).0
    watched : (s : Shared E) → Step s (death_watch E s).0
    connection_dropped : (s : Shared E) (e : EndpointId) → Step s (close_connection E s e).0
    shut_down : (s : Shared E) → Step s (shutdown E s)
    bound_at : (s : Shared E) (a : Address) → Step s (bind E s a).0
    received_at : (s : Shared E) (c : E.Channel) → Step s (next E s c).0
    inbox_dropped : (s : Shared E) (c : E.Channel) → Step s (drop_inbox E s c)
    sent_to : (s : Shared E) (from to : Address) (m : Message) → Step s (send E s from to m).0
    opened_many :
        (s : Shared E) (from : Address) (e : EndpointId) (names : List ActorName) (q : Request)
        → Step s (open_many E s from e names q).0
    connected : (s : Shared E) (c : Option E.Connection) → Step s (accepted E s c)
    read_from :
        (s : Shared E) (r : Serving E) (before after : List (Serving E))
        → s.readers ≡ before ++ r ∷ after
        → Step s (read_one E s r).0
    closed :
        (s : Shared E) (w : Serving E) (reason : E.ConnectionError)
        (before after : List (Serving E))
        → s.watches ≡ before ++ w ∷ after
        → Step s (connection_closed E (record s { watches = before ++ after }) w reason)
    death_polled : (s : Shared E) (task i : ℕ) → Step s (next_death E task i s).0
    network_moved : (s : Shared E) (n : E.Endpoint) → Step s (record s { endpoint = n })

  pub data Reach : Shared E → Type 0 where
    begun : (n : E.Endpoint) (s : Shared E) → started E n ≡ some s → Reach s
    later : {s t : Shared E} → Reach s → Step s t → Reach t
