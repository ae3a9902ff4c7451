-- ===== src/Kameo/Host.antt =====
-- crates/kamiroh-adapter-kameo/src/lib.rs: the state of a host and the path by which an exchange
-- fails. The handlers of a host run one at a time. A timer task is the report that it will send;
-- `tasks` lists the tasks that were spawned, oldest first, and an aborted one stays listed, since
-- its message may be queued already. `events` is what the runtime's observer was told.
use mathlib.Core.Option.{map as map_option}
use kamiroh.Common.Assoc.{modify}
use kamiroh.Common.{
  [], ◌∷◌, none, some, ◌%◌, ◌+◌, ◌^◌, ℕ, Bool, Option, List, ite, false, length, cond, same, ◌&&◌,
  ◌++◌,
}
use kamiroh.Domain.Address.{Address, EndpointId, Address-discrete, EndpointId-discrete}
use kamiroh.Domain.Allowlist.{Allowlist, admit, revoke}
use kamiroh.Domain.Deadline.{DeadlineKind, Deadlines, FailureCause, revoked, disconnected}
use kamiroh.Domain.TurnState.{TurnState, idle, fail, is_live}
use kamiroh.Domain.Vocabulary.{RequestId, RequestId-discrete}
use kamiroh.App.Parties.{DynParty, on_exchange_failed_boxed}
use kamiroh.App.Runtime.{ActorKind}
use kamiroh.Ports.{Event, Party, exchange_failed_event}

-- `turn` tells whether a handle is held.
pub record PeerWaits : Type 0 where
  pub state : TurnState
  pub ack : Option RequestId
  pub turn : Bool
  pub epoch : ℕ  -- u64

-- `PeerWaits::default`.
abbrev pub no_waits : PeerWaits
no_waits = record { state = idle; ack = none; turn = false; epoch = 0 }

-- The message `DeadlineElapsed`.
pub record Report : Type 0 where
  pub peer : Address
  pub kind : DeadlineKind
  pub ack_id : Option RequestId
  pub epoch : ℕ

pub record Host (P : Type 0) : Type 0 where
  pub address : Address
  pub allowlist : Allowlist
  pub kind : ActorKind
  pub deadlines : Deadlines
  pub party : Option (DynParty P)
  pub conversations : List (Address × PeerWaits)

pub record Hosted (S P : Type 0) : Type 0 where
  pub host : Host P
  pub world : S
  pub events : Option (List Event)
  pub tasks : List Report

unfoldable pub next_epoch : ℕ → ℕ
next_epoch e = (e + 1) % 2 ^ 64

unfoldable pub settle_ack : RequestId → PeerWaits → PeerWaits
settle_ack id ws = elim ws.ack [
  | none ↦ ws
  | some due ↦ ite (RequestId-discrete due id) (record ws { ack = none }) ws
]

unfoldable pub settle_all : PeerWaits → PeerWaits
settle_all ws = record ws { ack = none; turn = false }

-- A conversation whose exchange has failed.
unfoldable pub failed_waits : PeerWaits → PeerWaits
unfolding settle_all next_epoch
failed_waits ws = record (settle_all (record ws { state = (fail ws.state).0 })) {
  epoch = next_epoch ws.epoch;
}

unfoldable pub affected : EndpointId → List (Address × PeerWaits) → List Address
unfolding is_live
affected e [] = []
affected e ((peer, ws) ∷ m) =
    cond (same EndpointId-discrete peer.endpoint e && is_live ws.state) (peer ∷ affected e m)
      (affected e m)

module _ {S P : Type 0} (own : Party P) where
  unfoldable pub emit : Event → Hosted S P → Hosted S P
  emit e h = record h { events = map_option (λ log. log ++ e ∷ []) h.events }

  unfoldable pub fail_exchange : Address → FailureCause → Hosted S P → Hosted S P
  unfolding emit failed_waits
  fail_exchange peer cause h = emit (exchange_failed_event h.host.address peer cause) (record h {
    host = record h.host {
      conversations = modify Address-discrete peer failed_waits h.host.conversations;
      party = map_option (λ p. on_exchange_failed_boxed own p peer cause) h.host.party;
    };
  })

  unfoldable pub fail_exchanges : List Address → FailureCause → Hosted S P → Hosted S P
  fail_exchanges [] cause h = h
  fail_exchanges (peer ∷ peers) cause h = fail_exchanges peers cause (fail_exchange peer cause h)

  unfoldable pub admit_here : EndpointId → Hosted S P → Hosted S P
  admit_here e h = record h { host = record h.host { allowlist = admit h.host.allowlist e } }

  unfoldable pub revoke_here : EndpointId → Hosted S P → Hosted S P × ℕ
  unfolding affected
  revoke_here e h =
      let peers = affected e h.host.conversations in
      (
        fail_exchanges peers revoked
            (record h { host = record h.host { allowlist = revoke h.host.allowlist e } }),
        length peers,
      )

  -- The handler of `PeerDied`.
  unfoldable pub peer_died : EndpointId → Hosted S P → Hosted S P
  unfolding affected
  peer_died e h = fail_exchanges (affected e h.host.conversations) disconnected h
