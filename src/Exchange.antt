-- ===== src/Exchange.antt =====
-- crates/kamiroh-app and crates/kamiroh-adapter-memory together: an exchange of a phone with an
-- echo party that a LocalRuntime hosts, over one memory network.
use kamiroh.Memory.World.{
  Sim, memory_transport, memory_registry, memory_inbox, test_timer, memory_deaths,
}
use kamiroh.Memory.Net.{send, poll_next}
use kamiroh.Common.Sets.{remove as remove_endpoint}
use kamiroh.App.Parties.{echo_of, EchoParty, echo, entry_or}
use kamiroh.Common.{
  refl, [], ◌∷◌, some, ok, true, false, ℕ, ◌≡◌, ◌≢◌, Option, arith, ap, ◌∙◌, none, sym, subst,
}
use kamiroh.Domain.Address.{
  Address, ActorName, ActorName-discrete, Address-discrete, EndpointId-discrete,
}
use kamiroh.App.Runtime.{LocalActor, Ports, PeerState, LocalRuntime, address_of, no_exchange_yet}
use kamiroh.Ports.{Party, Delivery, ready}
use kamiroh.Domain.Vocabulary.{Request, Turn, ack_message, turn_message, open_turn}
use kamiroh.App.Runtime.Step.{take_delivery, dispatch}
use kamiroh.Domain.TurnState.{is_live, idle, concluded}
use kamiroh.Memory.Sending.{
  send_all, send_delivery, receive, receive-send_all, posted_polled, is_partitioned-same,
}
use kamiroh.App.Runtime.Turns.{peer_state}
use kamiroh.Common.Assoc.{contains_key, get}
use kamiroh.Memory.Net.{Mailbox, Shared, is_partitioned, post}
use kamiroh.Domain.Allowlist.{allows}
use kamiroh.App.Runtime.Hearing.{take_turn-Shown}
use kamiroh.App.Inbound.Gate.{process-open}
use kamiroh.App.Echoed.{see_turn-echo}
use kamiroh.App.Runtime.Viewed.{local_view}
use kamiroh.App.Phone.{Phone, open_exchange, note_ack, on_incoming}
use kamiroh.App.Exchanging.{entry_or-map_values}
use kamiroh.App.Phone.Asking.{open_exchange-sent, asked_answered}

abbrev pub memory_ports : {P : Type 0} → ℕ → ℕ → Party P → Ports Sim P
memory_ports task watch own = record {
  transport = memory_transport;
  registry = memory_registry;
  inbox = memory_inbox task;
  timer = test_timer task;
  deaths = memory_deaths task watch;
  own = own;
}

abbrev pub turn_delivery : Address → Address → Turn → Delivery
turn_delivery from to t = record { from = from; to = to; message = turn_message t }

abbrev pub ack_delivery : Address → Address → Request → Delivery
ack_delivery from to q = record {
  from = from;
  to = to;
  message = ack_message (record { id = q.id });
}

-- A phone and the actor that it calls have a link: each has an empty mailbox, and no partition
-- stands between them.
abbrev pub Linked : Shared → Address → Address → Type 0
Linked n a b =
    (a ≢ b)
    × (x : Option ℕ) × (get Address-discrete a n.mailboxes
        ≡ some (record { queue = []; waker = x }))
    × (y : Option ℕ) × (get Address-discrete b n.mailboxes
        ≡ some (record { queue = []; waker = y }))
    × (is_partitioned n a.endpoint b.endpoint ≡ false)
    × (is_partitioned n b.endpoint a.endpoint ≡ false)

-- An actor at which an echo party waits for an opening of the peer.
abbrev pub EchoesTo : {P : Type 0} → LocalActor P → EchoParty → Address → Type 0
EchoesTo a e peer =
    (a.party ≡ some (echo e))
    × (is_live (peer_state a peer).state ≡ false)
    × (is_live (entry_or peer idle e.states) ≡ false)

module _ {P : Type 0} (task watch : ℕ) (own : Party P) where
  memory_sent :
      (w : Sim) (from to : Address) (t : Turn) {b : Mailbox}
      → is_partitioned w.net from.endpoint to.endpoint ≡ false
      → get Address-discrete to w.net.mailboxes ≡ some b
      → memory_transport.send w from to (turn_message t)
        ≡ (record w { net = post w.net (turn_delivery from to t) }, ok tt)
  unfolding send contains_key
  memory_sent w from to t h k = ground arith

  -- The host's side: the delivery of an opening leaves the ack and the echo on the network.
  echo_world :
      (name : ActorName) (peer : Address) (q : Request) (r : LocalRuntime Sim P) (a : LocalActor P)
      (e : EchoParty)
      → get ActorName-discrete name r.actors ≡ some a
      → EchoesTo a e peer
      → allows a.allowlist peer.endpoint ≡ true
      → let me = address_of r name in
        (take_delivery
          (memory_ports task watch own)
          name
          a.allowlist
          a.kind
          (turn_delivery peer me (open_turn q))
          r).0.world.net
        ≡ send_all r.world.net (ack_delivery me peer q ∷ turn_delivery me peer (echo_of q) ∷ [])
  unfolding take_delivery dispatch send_all send_delivery
  echo_world name peer q r a e h i l =
      let ports = memory_ports task watch own in
      let me = address_of r name in
      let ack = ack_message (record { id = q.id }) in
      let heard = record r { dead = remove_endpoint EndpointId-discrete peer.endpoint r.dead } in
      let (a', there, shown) = take_turn-Shown ports name peer (open_turn q) (some ack) heard a h in
      rw (process-open a.allowlist peer me q l) (
        ap (λ v. v.world.net) shown
        ∙ ap (λ (w : Sim). w.net)
            (see_turn-echo memory_transport own peer q ack (local_view name a heard) e i.0
              (ap is_live (
                  sym (
                    entry_or-map_values (λ (ps : PeerState). ps.state) no_exchange_yet peer
                      a.conversations))
                ∙ i.1)
              i.2))

  -- What the phone receives of the host.
  both_received :
      (n m : Shared) (q : Request) (me peer : Address) {y : Option ℕ}
      → get Address-discrete peer n.mailboxes ≡ some (record { queue = []; waker = y })
      → is_partitioned n me.endpoint peer.endpoint ≡ false
      → m ≡ send_all n (ack_delivery me peer q ∷ turn_delivery me peer (echo_of q) ∷ [])
      → receive task 2 m peer ≡ ack_delivery me peer q ∷ turn_delivery me peer (echo_of q) ∷ []
  both_received n m q me peer {y} h k e = rw e (
      receive-send_all task (ack_delivery me peer q ∷ turn_delivery me peer (echo_of q) ∷ []) n peer
        (record { queue = []; waker = y }) h ((refl, k), ((refl, k), tt)))

  -- An exchange from end to end. Between a phone with no live exchange and an echo party that a
  -- LocalRuntime hosts, that admits the phone's endpoint and has no live exchange with it, over a
  -- memory network on which both have empty mailboxes and no partition stands between them: the
  -- phone's opening is sent, the host's next poll yields it, handling that delivery sends an ack of
  -- the request and then a closing turn with the request's id and body, the phone's next two polls
  -- yield these two, and taking them in order settles its ack, concludes its exchange and leaves it
  -- idle with no wait armed.
  pub echo_exchange :
      (w : Sim) (p : Phone) (q : Request) (name : ActorName) (r : LocalRuntime Sim P)
      (a : LocalActor P) (e : EchoParty)
      → get ActorName-discrete name r.actors ≡ some a
      → EchoesTo a e p.self_address
      → allows a.allowlist p.self_address.endpoint ≡ true
      → p.peer ≡ address_of r name
      → is_live p.state ≡ false
      → Linked w.net (address_of r name) p.self_address
      → let host = address_of r name in
        let me = p.self_address in
        let (w1, p1, opened) = open_exchange memory_transport (test_timer task) w p q in
        let (n2, polled) = poll_next task w1.net host in
        let d = turn_delivery me host (open_turn q) in
        let after =
          take_delivery
            (memory_ports task watch own)
            name
            a.allowlist
            a.kind
            d
            (record r { world = record w1 { net = n2 } }) in
        let (p2, acked) = note_ack p1 (record { id = q.id }) in
        let (p3, outcome) = on_incoming p2 (echo_of q) in
        (opened ≡ ok tt)
        × (polled ≡ ready (some d))
        × (receive task 2 after.0.world.net me
            ≡ ack_delivery host me q ∷ turn_delivery host me (echo_of q) ∷ [])
        × (acked ≡ true)
        × (outcome ≡ ok concluded)
        × (p3.state ≡ idle)
        × (p3.turn_due ≡ none)
        × (p3.ack_due ≡ none)
  echo_exchange w p q name r a e h echoes l calls over (ne, x, hx, y, hy, out, back) =
      let host = address_of r name in
      let me = p.self_address in
      let d = turn_delivery me host (open_turn q) in
      let w1 : Sim = record w { net = post w.net d } in
      let sent = open_exchange-sent memory_transport (test_timer task) w w1 p q over (
        subst (λ b. memory_transport.send w me b (turn_message (open_turn q)) ≡ (w1, ok tt))
          (sym calls) (memory_sent w me host (open_turn q) back hx)) in
      let (polled, left, parts) = posted_polled task w.net d me hx hy ne in
      let n2 = (poll_next task w1.net host).0 in
      let open_still = is_partitioned-same n2 w.net host.endpoint me.endpoint parts ∙ out in
      let answered =
        echo_world name me q (record r { world = record w { net = n2 } }) a e h echoes l in
      let (fits, done, idle_again, no_turn, no_ack) =
        asked_answered p q (record { id = q.id; body = q.body }) w.clock.now refl in
      let got = both_received n2 _ q host me left open_still answered in
      rw sent (refl, polled, got, fits, done, idle_again, no_turn, no_ack)
