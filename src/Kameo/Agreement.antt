-- ===== src/Kameo/Agreement.antt =====
-- crates/kamiroh-adapter-kameo/src/lib.rs and crates/kamiroh-app/src/runtime.rs: the two hosts of
-- actors, side by side.
use kamiroh.Common.{sym, ap, subst, [], ◌∷◌, List, Option, ◌∙◌}
use kamiroh.Kameo.Host.{Hosted}
use kamiroh.Kameo.Viewed.{take_turn-view}
use kamiroh.Kameo.Timers.{take_turn}
use kamiroh.Kameo.Replied.{host_view}
use kamiroh.App.Runtime.Viewed.{Shown}
use kamiroh.App.Runtime.Hearing.{take_turn-Shown}
use kamiroh.App.Runtime.{LocalRuntime, Ports, address_of}
use kamiroh.App.Runtime.Outlined.{
  outline as local_outline, execute-outline as execute_local-outline,
}
use kamiroh.App.Runtime.Step.{execute as execute_local}
use kamiroh.Kameo.Commanding.{outline, execute-outline}
use kamiroh.Kameo.Deliver.{execute}
use kamiroh.App.Runtime.Turns.{take_turn as take_local_turn}
use kamiroh.Domain.Address.{ActorName, Address}
use kamiroh.Domain.Vocabulary.{Turn, Message}
use kamiroh.App.Exchanging.{see_turn}

-- Admitted turns, each with its peer and its ready-made ack.
abbrev pub Admitted : Type 0
Admitted = Address × Turn × Option Message

module _ {S P : Type 0} (ports : Ports S P) where
  unfoldable pub host_turns : List Admitted → Hosted S P → Hosted S P
  host_turns [] h = h
  host_turns ((peer, t, ack) ∷ ts) h =
      host_turns ts (take_turn ports.transport ports.own peer t ack h)

  unfoldable pub local_turns : ActorName → List Admitted → LocalRuntime S P → LocalRuntime S P
  local_turns name [] r = r
  local_turns name ((peer, t, ack) ∷ ts) r =
      local_turns name ts (take_local_turn ports name (address_of r name) peer t ack r).0

  -- The two hosts cannot be told apart by their turns: an actor of a LocalRuntime and a Kameo host
  -- that look the same, in address, world, events, party and turn machines, look the same again
  -- after any admitted turns of any peers, legal or not, answered or refused.
  pub hosts_agree :
      (name : ActorName) (ts : List Admitted) (r : LocalRuntime S P) (h : Hosted S P)
      → Shown name r (host_view h)
      → Shown name (local_turns name ts r) (host_view (host_turns ts h))
  unfolding host_turns local_turns
  hosts_agree name [] r h same_look = same_look
  hosts_agree name ((peer, t, ack) ∷ ts) r h (a, there, looks) =
      let after = take_turn-Shown ports name peer t ack r a there in
      let r' = (take_local_turn ports name (address_of r name) peer t ack r).0 in
      let h' = take_turn ports.transport ports.own peer t ack h in
      hosts_agree name ts r' h' (
        subst (Shown name r')
          (ap (see_turn ports.transport ports.own peer t ack) looks
            ∙ sym (take_turn-view ports.transport ports.own peer t ack h))
          after)
