-- ===== src/Domain/Protocol/Pairing.antt =====
-- crates/kamiroh-domain/src/protocol.rs: openings, replies, and the turn machine.
use kamiroh.Common.{◌≡◌, ◌↔◌, true, false, ok, arith}
use kamiroh.Domain.Vocabulary.{Request, Turn, open_turn, Message, turn_message}
use kamiroh.Domain.Protocol.{protocol_of, opens, completes}
use kamiroh.Domain.TurnState.{idle, concluded, on_outgoing, on_incoming}

-- What completes an exchange belongs to the protocol of its opening, which opens one, and is
-- itself no opening.
pub completes_pairs :
    (o r : Message)
    → completes o r ≡ true
    → (opens o ≡ true) × (opens r ≡ false) × (protocol_of o ≡ protocol_of r)
unfolding completes opens protocol_of
completes_pairs o r h = ground arith

-- `completes` and the turn machine agree on exchanges of a single round: a turn completes an
-- `Open` exactly when the machine that sent the `Open` concludes on receiving it.
pub completes_concludes :
    (q : Request) (t : Turn)
    → (completes (turn_message (open_turn q)) (turn_message t) ≡ true)
      ↔ ((on_incoming (on_outgoing idle (open_turn q)).0 t).1 ≡ ok concluded)
unfolding completes on_outgoing on_incoming
completes_concludes q t = (λ h. ground arith, λ h. ground arith)
