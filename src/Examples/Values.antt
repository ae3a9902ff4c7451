-- ===== src/Examples/Values.antt =====
-- The values that the tests share: two machines, three actors and some requests.
use kamiroh.Common.{codes, replicate, ℕ, [], ◌∷◌, none, ok, some, err, leb}
use kamiroh.Domain.Address.{EndpointId, Address}
use kamiroh.Domain.Vocabulary.{RequestId, Request, Response, turn_message, open_turn}
use kamiroh.Domain.Deadline.{Deadlines}
use kamiroh.Ports.{Party, Transport, Timer, Inbox, DeathWatch, pending, ready, Delivery}
use kamiroh.Domain.Allowlist.{Allowlist}
use kamiroh.App.Runtime.{Ports}

abbrev pub endpoint_a : EndpointId
endpoint_a = record { hex = record { digits = codes "aa" } }

abbrev pub endpoint_b : EndpointId
endpoint_b = record { hex = record { digits = codes "bb" } }

abbrev pub alice : Address
alice = record { endpoint = endpoint_a; name = record { name = codes "alice" } }

abbrev pub bob : Address
bob = record { endpoint = endpoint_b; name = record { name = codes "bob" } }

abbrev pub carol : Address
carol = record { endpoint = endpoint_b; name = record { name = codes "carol" } }

abbrev pub id_of : ℕ → RequestId
id_of n = record { bytes = replicate 16 n }

abbrev pub asking_with : ℕ → Request
asking_with n = record { id = id_of n; body = n ∷ [] }

abbrev pub answering : ℕ → Response
answering n = record { id = id_of n; body = n ∷ [] }

abbrev pub patience : Deadlines
patience = record { ack = 10; turn = 100 }

-- A party that never answers.
abbrev pub silent : Party (Unit {0})
silent = record { on_turn = λ p from t. (p, none); on_exchange_failed = λ p from cause. p }

-- A world that is its clock, with a transport that carries everything, or nothing.
abbrev pub carrying : Transport ℕ
carrying = record { send = λ w from to m. (w, ok tt); open_many = λ w from e names q. (w, ok tt) }

abbrev pub failing : Transport ℕ
failing = record {
  send = λ w from to m. (w, err (codes "no route"));
  open_many = λ w from e names q. (w, err (codes "no route"));
}

abbrev pub wall_clock : Timer ℕ
wall_clock = record { now = λ w. w; poll_sleep = λ w at. (w, leb at w) }

abbrev pub empty_inbox : Inbox ℕ
empty_inbox = record { poll_next = λ w a. (w, pending) }

-- A death watch that reports one endpoint at once, and one that reports nothing.
abbrev pub mourning : DeathWatch ℕ
mourning = record { poll_death = λ w. (w, ready (some endpoint_b)) }

abbrev pub watching : DeathWatch ℕ
watching = record { poll_death = λ w. (w, pending) }

abbrev pub only_a : Allowlist
only_a = record { endpoints = endpoint_a ∷ [] }

abbrev pub open_delivery : Delivery
open_delivery = record {
  from = alice;
  to = bob;
  message = turn_message (open_turn (asking_with 1));
}

-- An inbox that always holds the same delivery.
abbrev pub full_inbox : Inbox ℕ
full_inbox = record { poll_next = λ w a. (w, ready (some open_delivery)) }

abbrev pub ports_over : Transport ℕ → Ports ℕ (Unit {0})
ports_over net = record {
  transport = net;
  registry = record { bind = λ w a. (w, ok tt); unbind = λ w a. w };
  inbox = full_inbox;
  timer = wall_clock;
  deaths = watching;
  own = silent;
}
