-- ===== src/Examples/Network.antt =====
-- Tests of the memory network: order, partitions, batches and kills.
use kamiroh.Examples.Values.{alice, bob, carol, endpoint_a, endpoint_b, asking_with, open_delivery}
use kamiroh.Memory.Net.{Shared, poll_next, open_many, is_partitioned}
use kamiroh.Memory.Sending.{receive, send_all, send_delivery, receive-send_all, pending_then_woken}
use kamiroh.Memory.Partitions.{heal-partition}
use kamiroh.Memory.Batch.{open_many_blind, is_bound, at_endpoint}
use kamiroh.Memory.Faults.{heal, partition, is_between}
use kamiroh.Common.Assoc.{get, insert}
use kamiroh.Common.Sets.{contains}
use kamiroh.Ports.{Delivery, ready}
use kamiroh.Common.{[], ◌∷◌, none, some, refl, List, keep, ◌≡◌, Text-discrete, ℕ_discrete}
use kamiroh.Domain.Vocabulary.{turn_message, open_turn}
use kamiroh.Domain.Address.{Address-discrete, EndpointId-discrete, ActorName-discrete}
use kamiroh.Domain.Hex.{Hex-discrete}

-- Alice on one machine, bob on the other, and one death watch.
abbrev two_machines : Shared
two_machines = record {
  mailboxes =
      (alice, record { queue = []; waker = none })
      ∷ (bob, record { queue = []; waker = none })
      ∷ [];
  partitions = [];
  held = [];
  death_watchers = record { queue = []; waker = none } ∷ [];
  woken = [];
}

abbrev second_delivery : Delivery
second_delivery = record {
  from = alice;
  to = bob;
  message = turn_message (open_turn (asking_with 2));
}

abbrev two_deliveries : List Delivery
two_deliveries = open_delivery ∷ second_delivery ∷ []

receive-send_all_example : receive 0 2 (send_all two_machines two_deliveries) bob ≡ two_deliveries
unfolding get is_partitioned contains Address-discrete EndpointId-discrete ActorName-discrete
    Hex-discrete Text-discrete ℕ_discrete
receive-send_all_example =
    receive-send_all 0 two_deliveries two_machines bob (record { queue = []; waker = none }) refl
      ((refl, refl), ((refl, refl), tt))

heal-partition_example :
    let healed =
      heal
        (send_all (partition two_machines endpoint_a endpoint_b) two_deliveries)
        endpoint_a
        endpoint_b in
    (healed.mailboxes ≡ (send_all two_machines two_deliveries).mailboxes)
    × (healed.woken ≡ (send_all two_machines two_deliveries).woken)
unfolding is_partitioned contains is_between Address-discrete EndpointId-discrete ActorName-discrete
    Hex-discrete Text-discrete ℕ_discrete
heal-partition_example =
    heal-partition two_machines endpoint_a endpoint_b two_deliveries (refl, refl) tt
      (refl, (refl, tt))

-- The network after task 7 has found bob's mailbox empty.
abbrev bob_waits : Shared
bob_waits = record two_machines {
  mailboxes =
      (alice, record { queue = []; waker = none })
      ∷ (bob, record { queue = []; waker = some 7 })
      ∷ [];
}

pending_then_woken_example :
    let sent = send_delivery bob_waits open_delivery in
    (sent.woken ≡ 7 ∷ []) × ((poll_next 7 sent bob).1 ≡ ready (some open_delivery))
unfolding poll_next get insert is_partitioned contains Address-discrete EndpointId-discrete
    ActorName-discrete Hex-discrete Text-discrete ℕ_discrete
pending_then_woken_example =
    pending_then_woken 7 two_machines open_delivery {n' = bob_waits} refl refl

open_many_blind_example :
    open_many two_machines alice endpoint_b
      (keep
        (λ name. is_bound two_machines (at_endpoint endpoint_b name))
        (bob.name ∷ carol.name ∷ []))
      (asking_with 1)
    ≡ open_many two_machines alice endpoint_b (bob.name ∷ carol.name ∷ []) (asking_with 1)
unfolding is_partitioned contains
open_many_blind_example =
    open_many_blind two_machines alice endpoint_b (bob.name ∷ carol.name ∷ []) (asking_with 1) refl
