-- ===== src/App/Runtime/Invariant.antt =====
-- crates/kamiroh-app/src/runtime.rs: when the waits of every conversation fit its machine, and
-- what a method has to keep.
use kamiroh.Domain.TurnState.{on_incoming, on_outgoing, fail}
use kamiroh.Common.Assoc.{
  get, modify, AllEntries, AllEntries-get, AllEntries-insert, AllEntries-modify,
}
use kamiroh.App.Runtime.{
  ◌>>=◌, LocalActor, LocalRuntime, M, PeerState, pure, RuntimeError, actor_at, write_actor,
  no_exchange_yet,
}
use kamiroh.Domain.Address.{Address-discrete, ActorName-discrete, ActorName, Address}
use kamiroh.Common.{ok, err, inl, inr, List, Result, arith, ◌≡◌, Option-cases, ite, ℕ}
use kamiroh.App.Runtime.Turns.{hear_turn, speak_turn}
use kamiroh.App.Runtime.Step.{settle_ack}
use kamiroh.App.Runtime.Manage.{failed_peer}
use kamiroh.App.Armed.{Armed}
use kamiroh.Domain.Vocabulary.{Ack, Turn, request_of}
use kamiroh.App.Parties.{entry_or, put}
use kamiroh.Domain.Deadline.{Deadlines}

abbrev pub PeerArmed : PeerState → Type 0
PeerArmed ps = Armed ps.state ps.ack_due ps.turn_due

abbrev pub AllArmed : List (Address × PeerState) → Type 0
AllArmed = AllEntries (λ peer ps. PeerArmed ps)

pub hear_turn-PeerArmed : (ps : PeerState) (t : Turn) → PeerArmed ps → PeerArmed (hear_turn ps t).0
unfolding hear_turn on_incoming
hear_turn-PeerArmed ps t h = ground arith

pub speak_turn-PeerArmed :
    (d : Deadlines) (now : ℕ) (ps : PeerState) (t : Turn)
    → PeerArmed ps
    → PeerArmed (speak_turn d now ps t).0
unfolding speak_turn on_outgoing request_of
speak_turn-PeerArmed d now ps t h = ground arith

pub settle_ack-PeerArmed : (a : Ack) (ps : PeerState) → PeerArmed ps → PeerArmed (settle_ack a ps)
unfolding settle_ack
settle_ack-PeerArmed a ps h = ground arith

pub failed_peer-PeerArmed : (ps : PeerState) → PeerArmed ps → PeerArmed (failed_peer ps)
unfolding failed_peer fail
failed_peer-PeerArmed ps h = ground arith

-- A change of one entry that keeps the property.
pub modify-AllArmed :
    (peer : Address) (f : PeerState → PeerState) (m : List (Address × PeerState))
    → ((ps : PeerState) → PeerArmed ps → PeerArmed (f ps))
    → AllArmed m
    → AllArmed (modify Address-discrete peer f m)
modify-AllArmed peer f m keeps h =
    AllEntries-modify Address-discrete (λ _ ps. PeerArmed ps) (λ _ ps. PeerArmed ps) peer f m
      (λ j ps k. if_both j ps k (Address-discrete j peer)) h
  where
    if_both :
        (j : Address) (ps : PeerState)
        → PeerArmed ps
        → (x : Dec (j ≡ peer)) → PeerArmed (ite x (f ps) ps)
    if_both j ps k (yes e) = keeps ps k
    if_both j ps k (no e) = k

pub peer_state-PeerArmed :
    (peer : Address) (m : List (Address × PeerState))
    → AllArmed m
    → PeerArmed (entry_or peer no_exchange_yet m)
peer_state-PeerArmed peer m h = elim (Option-cases (get Address-discrete peer m)) [
  | inl e ↦ rw (e, entry_or) tt
  | inr (ps, e) ↦ rw (e, entry_or) (AllEntries-get Address-discrete (λ _ x. PeerArmed x) peer m h e)
]

pub put-AllArmed :
    (peer : Address) (ps : PeerState) (m : List (Address × PeerState))
    → PeerArmed ps
    → AllArmed m
    → AllArmed (put peer ps m)
put-AllArmed peer ps m k h = AllEntries-insert Address-discrete (λ _ x. PeerArmed x) peer ps m k h

abbrev pub Post : {A : Type 0} → (A → Type 0) → Result A RuntimeError → Type 0
Post Q (ok a) = Q a
Post Q (err e) = Unit

abbrev pub Anything : {A : Type 0} → A → Type 0
Anything a = Unit

module _ {P : Type 0} where
  abbrev pub ActorArmed : LocalActor P → Type 0
  ActorArmed a = AllArmed a.conversations

module _ {S P : Type 0} where
  abbrev pub RuntimeArmed : LocalRuntime S P → Type 0
  RuntimeArmed r = AllEntries (λ name a. ActorArmed a) r.actors

  -- A method keeps the invariant, and a result that it returns has a property.
  pub record Keeps {A : Type 0} (m : M S P A) (Q : A → Type 0) : Type 0 where
    pub at : (r : LocalRuntime S P) → RuntimeArmed r → RuntimeArmed (m r).0 × Post Q (m r).1

  bind-Post :
      {A B : Type 0} (f : A → M S P B) (Q : A → Type 0) (R : B → Type 0)
      (x : LocalRuntime S P × Result A RuntimeError)
      → RuntimeArmed x.0 × Post Q x.1
      → ((a : A) → Q a → Keeps (f a) R)
      → let (r', result) = x in
        let y : LocalRuntime S P × Result B RuntimeError = elim result [
          | ok a ↦ f a r'
          | err e ↦ (r', err e)
        ] in
        RuntimeArmed y.0 × Post R y.1
  bind-Post f Q R (r', ok a) h k = (k a h.1).at r' h.0
  bind-Post f Q R (r', err e) h k = (h.0, tt)

  pub >>=-Keeps :
      {A B : Type 0} {m : M S P A} {f : A → M S P B} {Q : A → Type 0} {R : B → Type 0}
      → Keeps m Q
      → ((a : A) → Q a → Keeps (f a) R)
      → Keeps (m >>= f) R
  >>=-Keeps {m} {f} {Q} {R} h k = record { at = λ r i. bind-Post f Q R (m r) (h.at r i) k }

  pub pure-Keeps : {A : Type 0} (a : A) (Q : A → Type 0) → Q a → Keeps (pure a) Q
  pure-Keeps a Q q = record { at = λ r i. (i, q) }

  pub actor_at-Keeps : (name : ActorName) → Keeps (actor_at name) ActorArmed
  actor_at-Keeps name = record {
    at = λ r i. elim (Option-cases (get ActorName-discrete name r.actors)) [
      | inl e ↦ rw (e, actor_at) (i, tt)
      | inr (a, e) ↦
          rw (e, actor_at)
            (i, AllEntries-get ActorName-discrete (λ _ x. ActorArmed x) name r.actors i e)
    ];
  }

  pub write_actor-Keeps :
      (name : ActorName) (a : LocalActor P) → ActorArmed a → Keeps (write_actor name a) Anything
  write_actor-Keeps name a k = record {
    at =
        λ r i. (AllEntries-insert ActorName-discrete (λ _ x. ActorArmed x) name a r.actors k i, tt);
  }
