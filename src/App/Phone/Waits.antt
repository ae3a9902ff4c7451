-- ===== src/App/Phone/Waits.antt =====
-- crates/kamiroh-app/src/phone.rs: runs of calls on a phone, and its waits.
use kamiroh.App.Phone.{
  on_incoming, Phone, note_ack, on_deadline_elapsed, on_peer_death, on_revoked, send_turn, converse,
  next_due,
}
use kamiroh.Domain.TurnState.{on_incoming as turn_in, on_outgoing, fail, awaiting_their_turn}
use kamiroh.Common.{[], ◌∷◌, arith, true, is_some, ◌≡◌, ◌↔◌, List}
use kamiroh.App.Armed.{Armed}
use kamiroh.Ports.{Transport, Timer}
use kamiroh.Domain.Vocabulary.{Turn, Ack, request_of, RequestId}
use kamiroh.Domain.Address.{EndpointId, Address}
use kamiroh.Domain.Deadline.{Deadlines}

abbrev pub PhoneArmed : Phone → Type 0
PhoneArmed p = Armed p.state p.ack_due p.turn_due

-- Whatever an application can do with a phone, and what its pump reports to it.
pub data PhoneCall : Type 0 where
  send_call : Turn → PhoneCall
  incoming_call : Turn → PhoneCall
  ack_call : Ack → PhoneCall
  deadline_call : PhoneCall
  death_call revoked_call : EndpointId → PhoneCall

module _ {S : Type 0} (net : Transport S) (timer : Timer S) where
  unfoldable pub phone_call : S → Phone → PhoneCall → S × Phone
  phone_call w p (send_call t) = let (w', p', result) = send_turn net timer w p t in (w', p')
  phone_call w p (incoming_call t) = (w, (on_incoming p t).0)
  phone_call w p (ack_call a) = (w, (note_ack p a).0)
  phone_call w p deadline_call = (w, (on_deadline_elapsed p).0)
  phone_call w p (death_call e) = (w, (on_peer_death p e).0)
  phone_call w p (revoked_call e) = (w, (on_revoked p e).0)

  unfoldable pub phone_calls : S → Phone → List PhoneCall → S × Phone
  phone_calls w p [] = (w, p)
  phone_calls w p (x ∷ xs) = let (w', p') = phone_call w p x in phone_calls w' p' xs

  send_turn-PhoneArmed :
      (w : S) (p : Phone) (t : Turn) → PhoneArmed p → PhoneArmed (send_turn net timer w p t).1
  unfolding send_turn on_outgoing fail request_of
  send_turn-PhoneArmed w p t h = ground arith

on_incoming-PhoneArmed : (p : Phone) (t : Turn) → PhoneArmed p → PhoneArmed (on_incoming p t).0
unfolding on_incoming turn_in
on_incoming-PhoneArmed p t h = ground arith

note_ack-PhoneArmed : (p : Phone) (a : Ack) → PhoneArmed p → PhoneArmed (note_ack p a).0
unfolding note_ack
note_ack-PhoneArmed p a h = ground arith

on_deadline_elapsed-PhoneArmed : (p : Phone) → PhoneArmed p → PhoneArmed (on_deadline_elapsed p).0
unfolding on_deadline_elapsed fail
on_deadline_elapsed-PhoneArmed p h = ground arith

on_peer_death-PhoneArmed :
    (p : Phone) (e : EndpointId) → PhoneArmed p → PhoneArmed (on_peer_death p e).0
unfolding on_peer_death fail
on_peer_death-PhoneArmed p e h = ground arith

on_revoked-PhoneArmed : (p : Phone) (e : EndpointId) → PhoneArmed p → PhoneArmed (on_revoked p e).0
unfolding on_revoked fail
on_revoked-PhoneArmed p e h = ground arith

module _ {S : Type 0} (net : Transport S) (timer : Timer S) where
  phone_call-PhoneArmed :
      (w : S) (p : Phone) (x : PhoneCall) → PhoneArmed p → PhoneArmed (phone_call net timer w p x).1
  unfolding phone_call
  phone_call-PhoneArmed w p (send_call t) h = send_turn-PhoneArmed net timer w p t h
  phone_call-PhoneArmed w p (incoming_call t) h = on_incoming-PhoneArmed p t h
  phone_call-PhoneArmed w p (ack_call a) h = note_ack-PhoneArmed p a h
  phone_call-PhoneArmed w p deadline_call h = on_deadline_elapsed-PhoneArmed p h
  phone_call-PhoneArmed w p (death_call e) h = on_peer_death-PhoneArmed p e h
  phone_call-PhoneArmed w p (revoked_call e) h = on_revoked-PhoneArmed p e h

  -- A phone whose waits fit its machine keeps them so through any calls of the application and
  -- any reports of its pump, over any transport, refused sends and turns included: the deadline
  -- of the peer's turn is armed exactly while that turn is awaited, and an ack waited for is that
  -- of the outstanding request.
  pub phone_calls-PhoneArmed :
      (w : S) (p : Phone) (xs : List PhoneCall)
      → PhoneArmed p
      → PhoneArmed (phone_calls net timer w p xs).1
  unfolding phone_calls
  phone_calls-PhoneArmed w p [] h = h
  phone_calls-PhoneArmed w p (x ∷ xs) h =
      let (w', p') = phone_call net timer w p x in
      phone_calls-PhoneArmed w' p' xs (phone_call-PhoneArmed w p x h)

  next_due-PhoneArmed :
      (p : Phone)
      → PhoneArmed p
      → (is_some (next_due p) ≡ true) ↔ ((o : RequestId) × (p.state ≡ awaiting_their_turn o))
  unfolding next_due
  next_due-PhoneArmed p h = (λ k. ground arith, λ k. ground arith)

  -- A phone never waits without a deadline and never has a deadline without waiting: after any
  -- calls and reports on a new phone a deadline is pending exactly when the peer's turn is awaited.
  pub next_due_iff_awaiting :
      (w : S) (me peer : Address) (d : Deadlines) (xs : List PhoneCall)
      → let p = (phone_calls net timer w (converse me peer d) xs).1 in
        (is_some (next_due p) ≡ true) ↔ ((o : RequestId) × (p.state ≡ awaiting_their_turn o))
  unfolding converse
  next_due_iff_awaiting w me peer d xs =
      next_due-PhoneArmed _ (phone_calls-PhoneArmed w (converse me peer d) xs tt)
