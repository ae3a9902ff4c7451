-- ===== src/Iroh/Registered.antt =====
-- crates/kamiroh-adapter-iroh/src/lib.rs: who holds a name.
use kamiroh.Common.{refl, ap, ok, err, true, false, ◌∙◌, not}
use kamiroh.Iroh.Errors.{name_in_use}
use kamiroh.Iroh.Shared.{Shared}
use kamiroh.Iroh.Net.{bind, drop_inbox, is_bound}
use kamiroh.Common.{ok, err, false, ◌≡◌, arith}
use kamiroh.Iroh.External.{External}
use kamiroh.Domain.Address.{Address, ActorName, ActorName-discrete}
use kamiroh.Iroh.Laws.{Queues, ChannelLaws}
use kamiroh.Common.Assoc.{get-insert_self, insert}

module _ (E : External) where
  -- The state once a new channel is bound to a name.
  abbrev held : Shared E → ActorName → Shared E
  held s name = record s {
    channels = (E.unbounded_channel s.channels).0;
    bound = insert ActorName-discrete name (E.unbounded_channel s.channels).1 s.bound;
  }

  bind_free :
      (s : Shared E) (a : Address)
      → a.endpoint ≡ s.endpoint_id
      → is_bound E s a.name ≡ false
      → bind E s a ≡ (held s a.name, ok (E.unbounded_channel s.channels).1)
  unfolding bind
  bind_free s a here free = ground (arith, here, free)

  bind_taken :
      (s : Shared E) (a : Address)
      → a.endpoint ≡ s.endpoint_id
      → is_bound E s a.name ≡ true
      → bind E s a ≡ (s, err name_in_use)
  unfolding bind
  bind_taken s a here taken = ground (arith, here, taken)

  -- Whether a name that was bound last is taken: whether its channel is open.
  is_bound-held :
      (s : Shared E) (name : ActorName) (k : E.Channels)
      → is_bound E (record (held s name) { channels = k }) name
        ≡ not (E.is_closed k (E.unbounded_channel s.channels).1)
  unfolding is_bound
  is_bound-held s name k =
      rw
        (
          get-insert_self ActorName-discrete name (E.unbounded_channel s.channels).1 s.bound,
          is_bound,
        )
        refl

  -- When channels are open until their receiver is dropped: a name that no open channel holds can
  -- be bound at this endpoint; from then on it cannot be bound again, until the inbox is dropped,
  -- and can be bound again after that.
  pub bind-drop_inbox :
      (queues : Queues E) (laws : ChannelLaws E queues) (s : Shared E) (a : Address)
      → a.endpoint ≡ s.endpoint_id
      → is_bound E s a.name ≡ false
      → let c = (E.unbounded_channel s.channels).1 in
        let s' = (bind E s a).0 in
        ((bind E s a).1 ≡ ok c)
        × (bind E s' a ≡ (s', err name_in_use))
        × ((bind E (drop_inbox E s' c) a).1
            ≡ ok (E.unbounded_channel (E.drop_receiver s'.channels c)).1)
  unfolding drop_inbox
  bind-drop_inbox queues laws s a here free =
      let c = (E.unbounded_channel s.channels).1 in
      let t = held s a.name in
      let k = E.drop_receiver t.channels c in
      let taken : is_bound E t a.name ≡ true =
        is_bound-held s a.name t.channels ∙ ap not (laws.new_open s.channels) in
      let free_again : is_bound E (record t { channels = k }) a.name ≡ false =
        is_bound-held s a.name k ∙ ap not (laws.dropped t.channels c) in
      rw (bind_free s a here free) (
        refl,
        bind_taken t a here taken,
        ap (λ x. x.1) (bind_free (record t { channels = k }) a here free_again),
      )
