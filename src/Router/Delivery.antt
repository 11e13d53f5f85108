-- ===== src/Router/Delivery.antt =====
-- An event reaches those who subscribed to its topic.
use go_norn.Prelude.{
  ◌≡◌, refl, sym, ap, ◌∙◌, subst, Bool, true, false, ◌||◌, Option, none, some, List, [], ◌∷◌, ◌++◌,
  Bool-cases, inl, inr,
}
use mathlib.Core.List.{Mem, mem-cons_self, mem-cons_of_mem}
use go_norn.Prelude.Bytes.{Bytes, bytes_eq, bytes_eq_refl}
use go_norn.Router.{
  Conn, EventPublisher, EventRouter, publish, append_new_connection, to_topic_str, publisher_of,
  empty_text, put_topic, handle_connect, publish_to, process, full,
}
use go_norn.Router.Slots.{
  IsValid, reached, publish-IsValid, append_new_connection-IsValid,
  create_new_event_publisher-IsValid,
}

-- Every publisher of the router is valid.
abbrev pub RouterIsValid : EventRouter → Type 0
RouterIsValid router = (topic : Bytes) (e : EventPublisher) → router topic ≡ some e → IsValid e

put_topic-IsValid :
    (router : EventRouter) (topic : Bytes) (e : EventPublisher)
    → RouterIsValid router
    → IsValid e
    → RouterIsValid (put_topic router topic e)
put_topic-IsValid router topic e valid v t f h = elim (Bool-cases (bytes_eq topic t)) [
  | inl same ↦ let is_e : e ≡ f = cc (rw same at h) in subst IsValid is_e v
  | inr other ↦ valid t f (rw other at h)
]

publisher_of-IsValid :
    (router : EventRouter) (topic : Bytes) (o : Option EventPublisher)
    → RouterIsValid router
    → router topic ≡ o
    → IsValid (publisher_of o)
unfolding publisher_of
publisher_of-IsValid router topic none valid h = create_new_event_publisher-IsValid
publisher_of-IsValid router topic (some e) valid h = valid topic e h

-- Handling a connection keeps every publisher valid.
pub handle_connect-IsValid :
    (router : EventRouter) (address event_type : Bytes) (conn : Conn)
    → RouterIsValid router
    → RouterIsValid (handle_connect router address event_type conn).0
unfolding handle_connect
handle_connect-IsValid router address event_type conn valid =
    let topic = to_topic_str address event_type in
    let v = publisher_of-IsValid router topic (router topic) valid refl in
    elim (Bool-cases (empty_text address || empty_text event_type)) [
      | inl e ↦ rw e valid
      | inr e ↦ elim (Bool-cases (full (publisher_of (router topic)))) [
        | inl f ↦ rw (e, f) (put_topic-IsValid router topic (publisher_of (router topic)) valid v)
        | inr f ↦
            rw (e, f)
              (put_topic-IsValid router topic
                (append_new_connection (publisher_of (router topic)) conn) valid
                (append_new_connection-IsValid (publisher_of (router topic)) conn v f).0)
      ]
    ]

publish_to-IsValid :
    (write : Conn → Bool) (router : EventRouter) (topic : Bytes) (o : Option EventPublisher)
    → RouterIsValid router
    → router topic ≡ o
    → RouterIsValid (publish_to write router topic o).0
unfolding publish_to
publish_to-IsValid write router topic none valid h = valid
publish_to-IsValid write router topic (some e) valid h =
    put_topic-IsValid router topic (publish write e).0 valid
      (publish-IsValid write e (valid topic e h)).0

-- Handling an event keeps every publisher valid.
pub process-IsValid :
    (write : Conn → Bool) (router : EventRouter) (address event_type : Bytes)
    → RouterIsValid router
    → RouterIsValid (process write router address event_type).0
unfolding process
process-IsValid write router address event_type valid =
    publish_to-IsValid write router (to_topic_str address event_type)
      (router (to_topic_str address event_type)) valid refl

Mem-reached :
    (write : Conn → Bool) (c : Conn) (before after : List Conn)
    → write c ≡ true
    → Mem c (reached write (before ++ c ∷ after))
unfolding reached
Mem-reached write c [] after ok = rw ok mem-cons_self
Mem-reached write c (b ∷ before) after ok = elim (Bool-cases (write b)) [
  | inl h ↦ rw h (mem-cons_of_mem b (Mem-reached write c before after ok))
  | inr h ↦ rw h (Mem-reached write c before after ok)
]

process-topic :
    (write : Conn → Bool) (router : EventRouter) (address event_type : Bytes) (e : EventPublisher)
    → router (to_topic_str address event_type) ≡ some e
    → (process write router address event_type).1 ≡ (publish write e).1
unfolding process publish_to
process-topic write router address event_type e h =
    ap (λ o. (publish_to write router (to_topic_str address event_type) o).1) h

kept_at_topic :
    (router : EventRouter) (address event_type : Bytes) (conn : Conn)
    → (handle_connect router address event_type conn).1 ≡ true
    → let e = publisher_of (router (to_topic_str address event_type)) in
      (full e ≡ false)
      × ((handle_connect router address event_type conn).0 (to_topic_str address event_type)
          ≡ some (append_new_connection e conn))
unfolding handle_connect
kept_at_topic router address event_type conn kept =
    let topic = to_topic_str address event_type in
    elim (Bool-cases (empty_text address || empty_text event_type)) [
      | inl e ↦ cc (rw e at kept)
      | inr e ↦ elim (Bool-cases (full (publisher_of (router topic)))) [
        | inl f ↦ cc (rw (e, f) at kept)
        | inr f ↦ (f, rw (e, f, bytes_eq_refl topic) refl)
      ]
    ]

-- A connection that HandleConnect keeps for an address and an event type is among those that the next event of
-- this address and type reaches, provided that the write to it succeeds; the router stays valid.
pub handle_connect-process :
    (write : Conn → Bool) (router : EventRouter) (address event_type : Bytes) (conn : Conn)
    → RouterIsValid router
    → (handle_connect router address event_type conn).1 ≡ true
    → write conn ≡ true
    → Mem conn
        (process write (handle_connect router address event_type conn).0 address event_type).1
      × RouterIsValid
          (process write (handle_connect router address event_type conn).0 address event_type).0
handle_connect-process write router address event_type conn valid kept ok =
    let topic = to_topic_str address event_type in
    let after = (handle_connect router address event_type conn).0 in
    let e = publisher_of (router topic) in
    let k = kept_at_topic router address event_type conn kept in
    let v =
      append_new_connection-IsValid e conn
        (publisher_of-IsValid router topic (router topic) valid refl) k.0 in
    let ins = v.1 in
    let sent : (process write after address event_type).1
        ≡ reached write (ins.before ++ conn ∷ ins.after) =
      process-topic write after address event_type (append_new_connection e conn) k.1
      ∙ (publish-IsValid write (append_new_connection e conn) v.0).2
      ∙ ap (reached write) ins.new in
    (
      subst (λ l. Mem conn l) (sym sent) (Mem-reached write conn ins.before ins.after ok),
      process-IsValid write after address event_type
          (handle_connect-IsValid router address event_type conn valid),
    )
