-- ===== src/Router.antt =====
-- pubsub/publisher.go and pubsub/router.go: the subscribers of an event topic, and the routing of events to
-- them. A websocket connection is a number; whether a write to it succeeds is an argument.
pub mod Slots
pub mod Delivery
mod Examples
use go_norn.Prelude.{
  ℕ, zero, suc, ◌+◌, ◌-◌, Bool, true, false, ◌||◌, Option, none, some, List, [], ◌∷◌, ◌++◌, leb,
  ltb, ◌==◌, if◌then◌else◌, length, replicate, set,
}
use go_norn.Prelude.Bytes.{Bytes, bytes_eq}
use go_norn.Prelude.Outcome.{Outcome, done, panicked, blocked}

abbrev pub conn_pool_size : ℕ
conn_pool_size = 128

abbrev pub Conn : Type 0
Conn = ℕ

pub record EventPublisher : Type 0 where
  pub conns : List (Option Conn)
  pub count : ℕ

-- CreateNewEventPublisher
abbrev pub create_new_event_publisher : EventPublisher
create_new_event_publisher = record { conns = replicate conn_pool_size none; count = 0 }

-- Full
abbrev pub full : EventPublisher → Bool
full e = leb conn_pool_size e.count

-- The loop of Publish: the connections after it, the counter, and those that the data reached.
unfoldable pub publish_loop :
    (Conn → Bool) → List (Option Conn) → ℕ → List (Option Conn) × ℕ × List Conn
publish_loop write [] count = ([], count, [])
publish_loop write (none ∷ conns) count =
    let rest = publish_loop write conns count in (none ∷ rest.0, rest.1, rest.2)
publish_loop write (some c ∷ conns) count =
    let rest = publish_loop write conns (if write c then count else count - 1) in
    if write c then (some c ∷ rest.0, rest.1, c ∷ rest.2) else (none ∷ rest.0, rest.1, rest.2)

-- Publish
unfoldable pub publish : (Conn → Bool) → EventPublisher → EventPublisher × List Conn
unfolding publish_loop
publish write e =
    let r = publish_loop write e.conns e.count in (record { conns = r.0; count = r.1 }, r.2)

-- SelectPosition; none stands for -1.
unfoldable pub select_position : List (Option Conn) → Option ℕ
select_position [] = none
select_position (none ∷ conns) = some 0
select_position (some c ∷ conns) = elim (select_position conns) [
  | none ↦ none
  | some i ↦ some (suc i)
]

put : EventPublisher → Conn → Option ℕ → EventPublisher
put e conn none = e
put e conn (some pos) = record { conns = set e.conns pos (some conn); count = e.count + 1 }

-- AppendNewConnection
unfoldable pub append_new_connection : EventPublisher → Conn → EventPublisher
unfolding put select_position
append_new_connection e conn = put e conn (select_position e.conns)

-- EventRouter.publishMap
abbrev pub EventRouter : Type 0
EventRouter = Bytes → Option EventPublisher

-- toTopicStr
abbrev pub to_topic_str : Bytes → Bytes → Bytes
to_topic_str address event_type = address ++ b'#' ∷ event_type

publisher_of : Option EventPublisher → EventPublisher
publisher_of none = create_new_event_publisher
publisher_of (some e) = e

empty_text : Bytes → Bool
empty_text [] = true
empty_text (b ∷ bs) = false

abbrev pub put_topic : EventRouter → Bytes → EventPublisher → EventRouter
put_topic router topic e t = if bytes_eq topic t then some e else router t

-- HandleConnect, from the request that came over an upgraded connection: the router, and whether the
-- connection is kept.
unfoldable pub handle_connect : EventRouter → Bytes → Bytes → Conn → EventRouter × Bool
unfolding append_new_connection publisher_of empty_text
handle_connect router address event_type conn =
    let topic = to_topic_str address event_type in
    let e = publisher_of (router topic) in
    if empty_text address || empty_text event_type
    then (router, false)
    else if full e
    then (put_topic router topic e, false)
    else (put_topic router topic (append_new_connection e conn), true)

-- What json.Unmarshal makes of the first message.
pub record EventRequest : Type 0 where
  pub address : Bytes
  pub event_type : Bytes

-- DeserializeEventRequest, over json.Unmarshal, which may fail.
abbrev pub deserialize_event_request : (Bytes → Option EventRequest) → Bytes → Option EventRequest
deserialize_event_request unmarshal text = unmarshal text

subscribe : EventRouter → Option EventRequest → Conn → EventRouter × Bool
unfolding handle_connect
subscribe router none conn = (router, false)
subscribe router (some request) conn = handle_connect router request.address request.event_type conn

-- HandleConnect: the connection that Upgrade returns, nil beside an error, and the first message that comes over it,
-- which is empty if it cannot be read.
unfoldable pub handle_upgrade :
    (Bytes → Option EventRequest) → EventRouter → Option Conn → Bytes → Outcome (EventRouter × Bool)
unfolding subscribe
handle_upgrade unmarshal router none message = panicked
handle_upgrade unmarshal router (some conn) message =
    done (subscribe router (deserialize_event_request unmarshal message) conn)

publish_to : (Conn → Bool) → EventRouter → Bytes → Option EventPublisher → EventRouter × List Conn
unfolding publish
publish_to write router topic none = (router, [])
publish_to write router topic (some e) =
    let r = publish write e in (put_topic router topic r.0, r.1)

-- Process, for one event; its data is text, so json.Marshal does not fail.
unfoldable pub process : (Conn → Bool) → EventRouter → Bytes → Bytes → EventRouter × List Conn
unfolding publish_to
process write router address event_type =
    publish_to write router (to_topic_str address event_type)
      (router (to_topic_str address event_type))

-- CreateNewEventRouter makes the map and the channel, of this capacity.
abbrev pub publish_chan_cap : ℕ
publish_chan_cap = 256

abbrev pub create_new_event_router : EventRouter
create_new_event_router topic = none

-- AppendEvent: a send to a full channel blocks.
abbrev pub append_event : {E : Type 0} → List E → E → Outcome (List E)
append_event publish_chan event =
    if ltb (length publish_chan) publish_chan_cap
    then done (publish_chan ++ event ∷ [])
    else blocked
