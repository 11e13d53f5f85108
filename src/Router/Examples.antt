-- ===== src/Router/Examples.antt =====
-- A router without topics, and connections to it.
use go_norn.Prelude.{ℕ, ◌≡◌, refl, Bool, true, false, Option, none, some, List, [], ◌∷◌, ◌==◌, not}
use mathlib.Core.List.{Mem}
use go_norn.Prelude.Bytes.{Bytes}
use go_norn.Router.{
  Conn, EventPublisher, EventRouter, create_new_event_publisher, append_new_connection,
  handle_connect, process,
}
use go_norn.Router.Slots.{
  IsValid, append_new_connection-IsValid, create_new_event_publisher-IsValid,
}
use go_norn.Router.Delivery.{RouterIsValid, handle_connect-process}

abbrev no_topics : EventRouter
no_topics topic = none

no_topics-IsValid : RouterIsValid no_topics
no_topics-IsValid topic e h = cc h

abbrev address : Bytes
address = 97 ∷ []

abbrev event_type : Bytes
event_type = 98 ∷ []

abbrev write : Conn → Bool
write c = not (c == 7)

abbrev subscribed : EventRouter
subscribed =
    (handle_connect (handle_connect no_topics address event_type 7).0 address event_type 8).0

delivered : (process write subscribed address event_type).1 ≡ 8 ∷ []
unfolding process handle_connect go_norn.Prelude.Bytes.bytes_eq
delivered = refl

kept : (handle_connect no_topics address event_type 8).1 ≡ true
unfolding handle_connect
kept = refl

handle_connect-process_example :
    Mem 8 (process write (handle_connect no_topics address event_type 8).0 address event_type).1
    × RouterIsValid
        (process write (handle_connect no_topics address event_type 8).0 address event_type).0
handle_connect-process_example =
    handle_connect-process write no_topics address event_type 8 no_topics-IsValid kept refl

abbrev one_live : EventPublisher
one_live = append_new_connection create_new_event_publisher 7

one_live-IsValid : IsValid one_live
one_live-IsValid =
    (append_new_connection-IsValid create_new_event_publisher 7 create_new_event_publisher-IsValid
      refl).0
