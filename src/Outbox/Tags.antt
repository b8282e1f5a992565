-- ===== src/Outbox/Tags.antt =====
-- packages/federation/src/activity-delivery/queue.ts: the delivery that an enqueued message names.
use drfed.Common.{Bool, true, false, ◌&&◌, Option, none, some, if◌then◌else◌}
use drfed.Common.Text.{same_codes}
use drfed.Revision.{Uuid}
use drfed.Delivery.{Text}
use drfed.Outbox.{QueuedAttempt, is_url}

-- `Delivery` of queue.ts, a delivery being run.
pub record Running : Type 0 where
  pub delivery_id : Uuid
  pub inbox_url : Text
  pub enqueued : Bool

pub record Reception : Type 0 where
  pub activity_iri : Option Text
  pub delivery_id : Uuid

-- The stores of the async contexts that a message is enqueued in, and `tracking()?.inboundDeliveryId`.
pub record Contexts : Type 0 where
  pub delivery : Option Running
  pub attempt : Option QueuedAttempt
  pub reception : Option Reception
  pub inbound_delivery_id : Option Uuid

pub data Message : Type 0 where
  outbox : Option Text → Text → Message
  inbox : Option Text → Message
  other : Message

abbrev pub same_iri : Option Text → Option Text → Bool
same_iri none none = true
same_iri (some a) (some b) = same_codes a b
same_iri _ _ = false

abbrev pub of_attempt : Option QueuedAttempt → Option Text → Text → Option Uuid
of_attempt none iri url = none
of_attempt (some a) iri url =
    if is_url iri a.activity_iri && same_codes url a.inbox_url then a.delivery_id else none

abbrev pub of_reception : Option Reception → Option Text → Option Uuid → Option Uuid
of_reception none iri tracked = tracked
of_reception (some r) iri tracked = if same_iri iri r.activity_iri then some r.delivery_id else none

abbrev pub of_running :
    Contexts → Option Running → Option Text → Text → Option Uuid × Option Running
of_running c none iri url = (of_attempt c.attempt iri url, none)
of_running c (some d) iri url =
    if same_codes url d.inbox_url
    then (some d.delivery_id, some (record d { enqueued = true }))
    else (of_attempt c.attempt iri url, some d)

-- `deliveryOf`, with the running delivery, which notes that a message was enqueued for it.
unfoldable pub delivery_of : Contexts → Message → Option Uuid × Option Running
delivery_of c (outbox iri url) = of_running c c.delivery iri url
delivery_of c (inbox iri) = (of_reception c.reception iri c.inbound_delivery_id, c.delivery)
delivery_of c other = (none, c.delivery)
