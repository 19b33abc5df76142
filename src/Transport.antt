-- ===== src/Transport.antt =====
-- The in-memory transport of src/acmp/transport.py: a pair of queues, where `None` tells that the
-- other end has closed.
pub mod Calls
pub mod Fifo
use sdk_reference.Prelude.{
  Bool, true, false, Option, none, some, List, [], ◌∷◌, ◌++◌, if◌then◌else◌,
}
use sdk_reference.Json.{Object}

pub record Endpoint : Type 0 where
  pub inbound : List (Option Object)
  pub outbound : List (Option Object)
  pub closed : Bool

-- The answer of a call: it returns, raises `TransportClosed`, or waits for the queue to fill.
pub data Answer (A : Type 0) : Type 0 where
  returns : A → Answer A
  transport_closed : Answer A
  waits : Answer A

unfoldable pub send : Object → Endpoint → Answer (Unit {0}) × Endpoint
send message e =
    if e.closed
    then (transport_closed, e)
    else (returns tt, record e { outbound = e.outbound ++ some message ∷ [] })

abbrev pub receive_from : List (Option Object) → Endpoint → Answer Object × Endpoint
receive_from [] e = (waits, e)
receive_from (none ∷ rest) e = (transport_closed, record e { inbound = rest })
receive_from (some message ∷ rest) e = (returns message, record e { inbound = rest })

unfoldable pub receive : Endpoint → Answer Object × Endpoint
receive e = receive_from e.inbound e

unfoldable pub close : Endpoint → Endpoint
close e = if e.closed then e else record e { outbound = e.outbound ++ none ∷ []; closed = true }

-- The two ends: what goes out of one comes in at the other.
pub record Wire : Type 0 where
  pub a_to_b : List (Option Object)
  pub b_to_a : List (Option Object)
  pub a_closed : Bool
  pub b_closed : Bool

abbrev pub create_pair : Wire
create_pair = record { a_to_b = []; b_to_a = []; a_closed = false; b_closed = false }

abbrev pub buyer_end : Wire → Endpoint
buyer_end w = record { inbound = w.b_to_a; outbound = w.a_to_b; closed = w.a_closed }

abbrev pub provider_end : Wire → Endpoint
provider_end w = record { inbound = w.a_to_b; outbound = w.b_to_a; closed = w.b_closed }

-- What an operation of one end makes of the pair.
abbrev pub with_buyer : Endpoint → Wire → Wire
with_buyer e w = record w { b_to_a = e.inbound; a_to_b = e.outbound; a_closed = e.closed }

abbrev pub with_provider : Endpoint → Wire → Wire
with_provider e w = record w { a_to_b = e.inbound; b_to_a = e.outbound; b_closed = e.closed }
