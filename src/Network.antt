-- ===== src/Network.antt =====
-- Cells and a node together: what a client of node/client.py sends, the node of node/transport.py,
-- node/node.py and node/router.py that gets it, and the client that the node passes it on to.
pub mod Delivery
pub mod Forwarding
use zki_nevod.Host.{Host}
use zki_nevod.Client.{Client}

-- a client that works with the codec and the primitives of the node
abbrev pub joined : Host → Client → Client
joined H K = record K { codec = H.codec; primitives = H.primitives }
