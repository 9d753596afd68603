-- ===== src/Bridge/Passthrough/Flows.antt =====
-- The volley of TlsCapableHttpBridge.hpp as steps: the peers send, and operations of either direction
-- end, in any order.
use http_filtering_engine.Base.{Bytes, [], ◌++◌, ◌≡◌, true}
use http_filtering_engine.Bridge.State.{Completion, success, Bridge}
use http_filtering_engine.Bridge.Reading.{Peer, client, server, is_error}
use http_filtering_engine.Bridge.Passthrough.{
  Relay, read_from, write_bytes, handle_downstream_passthrough, handle_upstream_passthrough,
  on_relayed, start_passthrough_volley,
}

-- One direction: its outstanding operation, all that its source has sent, what of it is not read
-- yet, and what has been written to the other peer.
pub record Flow : Type 0 where
  pub relay : Relay
  pub sent : Bytes
  pub unread : Bytes
  pub delivered : Bytes

-- The direction is named by its source.
pub record Volleying : Type 0 where
  pub bridge : Bridge
  pub down : Flow
  pub up : Flow

abbrev pub other : Peer → Peer
other client = server
other server = client

abbrev pub flow : Peer → Volleying → Flow
flow client s = s.down
flow server s = s.up

abbrev pub put_flow : Peer → Bridge → Flow → Volleying → Volleying
put_flow client b f s = record s { bridge = b; down = f }
put_flow server b f s = record s { bridge = b; up = f }

-- The handler of the direction's reads.
abbrev pub handle_passthrough : Peer → Completion → Bytes → Bridge → Bridge × Relay
handle_passthrough client e bytes b = handle_downstream_passthrough e bytes b
handle_passthrough server e bytes b = handle_upstream_passthrough e bytes b

-- The states after a read that put in the bytes and left the others, and after a write that wrote
-- the bytes.
unfoldable pub after_read : Peer → Completion → Bytes → Bytes → Volleying → Volleying
after_read p e bytes others s =
    let r = handle_passthrough p e bytes s.bridge in
    put_flow p r.0 (record (flow p s) { relay = r.1; unread = others }) s

unfoldable pub after_write : Peer → Completion → Bytes → Volleying → Volleying
unfolding on_relayed
after_write p e bytes s =
    let r = on_relayed p e s.bridge in
    put_flow p r.0 (record (flow p s) { relay = r.1; delivered = (flow p s).delivered ++ bytes }) s

-- A read that fails has put in nothing; a write that fails may have written a part.
pub data Step : Volleying → Volleying → Type 0 where
  send :
      (p : Peer) (bytes : Bytes) (s : Volleying)
      → Step s (
          put_flow p s.bridge
            (record (flow p s) {
              sent = (flow p s).sent ++ bytes;
              unread = (flow p s).unread ++ bytes;
            })
            s)
  read :
      (p : Peer) (bytes others : Bytes) (s : Volleying)
      → (flow p s).relay ≡ read_from p
      → (flow p s).unread ≡ bytes ++ others
      → Step s (after_read p success bytes others s)
  read_fails :
      (p : Peer) (e : Completion) (s : Volleying)
      → (flow p s).relay ≡ read_from p
      → is_error e ≡ true
      → Step s (after_read p e [] (flow p s).unread s)
  written :
      (p : Peer) (bytes : Bytes) (s : Volleying)
      → (flow p s).relay ≡ write_bytes (other p) bytes
      → Step s (after_write p success bytes s)
  write_fails :
      (p : Peer) (e : Completion) (part lost : Bytes) (s : Volleying)
      → (flow p s).relay ≡ write_bytes (other p) (part ++ lost)
      → is_error e ≡ true
      → Step s (after_write p e part s)

pub data Reach (s : Volleying) : Volleying → Type 0 where
  here : Reach s s
  next : {t u : Volleying} → Reach s t → Step t u → Reach s u

-- The volley as it starts, its first bytes written to the server.
unfoldable pub starting : Bytes → Bridge → Volleying
unfolding start_passthrough_volley
starting first b =
    let v = start_passthrough_volley success b in
    record {
      bridge = v.bridge;
      down = record { relay = v.downstream; sent = first; unread = []; delivered = first };
      up = record { relay = v.upstream; sent = []; unread = []; delivered = [] };
    }
