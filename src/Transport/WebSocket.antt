-- ===== src/Transport/WebSocket.antt =====
-- Web sockets, the package `tungstenite`'s: the messages that the code tells apart. What a socket
-- delivers is a list of results, at whose end the stream ends.
use apfsds_rs.Base.{ℕ, List, Result}

pub data Message : Type 0 where
  binary : List ℕ → Message
  text : List ℕ → Message
  ping : List ℕ → Message
  pong : List ℕ → Message
  close : Message

abbrev pub Incoming : Type 0
Incoming = Result (List ℕ) Message
