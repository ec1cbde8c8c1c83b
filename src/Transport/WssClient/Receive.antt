-- ===== src/Transport/WssClient/Receive.antt =====
-- What `receive_binary` gives, and the pings that it answers on the way.
use apfsds_rs.Base.{ℕ, ◌≡◌, refl, List, [], ◌∷◌, ◌++◌, Result, ok, err}
use apfsds_rs.Transport.WebSocket.{Message, binary, text, ping, pong, close, Incoming}
use apfsds_rs.Transport.WssClient.{WssClientError, connection_closed, Sends, receive_binary}

-- What does not end the wait for data.
pub data Aside : Type 0 where
  asked said answered : List ℕ → Aside

abbrev pub as_message : Aside → Message
as_message (asked bytes) = ping bytes
as_message (said bytes) = text bytes
as_message (answered bytes) = pong bytes

abbrev pub before : List Aside → List Incoming → List Incoming
before [] incoming = incoming
before (a ∷ asides) incoming = ok (as_message a) ∷ before asides incoming

abbrev pub answers : List Aside → List Message
answers [] = []
answers (asked bytes ∷ asides) = pong bytes ∷ answers asides
answers (said bytes ∷ asides) = answers asides
answers (answered bytes ∷ asides) = answers asides

abbrev pub Received : Type 0
Received = Result WssClientError (List ℕ) × List Incoming × List Message

abbrev behind : List Message → Received → Received
behind messages r = (r.0, r.1, messages ++ r.2)

receive_binary-before :
    (sends : Sends) (asides : List Aside) (incoming : List Incoming)
    → ((bytes : List ℕ) → sends (pong bytes) ≡ ok tt)
    → receive_binary sends (before asides incoming)
      ≡ behind (answers asides) (receive_binary sends incoming)
unfolding receive_binary
receive_binary-before sends [] incoming takes = refl
receive_binary-before sends (asked bytes ∷ asides) incoming takes =
    rw (takes bytes, receive_binary-before sends asides incoming takes) refl
receive_binary-before sends (said bytes ∷ asides) incoming takes =
    receive_binary-before sends asides incoming takes
receive_binary-before sends (answered bytes ∷ asides) incoming takes =
    receive_binary-before sends asides incoming takes

-- Whatever pings, texts and pongs come first, on a socket that takes the answers: the call gives the
-- first data, each ping before it has been answered once, in order and with its own bytes, and what
-- comes behind the data is left. Where the connection is closed first, or ends, the call says so,
-- and the pings are answered all the same.
pub receive_binary-asides :
    (sends : Sends) (asides : List Aside) (bytes : List ℕ) (rest : List Incoming)
    → ((b : List ℕ) → sends (pong b) ≡ ok tt)
    → (receive_binary sends (before asides (ok (binary bytes) ∷ rest))
        ≡ (ok bytes, rest, answers asides ++ []))
      × (receive_binary sends (before asides (ok close ∷ rest))
          ≡ (err connection_closed, rest, answers asides ++ []))
      × (receive_binary sends (before asides [])
          ≡ (err connection_closed, [], answers asides ++ []))
unfolding receive_binary
receive_binary-asides sends asides bytes rest takes = (
  receive_binary-before sends asides (ok (binary bytes) ∷ rest) takes,
  receive_binary-before sends asides (ok close ∷ rest) takes,
  receive_binary-before sends asides [] takes,
)
