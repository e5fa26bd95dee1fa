-- ===== src/Terminal/Sessions/Senders.antt =====
-- src/terminal-server.js, the handler of `#listen` and `receiveRelayed`: whom a frame is from.
use git_pigeon.Prelude.{
  ℕ, false, ◌≡◌, arith, Option, none, some, List, [], ◌++◌, take, if◌then◌else◌,
}
use git_pigeon.Prelude.Patterns.{is_hex, every}
use git_pigeon.Prelude.Text.{Text, text, is_empty}
use git_pigeon.Terminal.Sessions.{Incoming, Server, Effect}
use git_pigeon.Terminal.Sessions.Serving.{receive}

-- The peer to reply to: the address that the frame states, else its origin, else the last hop.
unfoldable pub sender : Option Text → Text → Text → Text
unfolding is_hex is_empty
sender none origin last_hop = if is_empty origin then last_hop else origin
sender (some reply_to) origin last_hop =
    if is_hex 64 reply_to then reply_to else if is_empty origin then last_hop else origin

abbrev pub relay_prefix : Text
relay_prefix = text "relay:"

-- The name that a browser of the pairing mesh has, by its key.
abbrev pub pseudo_peer : Text → Text
pseudo_peer reply_epub = relay_prefix ++ take 24 reply_epub

abbrev pub room_of : Text → Option Text → Text
room_of device_room none = device_room
room_of device_room (some repository_id) =
    if is_empty repository_id then device_room else repository_id

-- `receiveRelayed`, with the repository that the frame names; the way of its replies is left out
unfoldable pub receive_relayed :
    (decode utf8 : Text → Text)
    → Text
    → Text
    → ℕ
    → Text
    → Option Text
    → Incoming
    → Server
    → Server × List Effect
unfolding receive is_empty
receive_relayed decode utf8 own device_room now reply_epub repository_id frame s =
    if s.is_started
    then receive decode utf8 own now (pseudo_peer reply_epub) (room_of device_room repository_id)
        frame s
    else (s, [])

-- No frame of a room can state the name of a browser of the pairing mesh as its address.
pub is_hex-pseudo_peer : (reply_epub : Text) → is_hex 64 (pseudo_peer reply_epub) ≡ false
unfolding is_hex every
is_hex-pseudo_peer reply_epub = ground arith

-- A relayed frame is treated exactly like one that a browser of that name sends to the room, whether or not the
-- server is started.
pub receive_relayed-eq-receive :
    (decode utf8 : Text → Text) (own device_room : Text) (now : ℕ) (reply_epub : Text)
    (repository_id : Option Text) (frame : Incoming) (s : Server)
    → receive_relayed decode utf8 own device_room now reply_epub repository_id frame s
      ≡ receive decode utf8 own now
          (pseudo_peer reply_epub)
          (room_of device_room repository_id)
          frame
          s
unfolding receive_relayed receive
receive_relayed-eq-receive decode utf8 own device_room now reply_epub repository_id frame s =
    ground arith
