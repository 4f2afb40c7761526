-- ===== src/Server/Hub/Loop.antt =====
-- server/hub.go and server/client.go: the loop of Run with the pumps around it, as steps of the
-- server. A frame is read and, unless the reader answers it, handled in one step.
pub mod Durable
pub mod Tidy
pub mod Lasting
use knock.Prelude.{ℕ, ◌≡◌, Option, none, some, List, [], ◌∷◌}
use knock.Protocol.Envelope.{Envelope, Json, Decoded}
use knock.Server.Run.{Run, ok, ◌>>=◌}
use knock.Server.Channel.{Channel, fresh, read_round, Write, waits, text, close, write_round}
use knock.Server.Hub.State.{Hub, World, update, register, unregister}
use knock.Server.Hub.Handle.{handle}

pub data Event : Type 0 where
  connects : ℕ → Event
  leaves : ℕ → Event
  frame : ℕ → Decoded → Event
  writes : ℕ → Event

-- serveWS makes the channel and registers the connection.
unfoldable pub serve_ws : ℕ → Hub → Hub
unfolding update register
serve_ws c h = register c (record h { chans = update h.chans c fresh })

written : ℕ → Write → Hub → Hub
unfolding update
written c (text e ch) h = record h { chans = update h.chans c ch }
written c waits h = h
written c close h = h

module _ (j : Json) where
  route : World → ℕ → Option Envelope → Hub → Run Hub
  route w c none h = ok h
  route w c (some env) h = handle j w c env h

  unfoldable pub step : World → Event → Hub → Run Hub
  unfolding serve_ws unregister update route written write_round
  step w (connects c) h = ok (serve_ws c h)
  step w (leaves c) h = unregister c h
  step w (writes c) h = ok (written c (write_round (h.chans c)) h)
  step w (frame c d) h = do
    (ch, routed) ← read_round j w.now d (h.chans c)
    route w c routed (record h { chans = update h.chans c ch })

  unfoldable pub run : List (World × Event) → Hub → Run Hub
  unfolding step
  run [] h = ok h
  run ((w, e) ∷ es) h = do h' ← step w e h; run es h'
