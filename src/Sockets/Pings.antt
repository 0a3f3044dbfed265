-- ===== src/Sockets/Pings.antt =====
-- A client that only pings.
use page_spy_api.Base.{false, inr, none, List, [], ◌∷◌, ◌++◌, map, All, ◌≡◌, refl, ap, ◌∙◌}
use mathlib.Core.List.{append_assoc}
use page_spy_api.Failure.{GoError, error_text, ok, err, room_close_error}
use page_spy_api.Base.Text.{concat}
use page_spy_api.Message.{
  Message, RawMessage, Content, empty_map, error_content, error_type, new_message_content,
  is_public_message_type, ping_type, pong_type, get_pong,
}
use page_spy_api.World.Action.{◌>>=◌, bind-ok, attempt}
use page_spy_api.Rooms.{is_closed}
use page_spy_api.Sockets.{
  Connected, Peer, new_error_message, write_websocket_error, write_data_ignore_error,
}
use page_spy_api.Sockets.Reading.{
  serve_read, serve_message, serve_public, to_message, read_client_message,
}
use page_spy_api.Sockets.Serving.{Turn, yields, after_read, read_loop}
use page_spy_api.Sockets.DoneTest.{done_lem}
use page_spy_api.Sockets.Screening.{Ended, read_client_message-open}

-- A ping that can be decoded.
abbrev pub Ping : Peer → RawMessage → Type 0
Ping peer raw =
    (raw.type ≡ ping_type)
    × ((c : Content) × ((peer.env peer.self).unmarshal raw.content (new_message_content raw.type)
          ≡ inr c))

-- The pong that answers it.
abbrev pub pong : Peer → RawMessage → Message
pong peer raw = record {
  type = pong_type;
  created_at = peer.now;
  request_id = raw.request_id;
  content = empty_map;
}

abbrev pub writes : Connected → List Message → Connected
writes s ms = record s { wire = s.wire ++ ms }

-- The message that tells a client why its socket is no longer read.
abbrev pub last_message : GoError → Message
last_message closed = record {
  type = error_type;
  created_at = 0;
  request_id = "";
  content = error_content (record {
    message = concat "read message websocket error " (error_text closed);
    code = room_close_error;
  });
}

module _ (peer : Peer) (writable : (m : Message) → peer.write_error m ≡ none) where
  serve-Ping :
      (s : Connected) (raw : RawMessage)
      → Ping peer raw
      → serve_read peer (ok raw) s ≡ (ok tt, writes s (pong peer raw ∷ []))
  unfolding serve_read serve_message serve_public to_message is_public_message_type get_pong
      write_data_ignore_error ◌>>=◌
  serve-Ping s raw (t, (c, h)) = rw (h, t, writable) refl

  -- What is written leaves the rooms as they are.
  still_ended : (s : Connected) (ms : List Message) → Ended peer s → Ended peer (writes s ms)
  still_ended s ms c = record { home = c.home; end = c.end; here = c.here; at = c.at }

  read-Ping :
      (s : Connected) (c : Ended peer s) (raw : RawMessage)
      → is_closed c.end.basic ≡ false
      → Ping peer raw
      → attempt (read_client_message peer (ok raw)) s ≡ (ok none, writes s (pong peer raw ∷ []))
  unfolding ◌>>=◌
  read-Ping s c raw open_end h =
      rw (read_client_message-open peer s c open_end (ok raw), serve-Ping s raw h) refl

  turn :
      (closed : GoError) (s : Connected) (c : Ended peer s) (raw : RawMessage) (turns : List Turn)
      → is_closed c.end.basic ≡ false
      → c.end.basic.done ≡ false
      → Ping peer raw
      → read_loop peer closed (yields (ok raw) ∷ turns) s
        ≡ read_loop peer closed turns (writes s (pong peer raw ∷ []))
  unfolding read_loop ◌>>=◌
  turn closed s c raw turns open_end undone h =
      rw (done_lem peer s c, undone)
        (bind-ok (attempt (read_client_message peer (ok raw)))
          (λ failed. after_read peer failed (read_loop peer closed turns)) s
          (writes s (pong peer raw ∷ [])) none (read-Ping s c raw open_end h))

  last_turn :
      (closed : GoError) (s : Connected) (c : Ended peer s)
      → is_closed c.end.basic ≡ false
      → read_loop peer closed [] s ≡ (ok "read_message_close", writes s (last_message closed ∷ []))
  unfolding read_loop after_read serve_read write_websocket_error new_error_message ◌>>=◌
  last_turn closed s c open_end =
      rw (read_client_message-open peer s c open_end (err closed)) (rw writable refl)

  -- A client whose end is open and that only pings is answered with a pong of each ping's request,
  -- in their order, and changes nothing else until its socket is closed, which ends the loop with
  -- a last message, provided that all can be written.
  pub read_loop-pongs :
      (closed : GoError) (raws : List RawMessage) (s : Connected) (c : Ended peer s)
      → is_closed c.end.basic ≡ false
      → c.end.basic.done ≡ false
      → All (Ping peer) raws
      → read_loop peer closed (map (λ raw. yields (ok raw)) raws) s
        ≡ (ok "read_message_close", writes s (map (pong peer) raws ++ last_message closed ∷ []))
  unfolding still_ended
  read_loop-pongs closed [] s c open_end undone h = last_turn closed s c open_end
  read_loop-pongs closed (raw ∷ raws) s c open_end undone h =
      turn closed s c raw (map (λ r. yields (ok r)) raws) open_end undone h.0
      ∙ read_loop-pongs closed raws (writes s (pong peer raw ∷ []))
          (still_ended s (pong peer raw ∷ []) c) open_end undone h.1
      ∙ ap (λ w. (ok "read_message_close", record s { wire = w }))
          (append_assoc s.wire (pong peer raw ∷ [])
            (map (pong peer) raws ++ last_message closed ∷ []))
