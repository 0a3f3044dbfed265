-- ===== src/Sockets/Screening.antt =====
-- What a client's message does to the rooms before its type lets it reach them.
use page_spy_api.Base.{
  String, false, ◌⊎◌, inl, inr, none, some, [], ◌∷◌, ◌++◌, ◌≡◌, refl, ap, ◌∙◌, Option-cases,
}
use page_spy_api.Base.Dict.{lookup, insert, insert_same}
use page_spy_api.Base.Text.{concat}
use page_spy_api.Failure.{GoError, error_text, Outcome, ok, new_client_error, client_error}
use page_spy_api.Message.{
  Message, RawMessage, Content, error_content, error_type, new_message_content,
  is_public_message_type,
}
use page_spy_api.World.{RemoteRoom, World, remote}
use page_spy_api.World.Action.{Action, ◌>>=◌, bind-ok}
use page_spy_api.LocalManager.{Managed, in_world}
use page_spy_api.Rooms.{is_closed}
use page_spy_api.Cluster.{on_self, on_found}
use page_spy_api.Sockets.{
  Connected, Peer, in_cluster, at_end, new_error_message, write_websocket_error,
}
use page_spy_api.Sockets.Reading.{
  room_is_close, to_message, serve_message, serve_read, refuse_closed, read_client_message,
}

-- The client's end of its room, which stands on the instance that serves the client.
pub record Ended (peer : Peer) (s : Connected) : Type 0 where
  pub home : Managed
  pub end : RemoteRoom
  pub here : lookup peer.self s.cluster.machines ≡ some home
  pub at : home.world.heap peer.client ≡ remote end

-- What an action on the instance's world does to the whole.
abbrev pub with_world : (peer : Peer) (s : Connected) → Managed → World → Connected
with_world peer s home w = record s {
  cluster = record (s.cluster) {
    machines = insert peer.self (record home { world = w }) s.cluster.machines;
  };
}

pub at_end_lem :
    {A : Type 0} (peer : Peer) (s : Connected) (home : Managed) (m : Action World A) (o : Outcome A)
    (w : World)
    → lookup peer.self s.cluster.machines ≡ some home
    → m home.world ≡ (o, w)
    → at_end peer m s ≡ (o, with_world peer s home w)
unfolding in_cluster on_self on_found in_world
at_end_lem peer s home m o w h e = rw (h, e) refl

with_same :
    (peer : Peer) (s : Connected) (home : Managed)
    → lookup peer.self s.cluster.machines ≡ some home
    → with_world peer s home home.world ≡ s
with_same peer s home h =
    ap (λ x. record s { cluster = record (s.cluster) { machines = x } })
      (insert_same peer.self home s.cluster.machines h)

-- An action that only reads changes nothing.
pub at_end-read :
    {A : Type 0} (peer : Peer) (s : Connected) (home : Managed) (m : Action World A) (o : Outcome A)
    → lookup peer.self s.cluster.machines ≡ some home
    → m home.world ≡ (o, home.world)
    → at_end peer m s ≡ (o, s)
at_end-read peer s home m o h e =
    at_end_lem peer s home m o home.world h e ∙ ap (λ t. (o, t)) (with_same peer s home h)

pub room_is_close_lem :
    (peer : Peer) (s : Connected) (c : Ended peer s)
    → room_is_close peer s ≡ (ok (is_closed c.end.basic), s)
unfolding room_is_close
room_is_close_lem peer s c =
    at_end-read peer s c.home _ (ok (is_closed c.end.basic)) c.here (rw c.at refl)

-- With an open end, reading a message is serving it.
pub read_client_message-open :
    (peer : Peer) (s : Connected) (c : Ended peer s)
    → is_closed c.end.basic ≡ false
    → (incoming : Outcome RawMessage)
    → read_client_message peer incoming s ≡ serve_read peer incoming s
unfolding read_client_message refuse_closed
read_client_message-open peer s c open_end incoming =
    bind-ok (room_is_close peer) (λ closed. refuse_closed peer closed incoming) s s false
      (rw (← open_end) (room_is_close_lem peer s c))

-- The message was written behind the others, or could not be written.
abbrev pub Written : Peer → Message → Connected → Connected → Type 0
Written peer m s t =
    ((peer.write_error m ≡ none) × (t ≡ record s { wire = s.wire ++ m ∷ [] }))
    ⊎ ((e : GoError) × (peer.write_error m ≡ some e) × (t ≡ s))

pub write_websocket_error-Written :
    (peer : Peer) (e : GoError) (s : Connected)
    → (t : Connected) × (write_websocket_error peer e s ≡ (ok tt, t))
      × Written peer (new_error_message e) s t
unfolding write_websocket_error ◌>>=◌
write_websocket_error-Written peer e s =
    elim (Option-cases (peer.write_error (new_error_message e))) [
      | inl h ↦ (_, rw h refl, inl (h, refl))
      | inr (e', h) ↦ (s, rw h refl, inr (e', h, refl))
    ]

-- A message that cannot be decoded, or is of a type that only the server sends.
abbrev pub Refused : Peer → RawMessage → Type 0
Refused peer raw =
    ((e : GoError) × ((peer.env peer.self).unmarshal raw.content (new_message_content raw.type)
        ≡ inl e))
    ⊎ (is_public_message_type raw.type ≡ false)

-- The message that tells a client of its error.
abbrev pub client_error_message : String → Message
client_error_message message = record {
  type = error_type;
  created_at = 0;
  request_id = "";
  content = error_content (record { message = message; code = client_error });
}

told :
    (peer : Peer) (message : String) (s : Connected)
    → (t : Connected) × (write_websocket_error peer (new_client_error message) s ≡ (ok tt, t))
      × Written peer (client_error_message message) s t
unfolding new_error_message
told peer message s = write_websocket_error-Written peer (new_client_error message) s

module _ (peer : Peer) (s : Connected) where
  Tells : Outcome RawMessage → Type 0
  Tells incoming =
      (message : String) × (t : Connected) × (serve_read peer incoming s ≡ (ok tt, t))
      × Written peer (client_error_message message) s t

  undecoded-Tells :
      (raw : RawMessage) (e : GoError)
      → (peer.env peer.self).unmarshal raw.content (new_message_content raw.type) ≡ inl e
      → Tells (ok raw)
  unfolding Tells serve_read serve_message to_message
  undecoded-Tells raw e h =
      let message =
        concat "message transform failed, "
          (concat "Raw message to message error " (error_text e)) in
      let (t, w, written) = told peer message s in (message, t, rw h w, written)

  private_type-Tells :
      (raw : RawMessage) (c : Content)
      → (peer.env peer.self).unmarshal raw.content (new_message_content raw.type) ≡ inr c
      → is_public_message_type raw.type ≡ false
      → Tells (ok raw)
  unfolding Tells serve_read serve_message to_message
  private_type-Tells raw c h k =
      let message =
        concat "message type " (concat raw.type " is not supported to be sent by frontend") in
      let (t, w, written) = told peer message s in (message, t, rw (h, k) w, written)

  -- A message that cannot be decoded, or is of a type that only the server sends, is answered with
  -- an error message of the client's code, unless that cannot be written, and changes nothing else;
  -- the client's end must be open.
  pub read_client_message-Refused :
      (c : Ended peer s)
      → is_closed c.end.basic ≡ false
      → (raw : RawMessage) → Refused peer raw
      → (message : String) × (t : Connected) × (read_client_message peer (ok raw) s ≡ (ok tt, t))
        × Written peer (client_error_message message) s t
  unfolding Tells
  read_client_message-Refused c open_end raw refused =
      let (message, t, e, w) = tells refused in
      (message, t, read_client_message-open peer s c open_end (ok raw) ∙ e, w)
    where
      by_type :
          (x : GoError ⊎ Content)
          → (peer.env peer.self).unmarshal raw.content (new_message_content raw.type) ≡ x
          → is_public_message_type raw.type ≡ false
          → Tells (ok raw)
      by_type (inl e) h k = undecoded-Tells raw e h
      by_type (inr c) h k = private_type-Tells raw c h k

      tells : Refused peer raw → Tells (ok raw)
      tells (inl (e, h)) = undecoded-Tells raw e h
      tells (inr k) = by_type _ refl k
