-- ===== src/Sockets/Delivery.antt =====
-- The messages in the channel of a client's end, and what the client reads.
use page_spy_api.Base.{false, none, List, [], ◌∷◌, ◌++◌, map, eq_refl, ◌≡◌, refl, sym, ap, ◌∙◌}
use mathlib.Core.List.{append_assoc, append-nil}
use page_spy_api.Base.Dict.{lookup-insert}
use page_spy_api.Failure.{ok}
use page_spy_api.Message.{Message}
use page_spy_api.World.{RemoteRoom, World, remote, write, write_self}
use page_spy_api.World.Action.{◌>>=◌, bind-ok, attempt}
use page_spy_api.RemoteRoom.{this_remote, set_remote}
use page_spy_api.RemoteRoom.Lifetime.{this_remote_lem}
use page_spy_api.Sockets.{Connected, Peer, at_end, write_data_ignore_error}
use page_spy_api.Sockets.Serving.{
  a_message, WriteTurn, takes, receive, receive_next, on_room_message, after_message, write_loop,
}
use page_spy_api.Sockets.DoneTest.{done_lem}
use page_spy_api.Sockets.Screening.{Ended, with_world, at_end_lem, at_end-read}

module _ (peer : Peer) (writable : (m : Message) → peer.write_error m ≡ none) where
  -- The world when the client's end is replaced.
  replaced : (s : Connected) → Ended peer s → RemoteRoom → World
  replaced s c r = record (c.home.world) { heap = write peer.client (remote r) c.home.world.heap }

  -- The state when a message was taken from the channel and written.
  taken : (s : Connected) → Ended peer s → RemoteRoom → Message → Connected
  unfolding replaced
  taken s c r m = record (with_world peer s c.home (replaced s c r)) { wire = s.wire ++ m ∷ [] }

  taken_ended :
      (s : Connected) (c : Ended peer s) (r : RemoteRoom) (m : Message) → Ended peer (taken s c r m)
  unfolding taken replaced
  taken_ended s c r m = record {
    home = record (c.home) { world = replaced s c r };
    end = r;
    here =
        lookup-insert peer.self peer.self (record (c.home) { world = replaced s c r })
          s.cluster.machines
        ∙ rw (eq_refl peer.self) refl;
    at = write_self peer.client (remote r) c.home.world.heap;
  }

  receive_lem :
      (s : Connected) (c : Ended peer s) (m : Message) (ms : List Message)
      → receive peer c.end (m ∷ ms) s ≡ (ok tt, taken s c (record (c.end) { messages = ms }) m)
  unfolding receive taken write_data_ignore_error set_remote replaced
  receive_lem s c m ms =
      let r : RemoteRoom = record (c.end) { messages = ms } in
      bind-ok (at_end peer (set_remote peer.client r)) (λ d. write_data_ignore_error peer m) s
        (with_world peer s c.home (replaced s c r)) tt
        (at_end_lem peer s c.home (set_remote peer.client r) (ok tt) (replaced s c r) c.here refl)
      ∙ (unfold ◌>>=◌ in rw writable refl)

  next_lem :
      (s : Connected) (c : Ended peer s) (m : Message) (ms : List Message)
      → c.end.messages ≡ m ∷ ms
      → attempt (on_room_message peer a_message) s
        ≡ (ok none, taken s c (record (c.end) { messages = ms }) m)
  unfolding on_room_message receive_next
  next_lem s c m ms e =
      let received =
        bind-ok (at_end peer (this_remote peer.client)) (λ r. receive peer r r.messages) s s c.end
          (at_end-read peer s c.home (this_remote peer.client) (ok c.end) c.here
            (this_remote_lem peer.client c.home.world c.end c.at))
        ∙ ap (λ q. receive peer c.end q s) e
        ∙ receive_lem s c m ms in
      rw received refl

  turn :
      (s : Connected) (c : Ended peer s) (m : Message) (ms : List Message) (turns : List WriteTurn)
      → c.end.basic.done ≡ false
      → c.end.messages ≡ m ∷ ms
      → write_loop peer (takes a_message ∷ turns) s
        ≡ write_loop peer turns (taken s c (record (c.end) { messages = ms }) m)
  unfolding write_loop after_message ◌>>=◌
  turn s c m ms turns undone e = rw (done_lem peer s c ∙ ap (λ b. (ok b, s)) undone) (
      bind-ok (attempt (on_room_message peer a_message))
        (λ failed. after_message peer failed (write_loop peer turns)) s
        (taken s c (record (c.end) { messages = ms }) m) none (next_lem s c m ms e))

  -- If the room's channel `done` is open, the context is not cancelled and all can be written, the
  -- goroutine that writes brings every message of the channel of the client's end to the client, in
  -- their order behind what was written before, in as many turns as there are messages, each of
  -- which takes one; it leaves the channel empty and the end as it was otherwise.
  pub write_loop-delivers :
      (ms : List Message) (s : Connected) (c : Ended peer s)
      → c.end.basic.done ≡ false
      → c.end.messages ≡ ms
      → (t : Connected) × (d : Ended peer t) × (write_loop peer (map (λ m. takes a_message) ms) s
          ≡ (ok tt, t))
        × (t.wire ≡ s.wire ++ ms)
        × (d.end ≡ record (c.end) { messages = [] })
  unfolding write_loop taken taken_ended
  write_loop-delivers [] s c undone e =
      (s, c, refl, sym (append-nil s.wire), ap (λ q. record (c.end) { messages = q }) e)
  write_loop-delivers (m ∷ ms) s c undone e =
      let r : RemoteRoom = record (c.end) { messages = ms } in
      let (t, d, loops, wired, emptied) =
        write_loop-delivers ms (taken s c r m) (taken_ended s c r m) undone refl in
      (
        t,
        d,
        turn s c m ms (map (λ m. takes a_message) ms) undone e ∙ loops,
        wired ∙ append_assoc s.wire (m ∷ []) ms,
        emptied,
      )
