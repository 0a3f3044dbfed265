-- ===== src/Sockets/DoneTest.antt =====
-- serve/socket/socket.go: what the loops of serveRoom read of the room's channel `done`.
use page_spy_api.Base.{◌≡◌, refl, ◌∙◌}
use page_spy_api.Failure.{ok}
use page_spy_api.World.Action.{◌>>=◌, pure, bind-ok}
use page_spy_api.RemoteRoom.{this_remote}
use page_spy_api.RemoteRoom.Lifetime.{this_remote_lem}
use page_spy_api.Sockets.{Connected, Peer, at_end}
use page_spy_api.Sockets.Serving.{is_done}
use page_spy_api.Sockets.Screening.{Ended, at_end-read}

pub done_lem :
    (peer : Peer) (s : Connected) (c : Ended peer s) → is_done peer s ≡ (ok c.end.basic.done, s)
unfolding is_done
done_lem peer s c =
    bind-ok (at_end peer (this_remote peer.client)) (λ r. pure r.basic.done) s s c.end
      (at_end-read peer s c.home (this_remote peer.client) (ok c.end) c.here
        (this_remote_lem peer.client c.home.world c.end c.at))
    ∙ (unfold ◌>>=◌ in refl)
