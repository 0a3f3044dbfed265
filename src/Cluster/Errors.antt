-- ===== src/Cluster/Errors.antt =====
-- Errors that cross the network in a response.
use page_spy_api.Base.{◌≡◌, ◌≢◌, refl, ap}
use page_spy_api.Failure.{
  RoomError, GoError, room_error, text, wrapped, error_text, new_error, err, set_error, get_error,
}
use page_spy_api.Cluster.{answer_done, reply}

abbrev or_room : RoomError → GoError → RoomError
or_room d (room_error x) = x
or_room d _ = d

-- The error of a handler comes to the caller as a room's error: one that is a room's error already as
-- it was, with its code, and any other with its text and the unknown code.
pub reply-answer_done :
    (e : GoError)
    → (r : RoomError) × (reply (answer_done (err e)) ≡ err (room_error r))
      × ((x : RoomError) → e ≡ room_error x → r ≡ x)
      × (((x : RoomError) → e ≢ room_error x) → r ≡ new_error (error_text e))
unfolding set_error get_error
reply-answer_done (room_error x) =
    (x, refl, λ y h. ap (or_room x) h, λ other. absurd (other x refl))
reply-answer_done (text t) = (new_error t, refl, λ y h. absurd cc, λ other. refl)
reply-answer_done (wrapped t e) = (new_error t, refl, λ y h. absurd cc, λ other. refl)
