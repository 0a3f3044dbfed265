-- ===== src/Cluster/Tests.antt =====
-- A list of two rooms, and a room error that crosses the network.
use page_spy_api.Base.{◌≡◌, ◌≢◌, [], ◌∷◌, All, length}
use page_spy_api.Failure.{RoomError, new_room_close_error, new_error, error_text, room_error, err}
use page_spy_api.Message.{Info}
use page_spy_api.Samples.{info}
use page_spy_api.Cluster.{reply, answer_done}
use page_spy_api.Cluster.Listing.{listed, Latest, Hidden, listed-Latest}
use page_spy_api.Cluster.Errors.{reply-answer_done}

abbrev young : Info
young = record info { created_at = 9 }

listed-Latest_example :
    Latest (listed (info ∷ young ∷ []))
    × All Hidden (listed (info ∷ young ∷ []))
    × (length (listed (info ∷ young ∷ [])) ≡ 2)
listed-Latest_example = listed-Latest (info ∷ young ∷ [])

reply-answer_done_example :
    (r : RoomError) × (reply (answer_done (err (new_room_close_error "gone"))) ≡ err (room_error r))
    × ((x : RoomError) → new_room_close_error "gone" ≡ room_error x → r ≡ x)
    × (((x : RoomError) → new_room_close_error "gone" ≢ room_error x)
        → r ≡ new_error (error_text (new_room_close_error "gone")))
reply-answer_done_example = reply-answer_done (new_room_close_error "gone")
