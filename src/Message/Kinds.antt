-- ===== src/Message/Kinds.antt =====
-- Which types of message pass which test, and what their contents are decoded into.
use page_spy_api.Base.{String, ◌≡◌, true, false, arith}
use page_spy_api.Message.{is_public_message_type, not_message_type}

-- Every type that a client may send is a type of message that a room knows.
pub public_is_message : (t : String) → is_public_message_type t ≡ true → not_message_type t ≡ false
unfolding is_public_message_type not_message_type
public_is_message t h = ground arith
