-- ===== src/LocalRoom.antt =====
-- room/local_room.go: a room on the instance that owns it, a method to a function. The receiver is
-- a pointer into the heap, and the time of the call is an argument, in milliseconds.
-- The locks make each access to the connections atomic, and one call runs at a time here. Loggers
-- and metrics are left out.
pub mod Fields
pub mod Sending
pub mod Membership
pub mod Lifetime
pub mod Tests
