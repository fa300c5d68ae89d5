-- ===== src/Room.antt =====
-- SporeNet::RoomManager (SporeNet/Room.h and Room.cpp): the rooms, their categories and views.
pub mod Table
pub mod Puts
pub mod RoomView
pub mod RoomCategory
pub mod Lobby
pub mod Manager
