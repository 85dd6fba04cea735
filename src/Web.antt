-- ===== src/Web.antt =====
-- apps/web: the room page of the browser.
pub mod RoomSocket
pub mod DrawCanvas
pub mod Mirror
pub mod Drawing
pub mod Feed
pub mod Tests
