-- ===== src/Chat.antt =====
-- The rules of the chat API that need no database: backend/app/domain/chat.
pub mod PendingActions
pub mod Routing
pub mod Confirm
