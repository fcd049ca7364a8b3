-- ===== src/WebSocket.antt =====
-- websocket_manager.py: WebSocket/Config has the configuration, WebSocket/Connection the state of one
-- connection with its subscriptions, WebSocket/Reconnect its reconnection, WebSocket/Dispatch how
-- messages reach callbacks, WebSocket/Manager the pools of connections of the exchanges.

pub mod Config
pub mod Connection
pub mod Limits
pub mod Leak
pub mod Reconnect
pub mod Reconnects
pub mod Restores
pub mod Dispatch
pub mod Delivery
pub mod Manager
pub mod Fits
pub mod Pools
pub mod Choice
mod Tests
