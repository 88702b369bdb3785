-- ===== src/P2p.antt =====
-- Peer-to-peer rooms: aird/handlers/p2p_handlers.py and aird/services/p2p_service.py.
pub mod Room
pub mod Signaling
mod Examples
