-- ===== src/Friends.antt =====
-- core/friends.ts: the friendship handshake. `Friends/Wire.antt` has the signed objects,
-- `Friends/Book.antt` the state of a node.
pub mod Wire
pub mod Book
pub mod Revocation
pub mod Invariant
pub mod History
pub mod Handshake
pub mod Binding
