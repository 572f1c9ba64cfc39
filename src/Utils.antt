-- ===== src/Utils.antt =====
-- utils: the list of remote nodes, and the identities of nodes and requests.
pub mod SliceList
pub mod NodeId
