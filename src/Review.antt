-- ===== src/Review.antt =====
-- The operator's flows on content that is known by its hash: accept, reject, purge and the
-- processing of the trash folder (src/nightfall_photo_ingress/reject.py).
pub mod Results
pub mod Moves
pub mod Reject
pub mod Accept
pub mod Trash
pub mod Sound
pub mod Outcome
